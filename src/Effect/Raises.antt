-- ===== src/Effect/Raises.antt =====
-- What a method throws, proved once for each way to build a method.
use mcp_suite.Common.{◌≡◌, subst, Bool, true, false, Option, none, some, if◌then◌else◌}
use mcp_suite.Effect
use mcp_suite.Effect.{Result, ok, err, Exec, pure, raise, lift, gets, modify, require_some, ◌>>=◌}

-- Every error of this result passes the test.
abbrev pub Passes {ℓ κ} : {E : Type ℓ} {A : Type κ} → (E → Bool) → Result E A → Type 0
Passes test (ok a) = Unit
Passes test (err e) = test e ≡ true

pub Passes-err {ℓ κ} :
    {E : Type ℓ} {A : Type κ} (test : E → Bool) (r : Result E A) (e : E)
    → Passes test r
    → r ≡ err e
    → test e ≡ true
Passes-err test r e h same = subst (Passes test) same h

-- `m` throws only such errors, from every state.
pub record Raises {ℓ} {S E A : Type ℓ} (test : E → Bool) (m : Exec S E A) : Type ℓ where
  pub passes : (s : S) → Passes test (m s).0

module _ {ℓ} {S E A : Type ℓ} {test : E → Bool} where
  pub Raises-pure : (a : A) → Raises test (pure {S = S} {E = E} a)
  Raises-pure a = record { passes = λ s. tt }

  pub Raises-raise : (e : E) → test e ≡ true → Raises test (raise {S = S} {A = A} e)
  Raises-raise e h = record { passes = λ s. h }

  pub Raises-lift : (r : Result E A) → Passes test r → Raises test (lift {S = S} r)
  Raises-lift r h = record { passes = λ s. h }

  pub Raises-gets : (f : S → A) → Raises test (gets {E = E} f)
  Raises-gets f = record { passes = λ s. tt }

  pub Raises-require_some :
      (v : Option A) (e : E) → test e ≡ true → Raises test (require_some {S = S} v e)
  Raises-require_some none e h = record { passes = λ s. h }
  Raises-require_some (some a) e h = record { passes = λ s. tt }

  pub Raises-if :
      (b : Bool) (m n : Exec S E A)
      → Raises test m
      → Raises test n
      → Raises test (if b then m else n)
  Raises-if true m n hm hn = hm
  Raises-if false m n hm hn = hn

module _ {ℓ} {S E : Type ℓ} {test : E → Bool} where
  pub Raises-modify : (f : S → S) → Raises test (modify {E = E} f)
  Raises-modify f = record { passes = λ s. tt }

module _ {ℓ} {S E A B : Type ℓ} {test : E → Bool} where
  after :
      (f : A → Exec S E B) (r : Result E A) (t : S)
      → Passes test r
      → ((a : A) → Raises test (f a))
      → Passes test (Effect.after_result r f t).0
  after f (ok a) t h hf = (hf a).passes t
  after f (err e) t h hf = h

  pub Raises-bind :
      (m : Exec S E A) (f : A → Exec S E B)
      → Raises test m
      → ((a : A) → Raises test (f a))
      → Raises test (m >>= f)
  unfolding ◌>>=◌
  Raises-bind m f hm hf = record { passes = λ s. after f (m s).0 (m s).1 (hm.passes s) hf }

pub ruleset raises_rules = (
  Raises-pure, Raises-raise, Raises-lift, Raises-gets, Raises-require_some, Raises-if,
  Raises-modify, Raises-bind,
)
