-- ===== src/Effect/Respects.antt =====
-- What holds between the state before and after a method, proved once for each way to build a method.
use mcp_suite.Common.{Bool, true, false, Option, none, some, if◌then◌else◌}
use mcp_suite.Effect
use mcp_suite.Effect.{Result, ok, err, Exec, pure, raise, lift, gets, require_some, ◌>>=◌}

pub record Preorder {ℓ} {S : Type ℓ} (R : S → S → Type ℓ) : Type ℓ where
  pub same : (s : S) → R s s
  pub step : (s t u : S) → R s t → R t u → R s u

-- The property `P` of the state is kept.
pub record Kept {ℓ} {S : Type ℓ} (P : S → Type ℓ) (s t : S) : Type ℓ where
  pub keep : P s → P t

instance abbrev pub Kept-preorder {ℓ} : {S : Type ℓ} {P : S → Type ℓ} → Preorder (Kept P)
Kept-preorder = record {
  same = λ s. record { keep = λ h. h };
  step = λ s t u p q. record { keep = λ h. q.keep (p.keep h) };
}

-- `m` relates every state to the one that it leaves, whether it returns or throws.
pub record Respects {ℓ} {S E A : Type ℓ} (R : S → S → Type ℓ) (m : Exec S E A) : Type ℓ where
  pub at : (s : S) → R s (m s).1

module _ {ℓ} {S E A : Type ℓ} {R : S → S → Type ℓ} ⦃o : Preorder R⦄ where
  pub Respects-pure : (a : A) → Respects R (pure {S = S} {E = E} a)
  Respects-pure a = record { at = λ s. o.same s }

  pub Respects-raise : (e : E) → Respects R (raise {S = S} {A = A} e)
  Respects-raise e = record { at = λ s. o.same s }

  pub Respects-lift : (r : Result E A) → Respects R (lift {S = S} r)
  Respects-lift r = record { at = λ s. o.same s }

  pub Respects-gets : (f : S → A) → Respects R (gets {E = E} f)
  Respects-gets f = record { at = λ s. o.same s }

  pub Respects-require_some : (v : Option A) (e : E) → Respects R (require_some {S = S} v e)
  Respects-require_some none e = record { at = λ s. o.same s }
  Respects-require_some (some a) e = record { at = λ s. o.same s }

  pub Respects-if :
      (b : Bool) (m n : Exec S E A) → Respects R m → Respects R n → Respects R (if b then m else n)
  Respects-if true m n hm hn = hm
  Respects-if false m n hm hn = hn

module _ {ℓ} {S E A B : Type ℓ} {R : S → S → Type ℓ} ⦃o : Preorder R⦄ where
  after :
      (f : A → Exec S E B) (s : S) (r : Result E A) (t : S)
      → R s t
      → ((a : A) → Respects R (f a))
      → R s (Effect.after_result r f t).1
  after f s (ok a) t h hf = o.step s t _ h ((hf a).at t)
  after f s (err e) t h hf = h

  pub Respects-bind :
      (m : Exec S E A) (f : A → Exec S E B)
      → Respects R m
      → ((a : A) → Respects R (f a))
      → Respects R (m >>= f)
  unfolding ◌>>=◌
  Respects-bind m f hm hf = record { at = λ s. after f s (m s).0 (m s).1 (hm.at s) hf }

pub ruleset respects_rules = (
  Respects-pure, Respects-raise, Respects-lift, Respects-gets, Respects-require_some, Respects-if,
  Respects-bind,
)
