-- ===== src/Effect.antt =====
-- The effect of a method: it reads and replaces the state of its object and returns or throws. What
-- was written before a throw stays written, unless a database transaction takes it back.
pub mod Respects
pub mod Raises
use mcp_suite.Common.{Bool, true, false, ◌≡◌, refl, ◌⊎◌, inl, inr, Option, none, some, arith}

pub data Result {ℓ κ} (E : Type ℓ) (A : Type κ) : Type (ℓ ⊔ κ) where
  ok : A → Result E A
  err : E → Result E A

abbrev pub is_ok {ℓ κ} : {E : Type ℓ} {A : Type κ} → Result E A → Bool
is_ok (ok a) = true
is_ok (err e) = false

pub Result-cases {ℓ κ} :
    {E : Type ℓ} {A : Type κ} (r : Result E A) → ((a : A) × (r ≡ ok a)) ⊎ ((e : E) × (r ≡ err e))
Result-cases (ok a) = inl (a, refl)
Result-cases (err e) = inr (e, refl)

abbrev pub Exec {ℓ} : Type ℓ → Type ℓ → Type ℓ → Type ℓ
Exec S E A = S → Result E A × S

module _ {ℓ} {S E A : Type ℓ} where
  abbrev pub pure : A → Exec S E A
  pure a s = (ok a, s)

  abbrev pub raise : E → Exec S E A
  raise e s = (err e, s)

  abbrev pub lift : Result E A → Exec S E A
  lift r s = (r, s)

  abbrev pub gets : (S → A) → Exec S E A
  gets f s = (ok (f s), s)

  -- `if (!value) throw error`
  abbrev pub require_some : Option A → E → Exec S E A
  require_some none e = raise e
  require_some (some a) e = pure a

module _ {ℓ} {S E : Type ℓ} where
  abbrev pub modify : (S → S) → Exec S E (Unit {ℓ})
  modify f s = (ok tt, f s)

module _ {ℓ} {S E A B : Type ℓ} where
  abbrev pub after_result : Result E A → (A → Exec S E B) → Exec S E B
  after_result (ok a) f s = f a s
  after_result (err e) f s = (err e, s)

  infixl 10 ◌>>=◌ ◌>>◌
  unfoldable pub ◌>>=◌ : Exec S E A → (A → Exec S E B) → Exec S E B
  ◌>>=◌ m f s = after_result (m s).0 f (m s).1

  abbrev pub ◌>>◌ : Exec S E A → Exec S E B → Exec S E B
  m >> n = m >>= λ _. n

  -- A step that returns hands its value and its state on.
  pub bind-ok :
      (m : Exec S E A) (f : A → Exec S E B) (s : S) {a : A} {t : S}
      → m s ≡ (ok a, t)
      → (m >>= f) s ≡ f a t
  unfolding ◌>>=◌
  bind-ok m f s h = rw h

  -- A step that throws ends the block.
  pub bind-err :
      (m : Exec S E A) (f : A → Exec S E B) (s : S) {e : E} {t : S}
      → m s ≡ (err e, t)
      → (m >>= f) s ≡ (err e, t)
  unfolding ◌>>=◌
  bind-err m f s h = rw h

  -- A block that returns went through a step that returned.
  pub record Went (m : Exec S E A) (f : A → Exec S E B) (s : S) (b : B) : Type ℓ where
    pub value : A
    pub first : (m s).0 ≡ ok value
    pub second : (f value (m s).1).0 ≡ ok b
    pub joined : (m >>= f) s ≡ f value (m s).1

  pub bind-Went :
      (m : Exec S E A) (f : A → Exec S E B) (s : S) (b : B) → ((m >>= f) s).0 ≡ ok b → Went m f s b
  unfolding ◌>>=◌
  bind-Went m f s b h = elim (Result-cases (m s).0) [
    | inl (a, returned) ↦ record {
      value = a;
      first = returned;
      second = ground (arith, returned, h);
      joined = rw returned refl;
    }
    | inr (e, raised) ↦ absurd (ground (arith, raised, h))
  ]
