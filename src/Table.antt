-- ===== src/Table.antt =====
-- A SQL table whose rows have a primary key: the reads and the keyed writes of the sources.
use mcp_suite.Common.{
  ℕ, String, ◌≡◌, refl, Bool, false, Option, none, some, List, [], ◌∷◌, ◌++◌, arith, ◌==◌, eq_iff,
  if◌then◌else◌,
}
use mathlib.Core.Option

module _ {ℓ} {Row : Type ℓ} (key : Row → String) where
  -- SELECT * … WHERE key = ? LIMIT 1
  unfoldable pub find : String → List Row → Option Row
  find k [] = none
  find k (r ∷ rows) = if key r == k then some r else find k rows

  -- UPDATE … SET change WHERE key = ? AND guard. At most one row has the key.
  unfoldable pub update : String → (Row → Bool) → (Row → Row) → List Row → List Row
  update k guard change [] = []
  update k guard change (r ∷ rows) =
      if key r == k
      then (if guard r then change r else r) ∷ rows
      else r ∷ update k guard change rows

  -- The number of rows that this UPDATE changes.
  unfoldable pub changes : String → (Row → Bool) → List Row → ℕ
  changes k guard rows = elim (find k rows) [ none ↦ 0 | some r ↦ if guard r then 1 else 0 ]

  abbrev pub updated : (Row → Bool) → (Row → Row) → Row → Row
  updated guard change r = if guard r then change r else r

  -- What a read finds after a keyed update that leaves the key alone.
  pub find-update :
      (k j : String) (guard : Row → Bool) (change : Row → Row) (rows : List Row)
      → ((r : Row) → key (change r) ≡ key r)
      → find j (update k guard change rows)
        ≡ (if k == j then Option.map (updated guard change) (find j rows) else find j rows)
  unfolding find update
  find-update k j guard change [] keyed = ground arith
  find-update k j guard change (r ∷ rows) keyed = ground (
    arith,
    keyed r,
    eq_iff (key r) k,
    eq_iff (key r) j,
    eq_iff k j,
    find-update k j guard change rows keyed,
  )

  -- What a read finds after a row was inserted at the end.
  pub find-append :
      (k : String) (rows : List Row) (r : Row)
      → find k (rows ++ r ∷ [])
        ≡ elim (find k rows) [ none ↦ if key r == k then some r else none | some old ↦ some old ]
  unfolding find
  find-append k [] r = refl
  find-append k (x ∷ rows) r = ground (arith, find-append k rows r)

  -- A row that is found has the key.
  pub key-find : (k : String) (rows : List Row) (r : Row) → find k rows ≡ some r → key r ≡ k
  unfolding find
  key-find k [] r h = absurd (ground arith)
  key-find k (x ∷ rows) r h = ground (arith, eq_iff (key x) k, key-find k rows r)

  -- A keyed update whose guard refuses the row changes nothing.
  pub update_idle :
      (k : String) (guard : Row → Bool) (change : Row → Row) (rows : List Row) (r : Row)
      → find k rows ≡ some r
      → guard r ≡ false
      → update k guard change rows ≡ rows
  unfolding find update
  update_idle k guard change [] r h g = refl
  update_idle k guard change (x ∷ rows) r h g =
      ground (arith, eq_iff (key x) k, update_idle k guard change rows r)

  -- A keyed update of a row that is not there changes nothing.
  pub update_missing :
      (k : String) (guard : Row → Bool) (change : Row → Row) (rows : List Row)
      → find k rows ≡ none
      → update k guard change rows ≡ rows
  unfolding find update
  update_missing k guard change [] h = refl
  update_missing k guard change (x ∷ rows) h = ground (arith, update_missing k guard change rows)

  -- PRIMARY KEY: no two rows have one key.
  abbrev pub KeysUnique : List Row → Type ℓ
  KeysUnique [] = Unit
  KeysUnique (r ∷ rows) = (find (key r) rows ≡ none) × KeysUnique rows

  find-none-update :
      (k j : String) (guard : Row → Bool) (change : Row → Row) (rows : List Row)
      → ((r : Row) → key (change r) ≡ key r)
      → find j rows ≡ none
      → find j (update k guard change rows) ≡ none
  find-none-update k j guard change rows keyed h =
      rw (find-update k j guard change rows keyed) (ground (arith, h))

  pub KeysUnique-update :
      (k : String) (guard : Row → Bool) (change : Row → Row) (rows : List Row)
      → ((r : Row) → key (change r) ≡ key r)
      → KeysUnique rows
      → KeysUnique (update k guard change rows)
  unfolding update
  KeysUnique-update k guard change [] keyed h = tt
  KeysUnique-update k guard change (r ∷ rows) keyed h = ground (
    arith,
    keyed r,
    find-none-update k (key r) guard change rows keyed h.0,
    KeysUnique-update k guard change rows keyed h.1,
  )

  pub KeysUnique-append :
      (rows : List Row) (r : Row)
      → find (key r) rows ≡ none
      → KeysUnique rows
      → KeysUnique (rows ++ r ∷ [])
  unfolding find
  KeysUnique-append [] r fresh h = (refl, tt)
  KeysUnique-append (x ∷ rows) r fresh h = ground (
    arith,
    find-append (key x) rows r,
    eq_iff (key x) (key r),
    eq_iff (key r) (key x),
    KeysUnique-append rows r,
  )
