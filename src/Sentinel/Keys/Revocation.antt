-- ===== src/Sentinel/Keys/Revocation.antt =====
-- A revoked key stays refused: what the methods of packages/sentinel/src/auth/KeyManager.ts do to the
-- rows that are there.
use mcp_suite.Common.{
  ℕ, String, ◌≡◌, ◌∙◌, ap, ◌≢◌, refl, true, Option, none, some, List, [], ◌∷◌, ◌⊎◌, inl, inr, arith,
  eq_iff,
}
use mcp_suite.Effect.{ok}
use mcp_suite.Effect.Respects.{Preorder, Respects, respects_rules}
use mcp_suite.Table.{find, update, find-append, key-find}
use mcp_suite.Sentinel.Keys.{
  VirtualKey, CreateKeyOptions, KeyRow, KeyPlatform, Keys, find_hash, find_id, hash_key,
  to_virtual_key, validate, create, revoke, rotate, list, revoke_row, revoke_rows, insert_key,
  random_bytes, now, validate_row, unless_expired,
}
use mcp_suite.Sentinel.Keys.Validation.{validate_iff}

-- The row that a hash leads to stays, but for its revocation.
pub record KeysEvolve (s t : Keys) : Type 0 where
  pub kept :
      (hash : String) (row : KeyRow)
      → find_hash hash s.rows ≡ some row
      → (later : KeyRow) × (find_hash hash t.rows ≡ some later)
        × ((later ≡ row) ⊎ (later ≡ revoke_row row))

pub settles :
    {row later last : KeyRow}
    → (later ≡ row) ⊎ (later ≡ revoke_row row)
    → (last ≡ later) ⊎ (last ≡ revoke_row later)
    → (last ≡ row) ⊎ (last ≡ revoke_row row)
settles (inl p) (inl q) = inl (q ∙ p)
settles (inl p) (inr q) = inr (q ∙ ap revoke_row p)
settles (inr p) (inl q) = inr (q ∙ p)
settles (inr p) (inr q) = inr (q ∙ ap revoke_row p)

instance abbrev pub KeysEvolve-preorder : Preorder KeysEvolve
KeysEvolve-preorder = record {
  same = λ s. record { kept = λ hash row h. (row, h, inl refl) };
  step = λ s t u p q. record {
    kept = λ hash row h.
        let (later, found, how) = p.kept hash row h in
        let (last, found_last, how_last) = q.kept hash later found in
        (last, found_last, settles how how_last);
  };
}

revoke_rows-kept :
    (id hash : String) (rows : List KeyRow) (row : KeyRow)
    → find_hash hash rows ≡ some row
    → (find_hash hash (revoke_rows id rows) ≡ some row)
      ⊎ (find_hash hash (revoke_rows id rows) ≡ some (revoke_row row))
unfolding revoke_rows find update
revoke_rows-kept id hash [] row h = absurd (ground arith)
revoke_rows-kept id hash (x ∷ rows) row h = ground (arith, revoke_rows-kept id hash rows row)

-- The row that is first by its id and by its hash is the one that is revoked.
revoke_rows_lem :
    (id hash : String) (rows : List KeyRow) (row : KeyRow)
    → find_id id rows ≡ some row
    → find_hash hash rows ≡ some row
    → find_hash hash (revoke_rows id rows) ≡ some (revoke_row row)
unfolding revoke_rows find update
revoke_rows_lem id hash [] row h k = absurd (ground arith)
revoke_rows_lem id hash (x ∷ rows) row h k = ground (
  arith,
  eq_iff x.id id,
  eq_iff row.id id,
  eq_iff row.raw_key_hash hash,
  key-find (λ r. r.id) id rows row,
  key-find (λ r. r.raw_key_hash) hash rows row,
  revoke_rows_lem id hash rows row,
)

module _ (platform : KeyPlatform) where
  rows_unchanged : (s t : Keys) → t.rows ≡ s.rows → KeysEvolve s t
  rows_unchanged s t e = record { kept = λ hash row h. (row, rw e h, inl refl) }

  now-KeysEvolve : Respects KeysEvolve (now platform)
  unfolding now
  now-KeysEvolve = record { at = λ s. rows_unchanged s (now platform s).1 refl }

  random_bytes-KeysEvolve : (n : ℕ) → Respects KeysEvolve (random_bytes platform n)
  unfolding random_bytes
  random_bytes-KeysEvolve n = record {
    at = λ s. rows_unchanged s (random_bytes platform n s).1 refl;
  }

  insert_key-kept :
      (new row : KeyRow) (hash : String) (s : Keys)
      → find_hash hash s.rows ≡ some row
      → find_hash hash (insert_key platform new s).1.rows ≡ some row
  unfolding insert_key
  insert_key-kept new row hash s h =
      ground (arith, h, find-append (λ r. r.raw_key_hash) hash s.rows new)

  insert_key-KeysEvolve : (new : KeyRow) → Respects KeysEvolve (insert_key platform new)
  insert_key-KeysEvolve new = record {
    at = λ s. record { kept = λ hash row h. (row, insert_key-kept new row hash s h, inl refl) };
  }

  revoke_kept :
      (id hash : String) (rows : List KeyRow) (row : KeyRow)
      → (find_hash hash (revoke_rows id rows) ≡ some row)
        ⊎ (find_hash hash (revoke_rows id rows) ≡ some (revoke_row row))
      → (later : KeyRow) × (find_hash hash (revoke_rows id rows) ≡ some later)
        × ((later ≡ row) ⊎ (later ≡ revoke_row row))
  revoke_kept id hash rows row (inl h) = (row, h, inl refl)
  revoke_kept id hash rows row (inr h) = (revoke_row row, h, inr refl)

  revoke-KeysEvolve : (id : String) → Respects KeysEvolve (revoke platform id)
  unfolding revoke
  revoke-KeysEvolve id = record {
    at = λ s. record {
      kept = λ hash row h. revoke_kept id hash s.rows row (revoke_rows-kept id hash s.rows row h);
    };
  }

  create-KeysEvolve : (opts : CreateKeyOptions) → Respects KeysEvolve (create platform opts)
  unfolding create
  create-KeysEvolve opts =
      search (respects_rules, now-KeysEvolve, random_bytes-KeysEvolve, insert_key-KeysEvolve)

  unless_expired-KeysEvolve :
      (key : VirtualKey) (t : Option ℕ) → Respects KeysEvolve (unless_expired platform key t)
  unfolding unless_expired
  unless_expired-KeysEvolve key none = search (respects_rules)
  unless_expired-KeysEvolve key (some t) = search (respects_rules, now-KeysEvolve)

  validate_row-KeysEvolve : (row : Option KeyRow) → Respects KeysEvolve (validate_row platform row)
  unfolding validate_row
  validate_row-KeysEvolve none = search (respects_rules)
  validate_row-KeysEvolve (some row) = search (respects_rules, unless_expired-KeysEvolve)

  validate-KeysEvolve : (raw : String) → Respects KeysEvolve (validate platform raw)
  unfolding validate
  validate-KeysEvolve raw = search (respects_rules, validate_row-KeysEvolve)

  list-KeysEvolve : Respects KeysEvolve (list platform)
  unfolding list
  list-KeysEvolve = search (respects_rules)

  rotate-KeysEvolve : (id : String) → Respects KeysEvolve (rotate platform id)
  unfolding rotate
  rotate-KeysEvolve id = search (respects_rules, revoke-KeysEvolve, create-KeysEvolve) depth 12

  -- A row that is revoked is refused.
  revoked_refuses :
      (s : Keys) (raw : String) (row : KeyRow) (key : VirtualKey)
      → find_hash (hash_key platform raw) s.rows ≡ some row
      → row.is_revoked ≡ true
      → (validate platform raw s).0 ≢ ok (some key)
  unfolding to_virtual_key
  revoked_refuses s raw row key found revoked h =
      let v = (validate_iff platform s raw key).0 h in ground (arith, v.found, v.readable, v.live)

  pub data KeyCall : Type 0 where
    creates : CreateKeyOptions → KeyCall
    revokes rotates validates : String → KeyCall
    lists : KeyCall

  pub step : Keys → KeyCall → Keys
  step s (creates opts) = (create platform opts s).1
  step s (revokes id) = (revoke platform id s).1
  step s (rotates id) = (rotate platform id s).1
  step s (validates raw) = (validate platform raw s).1
  step s lists = (list platform s).1

  pub run : Keys → List KeyCall → Keys
  run s [] = s
  run s (call ∷ calls) = run (step s call) calls

  step-KeysEvolve : (s : Keys) (call : KeyCall) → KeysEvolve s (step s call)
  unfolding step
  step-KeysEvolve s (creates opts) = (create-KeysEvolve opts).at s
  step-KeysEvolve s (revokes id) = (revoke-KeysEvolve id).at s
  step-KeysEvolve s (rotates id) = (rotate-KeysEvolve id).at s
  step-KeysEvolve s (validates raw) = (validate-KeysEvolve raw).at s
  step-KeysEvolve s lists = list-KeysEvolve.at s

  pub run-KeysEvolve : (s : Keys) (calls : List KeyCall) → KeysEvolve s (run s calls)
  unfolding run
  run-KeysEvolve s [] = KeysEvolve-preorder.same s
  run-KeysEvolve s (call ∷ calls) =
      KeysEvolve-preorder.step s (step s call) _ (step-KeysEvolve s call)
        (run-KeysEvolve (step s call) calls)

  still_revoked :
      {row later : KeyRow}
      → (later ≡ row) ⊎ (later ≡ revoke_row row)
      → row.is_revoked ≡ true
      → later.is_revoked ≡ true
  still_revoked (inl e) h = ground (arith, e)
  still_revoked (inr e) h = ground (arith, e)

  -- After `revoke`, the text of the revoked row never validates again, whatever calls follow. The
  -- row is the one that its id and the hash of its text both lead to.
  pub revoke_final :
      (s : Keys) (id raw : String) (row : KeyRow) (calls : List KeyCall) (key : VirtualKey)
      → find_id id s.rows ≡ some row
      → find_hash (hash_key platform raw) s.rows ≡ some row
      → (validate platform raw (run (revoke platform id s).1 calls)).0 ≢ ok (some key)
  unfolding revoke
  revoke_final s id raw row calls key by_id by_hash =
      let t = (revoke platform id s).1 in
      let hash = hash_key platform raw in
      let gone = revoke_rows_lem id hash s.rows row by_id by_hash in
      let (later, found, how) = (run-KeysEvolve t calls).kept hash (revoke_row row) gone in
      revoked_refuses _ raw later key found (still_revoked how refl)
