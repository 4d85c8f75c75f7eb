-- ===== src/Sentinel/Keys/Validation.antt =====
-- Which texts `validate` of packages/sentinel/src/auth/KeyManager.ts accepts, and that it accepts the
-- text of a key just made.
use mcp_suite.Common.{
  ℕ, ◌+◌, String, ◌≡◌, ◌∙◌, ap, subst, ◌↔◌, Bool, false, Option, none, some, List, [], ◌∷◌, ◌++◌,
  arith, eq_iff, ltb, Option-cases, inl, inr, or_else,
}
use mcp_suite.Effect.{Result-cases, ok, ◌>>=◌}
use mcp_suite.Table.{find-append}
use mcp_suite.Sentinel.Keys.{
  VirtualKey, CreateKeyOptions, KeyRow, KeyPlatform, Keys, find_hash, hash_key, to_virtual_key,
  validate, create, non_empty, row_of, new_key, key_text, insert_key, random_bytes, now,
  validate_row, unless_expired,
}

abbrev pub has_expired : Option ℕ → ℕ → Bool
has_expired none at = false
has_expired (some t) at = ltb t at

module _ (platform : KeyPlatform) where
  -- Why a stored key is accepted at this time.
  pub record IsValidFor (s : Keys) (raw : String) (key : VirtualKey) : Type 0 where
    pub row : KeyRow
    pub found : find_hash (hash_key platform raw) s.rows ≡ some row
    pub readable : to_virtual_key platform row ≡ ok key
    pub live : key.is_revoked ≡ false
    pub in_time : has_expired key.expires_at (platform.clock s.clock_reads) ≡ false

  accepts :
      (s : Keys) (raw : String) (key : VirtualKey)
      → IsValidFor s raw key
      → (validate platform raw s).0 ≡ ok (some key)
  unfolding validate validate_row unless_expired now ◌>>=◌
  accepts s raw key v = elim (Option-cases key.expires_at) [
    | inl never ↦ ground (arith, v.found, v.readable, v.live, v.in_time)
    | inr (t, at) ↦ ground (arith, v.found, v.readable, v.live, v.in_time)
  ]

  accepted_row :
      (s : Keys) (raw : String) (key k : VirtualKey) (row : KeyRow)
      → find_hash (hash_key platform raw) s.rows ≡ some row
      → to_virtual_key platform row ≡ ok k
      → (validate platform raw s).0 ≡ ok (some key)
      → (k ≡ key)
        × (k.is_revoked ≡ false)
        × (has_expired k.expires_at (platform.clock s.clock_reads) ≡ false)
  unfolding validate validate_row unless_expired now ◌>>=◌
  accepted_row s raw key k row found readable h = elim (Option-cases k.expires_at) [
    | inl never ↦ ground arith
    | inr (t, at) ↦ ground arith
  ]

  accepted :
      (s : Keys) (raw : String) (key : VirtualKey)
      → (validate platform raw s).0 ≡ ok (some key)
      → IsValidFor s raw key
  unfolding validate validate_row ◌>>=◌
  accepted s raw key h = elim (Option-cases (find_hash (hash_key platform raw) s.rows)) [
    | inl missing ↦ absurd (ground arith)
    | inr (row, found) ↦ elim (Result-cases (to_virtual_key platform row)) [
      | inr (e, bad) ↦ absurd (ground arith)
      | inl (k, readable) ↦
          let (same, live, in_time) = accepted_row s raw key k row found readable h in
          record {
            row = row;
            found = found;
            readable = readable ∙ ap ok same;
            live = subst (λ x. x.is_revoked ≡ false) same live;
            in_time =
                subst (λ x. has_expired x.expires_at (platform.clock s.clock_reads) ≡ false) same
                  in_time;
          }
    ]
  ]

  -- `validate` returns a key exactly when a row has the hash of the text, the row reads as this
  -- key, and the key is neither revoked nor past its expiry.
  pub validate_iff :
      (s : Keys) (raw : String) (key : VirtualKey)
      → ((validate platform raw s).0 ≡ ok (some key)) ↔ IsValidFor s raw key
  validate_iff s raw key = (accepted s raw key, accepts s raw key)

  -- A key as `validate` reads it back: without its text, and without an empty list of tools.
  abbrev pub stored_key : VirtualKey → VirtualKey
  stored_key key = record key {
    raw_key = none;
    allowed_tools = non_empty (or_else key.allowed_tools []);
  }

  readable_row :
      (key : VirtualKey) (raw : String)
      → ((texts : List String) → platform.parse_texts (platform.print_texts texts) ≡ some texts)
      → key.is_revoked ≡ false
      → to_virtual_key platform (row_of platform key raw) ≡ ok (stored_key key)
  unfolding to_virtual_key
  readable_row key raw round live =
      ground (arith, round (or_else key.allowed_tools []), round key.tags)

  -- What a successful `create` returns and stores.
  pub create_lem :
      (s : Keys) (opts : CreateKeyOptions) (key : VirtualKey) (t : Keys)
      → create platform opts s ≡ (ok key, t)
      → (key
          ≡ new_key opts
              (platform.random_hex s.draws 8)
              (key_text (platform.random_hex (s.draws + 1) 24))
              (platform.clock s.clock_reads))
        × (t.rows
            ≡ s.rows ++ row_of platform key (key_text (platform.random_hex (s.draws + 1) 24)) ∷ [])
        × (t.clock_reads ≡ s.clock_reads + 1)
  unfolding create random_bytes now insert_key ◌>>=◌
  create_lem s opts key t h = ground arith

  -- The text of a key that `create` made validates until the key expires or is revoked: as this key,
  -- read back from the table. Its hash is new, and the JSON text of a list of strings reads back.
  pub create_validates :
      (s t : Keys) (opts : CreateKeyOptions) (key : VirtualKey) (raw : String)
      → ((texts : List String) → platform.parse_texts (platform.print_texts texts) ≡ some texts)
      → create platform opts s ≡ (ok key, t)
      → key.raw_key ≡ some raw
      → find_hash (hash_key platform raw) s.rows ≡ none
      → has_expired opts.expires_at (platform.clock t.clock_reads) ≡ false
      → (validate platform raw t).0 ≡ ok (some (stored_key key))
  create_validates s t opts key raw round h text fresh early =
      let (made, stored, reads) = create_lem s opts key t h in
      let is_raw : key_text (platform.random_hex (s.draws + 1) 24) ≡ raw = ground (arith, made) in
      let rows : t.rows ≡ s.rows ++ row_of platform key raw ∷ [] = rw is_raw at stored in
      accepts t raw (stored_key key) (record {
        row = row_of platform key raw;
        found = ground (
          arith,
          rows,
          fresh,
          find-append (λ r. r.raw_key_hash) (hash_key platform raw) s.rows
              (row_of platform key raw),
          eq_iff (hash_key platform raw) (hash_key platform raw),
        );
        readable = readable_row key raw round (ground (arith, made));
        live = ground (arith, made);
        in_time = ground (arith, made, early);
      })
