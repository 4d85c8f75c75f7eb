-- ===== src/Sentinel/Keys.antt =====
-- packages/sentinel/src/auth/KeyManager.ts: virtual keys, stored by the hash of their text. A `Date` is
-- its time in milliseconds.
pub mod Validation
pub mod Revocation
mod Examples
use Prim.Native.String.{◌++◌ as ◌<>◌}
use mcp_suite.Common.{
  ℕ, ◌+◌, String, Bool, true, false, Option, none, some, List, [], ◌∷◌, ◌++◌, ltb, leb, length,
  if◌then◌else◌, is_some, or_else,
}
use mcp_suite.Effect.{
  Result, ok, err, Exec, pure, raise, lift, gets, modify, require_some, ◌>>=◌, ◌>>◌,
}
use mcp_suite.Table.{find, update}

pub record VirtualKey : Type 0 where
  pub id : String
  pub name : String
  pub tags : List String
  pub created_at : ℕ
  pub expires_at : Option ℕ
  pub rate_limit : Option ℕ
  pub allowed_tools : Option (List String)
  pub raw_key : Option String
  pub is_revoked : Bool

pub record CreateKeyOptions : Type 0 where
  pub name : String
  pub tags : Option (List String)
  pub expires_at : Option ℕ
  pub rate_limit : Option ℕ
  pub allowed_tools : Option (List String)

-- A row of `virtual_keys`.
pub record KeyRow : Type 0 where
  pub id : String
  pub name : String
  pub raw_key_hash : String
  pub tags : String
  pub created_at : ℕ
  pub expires_at : Option ℕ
  pub rate_limit_rpm : Option ℕ
  pub allowed_tools : String
  pub is_revoked : Bool

-- SQLite's refusal of a row, the plain `Error` of `rotate`, and the `SyntaxError` of `JSON.parse`.
pub data KeyError : Type 0 where
  constraint key_not_found malformed : KeyError

-- The platform: the n-th time of the clock, the n-th draw of that many random bytes in hexadecimal,
-- SHA-256 in hexadecimal, and the JSON text of a list of strings.
pub record KeyPlatform : Type 0 where
  pub clock : ℕ → ℕ
  pub random_hex : ℕ → ℕ → String
  pub sha256 : String → String
  pub print_texts : List String → String
  pub parse_texts : String → Option (List String)

-- The table, oldest row first, and how often the clock and `randomBytes` were called.
pub record Keys : Type 0 where
  pub rows : List KeyRow
  pub clock_reads : ℕ
  pub draws : ℕ

abbrev pub KeyAction : Type 0 → Type 0
KeyAction A = Exec Keys KeyError A

pub record Rotation : Type 0 where
  pub old_key : VirtualKey
  pub new_key : VirtualKey

-- SELECT * FROM virtual_keys WHERE raw_key_hash = ? LIMIT 1
abbrev pub find_hash : String → List KeyRow → Option KeyRow
find_hash = find (λ r. r.raw_key_hash)

abbrev pub find_id : String → List KeyRow → Option KeyRow
find_id = find (λ r. r.id)

-- UPDATE virtual_keys SET is_revoked = 1 WHERE id = ?
abbrev pub revoke_row : KeyRow → KeyRow
revoke_row r = record r { is_revoked = true }

unfoldable pub revoke_rows : String → List KeyRow → List KeyRow
revoke_rows id rows = update (λ r. r.id) id (λ r. true) revoke_row rows

unfoldable pub insert_newest : KeyRow → List KeyRow → List KeyRow
insert_newest r [] = r ∷ []
insert_newest r (x ∷ xs) =
    if leb x.created_at r.created_at then r ∷ x ∷ xs else x ∷ insert_newest r xs

-- ORDER BY created_at DESC
unfoldable pub newest_first : List KeyRow → List KeyRow
unfolding insert_newest
newest_first [] = []
newest_first (x ∷ xs) = insert_newest x (newest_first xs)

-- `...(allowedTools.length > 0 ? { allowedTools } : {})`
abbrev pub non_empty : List String → Option (List String)
non_empty [] = none
non_empty (x ∷ xs) = some (x ∷ xs)

abbrev pub new_key : CreateKeyOptions → String → String → ℕ → VirtualKey
new_key opts id raw_key at = record {
  id = id;
  name = opts.name;
  tags = or_else opts.tags [];
  created_at = at;
  expires_at = opts.expires_at;
  rate_limit = opts.rate_limit;
  allowed_tools = opts.allowed_tools;
  raw_key = some raw_key;
  is_revoked = false;
}

abbrev pub key_text : String → String
key_text hex = "mcp_" <> hex

module _ (platform : KeyPlatform) where
  unfoldable pub now : KeyAction ℕ
  now s = (ok (platform.clock s.clock_reads), record s { clock_reads = s.clock_reads + 1 })

  unfoldable pub random_bytes : ℕ → KeyAction String
  random_bytes n s = (ok (platform.random_hex s.draws n), record s { draws = s.draws + 1 })

  abbrev pub hash_key : String → String
  hash_key raw_key = platform.sha256 raw_key

  unfoldable pub to_virtual_key : KeyRow → Result KeyError VirtualKey
  to_virtual_key row = elim (platform.parse_texts row.allowed_tools) [
    | none ↦ err malformed
    | some allowed_tools ↦ elim (platform.parse_texts row.tags) [
      | none ↦ err malformed
      | some tags ↦ ok (record {
        id = row.id;
        name = row.name;
        tags = tags;
        created_at = row.created_at;
        expires_at = row.expires_at;
        rate_limit = row.rate_limit_rpm;
        allowed_tools = non_empty allowed_tools;
        raw_key = none;
        is_revoked = row.is_revoked;
      })
    ]
  ]

  -- The row that `create` inserts for a key, and for the text of the key.
  abbrev pub row_of : VirtualKey → String → KeyRow
  row_of key raw_key = record {
    id = key.id;
    name = key.name;
    raw_key_hash = hash_key raw_key;
    tags = platform.print_texts key.tags;
    created_at = key.created_at;
    expires_at = key.expires_at;
    rate_limit_rpm = key.rate_limit;
    allowed_tools = platform.print_texts (or_else key.allowed_tools []);
    is_revoked = false;
  }

  unfoldable pub insert_key : KeyRow → KeyAction Unit
  insert_key row s =
      if is_some (find_id row.id s.rows)
      then (err constraint, s)
      else (ok tt, record s { rows = s.rows ++ row ∷ [] })

  unfoldable pub create : CreateKeyOptions → KeyAction VirtualKey
  create opts = do
    id ← random_bytes 8
    hex ← random_bytes 24
    at ← now
    insert_key (row_of (new_key opts id (key_text hex) at) (key_text hex))
    pure (new_key opts id (key_text hex) at)

  unfoldable pub revoke : String → KeyAction Unit
  revoke id = modify (λ s. record s { rows = revoke_rows id s.rows })

  to_virtual_keys : List KeyRow → Result KeyError (List VirtualKey)
  to_virtual_keys [] = ok []
  to_virtual_keys (row ∷ rows) = elim (to_virtual_key row) [
    | err e ↦ err e
    | ok key ↦ elim (to_virtual_keys rows) [ err e ↦ err e | ok keys ↦ ok (key ∷ keys) ]
  ]

  unfoldable pub list : KeyAction (List VirtualKey)
  unfolding newest_first to_virtual_keys
  list = do rows ← gets (λ s. newest_first s.rows); lift (to_virtual_keys rows)

  -- What `validate` makes of a stored key that is not revoked: the clock is read only for a key
  -- with an expiry.
  unfoldable pub unless_expired : VirtualKey → Option ℕ → KeyAction (Option VirtualKey)
  unless_expired key none = pure (some key)
  unless_expired key (some t) = do at ← now; if ltb t at then pure none else pure (some key)

  unfoldable pub validate_row : Option KeyRow → KeyAction (Option VirtualKey)
  validate_row none = pure none
  validate_row (some row) = do
    key ← lift (to_virtual_key row)
    if key.is_revoked then pure none else unless_expired key key.expires_at

  unfoldable pub validate : String → KeyAction (Option VirtualKey)
  validate raw_key = do row ← gets (λ s. find_hash (hash_key raw_key) s.rows); validate_row row

  unfoldable pub rotate : String → KeyAction Rotation
  rotate id = do
    row ← gets (λ s. find_id id s.rows)
    existing ← require_some row key_not_found
    old_key ← lift (to_virtual_key existing)
    revoke id
    key ← create (record {
      name = old_key.name;
      tags = some old_key.tags;
      expires_at = old_key.expires_at;
      rate_limit = old_key.rate_limit;
      allowed_tools = old_key.allowed_tools;
    })
    pure (record { old_key = old_key; new_key = key })
