-- ===== src/Shared/ApiKey/Authorization.antt =====
-- Whom packages/shared/src/auth/ApiKeyMiddleware.ts lets through.
use Prim.Native.Char.{Char, code}
use Prim.Native.String.{◌++◌ as ◌<>◌}
use Prim.Native.String.append
use text.Mathlib.TextEquality.{Char-path}
use mcp_suite.Common.{
  String, ◌≡◌, ◌↔◌, ◌⊎◌, refl, ap, sym, subst, ◌∙◌, true, false, Option, none, some, List, [], ◌∷◌,
  any, arith, Option-cases, Bool-cases, inl, inr, without_prefix, trim, is_empty, or_else, truthy,
  ◌==◌, eq_iff, leb, ◌&&◌,
}
use mcp_suite.Effect.{ok}
use mcp_suite.Shared.ApiKey.{
  ApiKeyMiddleware, ApiKeyPrincipal, HeaderMap, HeaderValue, one, many, raw_header, token_of,
  extract_key, authorize, ensure_scope, has_scope,
}

same_code : (c d : Char) → (leb (code c) (code d) && leb (code d) (code c)) ≡ true → c ≡ d
same_code c d h = Char-path c d (ground arith)

nil_append : (t : String) → "" <> t ≡ t
nil_append t = λ i. append.nil t i

cons_append : (c : Char) (s t : String) → String.◌∷◌ c s <> t ≡ String.◌∷◌ c (s <> t)
cons_append c s t = λ i. append.cons c s t i

without_prefix-append : (p rest : String) → without_prefix p (p <> rest) ≡ some rest
unfolding without_prefix
without_prefix-append String.[] rest = rw (nil_append rest)
without_prefix-append (String.◌∷◌ c p) rest =
    rw (cons_append c p rest) (ground (arith, without_prefix-append p rest))

append-without_prefix : (p v rest : String) → without_prefix p v ≡ some rest → v ≡ p <> rest
unfolding without_prefix
append-without_prefix String.[] v rest h = ground (arith, nil_append rest, h)
append-without_prefix (String.◌∷◌ c p) String.[] rest h = absurd (ground arith)
append-without_prefix (String.◌∷◌ c p) (String.◌∷◌ d v) rest h =
    elim (Bool-cases (leb (code c) (code d) && leb (code d) (code c))) [
      | inr differ ↦ absurd (ground (arith, differ, h))
      | inl same ↦
          let first : c ≡ d = same_code c d same in
          let later : v ≡ p <> rest = append-without_prefix p v rest (ground (arith, same, h)) in
          ap (λ e. String.◌∷◌ e v) (sym first)
          ∙ ap (λ t. String.◌∷◌ c t) later
          ∙ sym (cons_append c p rest)
    ]

not_empty-append : (s rest : String) → is_empty s ≡ false → is_empty (s <> rest) ≡ false
not_empty-append String.[] rest h = absurd (ground arith)
not_empty-append (String.◌∷◌ c s) rest h = rw (cons_append c s rest) refl

not_empty-prefix : (scheme : String) → is_empty (scheme <> " ") ≡ false
not_empty-prefix String.[] = refl
not_empty-prefix (String.◌∷◌ c s) = rw (cons_append c s " ") refl

-- The scope is one of these.
abbrev pub IsListed : String → List String → Type 0
IsListed scope [] = ⊥
IsListed scope (s ∷ scopes) = (s ≡ scope) ⊎ IsListed scope scopes

any-IsListed :
    (scope : String) (scopes : List String)
    → any (λ s. s == scope) scopes ≡ true
    → IsListed scope scopes
any-IsListed scope [] h = absurd (ground arith)
any-IsListed scope (s ∷ scopes) h = elim (Bool-cases (s == scope)) [
  | inl same ↦ inl ((eq_iff s scope).0 same)
  | inr other ↦ inr (any-IsListed scope scopes (ground (arith, other, h)))
]

IsListed-any :
    (scope : String) (scopes : List String)
    → IsListed scope scopes
    → any (λ s. s == scope) scopes ≡ true
IsListed-any scope [] h = absurd h
IsListed-any scope (s ∷ scopes) (inl same) = ground (arith, (eq_iff s scope).1 same)
IsListed-any scope (s ∷ scopes) (inr later) = ground (arith, IsListed-any scope scopes later)

-- The header that the options name, with the first value where it has several. The name is looked up again in
-- lower case where there is nothing under it.
pub record Carries (m : ApiKeyMiddleware) (headers : HeaderMap) (token : String) : Type 0 where
  pub value : HeaderValue
  pub looked_up :
      (headers (m.to_lower_case m.header_name) ≡ some value)
      ⊎ ((headers (m.to_lower_case m.header_name) ≡ none)
          × (headers (m.to_lower_case (m.to_lower_case m.header_name)) ≡ some value))
  pub rest : String
  pub first :
      (value ≡ one ((m.scheme <> " ") <> rest))
      ⊎ ((others : List String) × (value ≡ many (((m.scheme <> " ") <> rest) ∷ others)))
  pub trimmed : token ≡ trim rest
  pub present : is_empty token ≡ false

-- The header carries a key of this principal, who has the scope.
pub record IsAuthorized (m : ApiKeyMiddleware) (headers : HeaderMap) (scope : String)
    (principal : ApiKeyPrincipal) : Type 0 where
  pub token : String
  pub carried : Carries m headers token
  pub known : m.validator token ≡ some principal
  pub scoped : IsListed scope (or_else principal.scopes [])

module _ (m : ApiKeyMiddleware) (headers : HeaderMap) where
  looked :
      (value : HeaderValue)
      → raw_header m headers ≡ some value
      → (headers (m.to_lower_case m.header_name) ≡ some value)
        ⊎ ((headers (m.to_lower_case m.header_name) ≡ none)
            × (headers (m.to_lower_case (m.to_lower_case m.header_name)) ≡ some value))
  looked value h = elim (Option-cases (headers (m.to_lower_case m.header_name))) [
    | inl missing ↦ inr (missing, ground (arith, missing, h))
    | inr (v, there) ↦ inl (ground (arith, there, h))
  ]

  -- What `extractKey` makes of the first value of the header.
  abbrev read : String → Option String
  read value = elim (truthy (some value)) [
    | none ↦ none
    | some v ↦ token_of (without_prefix (m.scheme <> " ") v)
  ]

  read_token :
      (value token : String)
      → read value ≡ some token
      → (rest : String) × (value ≡ (m.scheme <> " ") <> rest)
        × (token ≡ trim rest)
        × (is_empty token ≡ false)
  read_token value token h = elim (Bool-cases (is_empty value)) [
    | inl empty ↦ absurd (ground (arith, empty, h))
    | inr full ↦ elim (Option-cases (without_prefix (m.scheme <> " ") value)) [
      | inl other ↦ absurd (ground (arith, full, other, h))
      | inr (rest, prefixed) ↦ elim (Bool-cases (is_empty (trim rest))) [
        | inl blank ↦ absurd (ground (arith, full, prefixed, blank, h))
        | inr present ↦
            let same : trim rest ≡ token = ground (arith, full, prefixed, present, h) in
            (
              rest,
              append-without_prefix (m.scheme <> " ") value rest prefixed,
              sym same,
              subst (λ t. is_empty t ≡ false) same present,
            )
      ]
    ]
  ]

  token_read :
      (rest token : String)
      → token ≡ trim rest
      → is_empty token ≡ false
      → read ((m.scheme <> " ") <> rest) ≡ some token
  token_read rest token same present =
      let prefix : String = m.scheme <> " " in
      ground (
        arith,
        same,
        present,
        not_empty-append prefix rest (not_empty-prefix m.scheme),
        without_prefix-append prefix rest,
      )

  extracts : (token : String) → extract_key m headers ≡ some token → Carries m headers token
  unfolding extract_key
  extracts token h = elim (Option-cases (raw_header m headers)) [
    | inl missing ↦ absurd (ground (arith, missing, h))
    | inr (one value, found) ↦
        let (rest, starts, same, present) = read_token value token (rw (extract_key, found) at h) in
        record {
          value = one value;
          looked_up = looked (one value) found;
          rest = rest;
          first = inl (ap one starts);
          trimmed = same;
          present = present;
        }
    | inr (many [], found) ↦ absurd (ground (arith, found, h))
    | inr (many (value ∷ others), found) ↦
        let (rest, starts, same, present) = read_token value token (rw (extract_key, found) at h) in
        record {
          value = many (value ∷ others);
          looked_up = looked (many (value ∷ others)) found;
          rest = rest;
          first = inr (others, ap (λ v. many (v ∷ others)) starts);
          trimmed = same;
          present = present;
        }
  ]

  found_header :
      (token : String) → (c : Carries m headers token) → raw_header m headers ≡ some c.value
  found_header token c = elim c.looked_up [
    | inl there ↦ ground (arith, there)
    | inr (missing, there) ↦ ground (arith, missing, there)
  ]

  carried_key : (token : String) → Carries m headers token → extract_key m headers ≡ some token
  unfolding extract_key
  carried_key token c = elim c.first [
    | inl single ↦
        rw (extract_key, found_header token c, single) (token_read c.rest token c.trimmed c.present)
    | inr (others, several) ↦
        rw (extract_key, found_header token c, several)
          (token_read c.rest token c.trimmed c.present)
  ]

module _ (m : ApiKeyMiddleware) (headers : HeaderMap) (scope : String)
    (principal : ApiKeyPrincipal) where
  ensured :
      (token : String)
      → extract_key m headers ≡ some token
      → ensure_scope m headers scope ≡ ok principal
      → (m.validator token ≡ some principal) × (has_scope principal scope ≡ true)
  unfolding ensure_scope authorize
  ensured token carried h = elim (Option-cases (m.validator token)) [
    | inl unknown ↦ absurd (ground arith)
    | inr (p, known) ↦ ground arith
  ]

  ensure_scope-IsAuthorized :
      ensure_scope m headers scope ≡ ok principal → IsAuthorized m headers scope principal
  unfolding ensure_scope authorize
  ensure_scope-IsAuthorized h = elim (Option-cases (extract_key m headers)) [
    | inl missing ↦ absurd (ground arith)
    | inr (token, carried) ↦
        let (known, scoped) = ensured token carried h in
        record {
          token = token;
          carried = extracts m headers token carried;
          known = known;
          scoped = any-IsListed scope (or_else principal.scopes []) scoped;
        }
  ]

  authorized_passes :
      IsAuthorized m headers scope principal → ensure_scope m headers scope ≡ ok principal
  unfolding ensure_scope authorize
  authorized_passes a = ground (
    arith,
    carried_key m headers a.token a.carried,
    a.known,
    IsListed-any scope (or_else principal.scopes []) a.scoped,
  )

  -- `ensureScope` returns a principal exactly when the header carries, behind the scheme and a space, a key
  -- that is not blank and that the validator knows as this principal, and the principal has the scope.
  pub ensure_scope_iff :
      (ensure_scope m headers scope ≡ ok principal) ↔ IsAuthorized m headers scope principal
  ensure_scope_iff = (ensure_scope-IsAuthorized, authorized_passes)
