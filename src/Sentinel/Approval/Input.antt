-- ===== src/Sentinel/Approval/Input.antt =====
-- The checks and hashes of packages/sentinel/src/approval/ApprovalStore.ts that read no table.
use Prim.Native.Nat.{min}
use Prim.Native.String.{◌++◌ as ◌<>◌}
use mcp_suite.Common.{
  ℕ, ◌+◌, String, not, ◌||◌, Option, none, some, List, [], ◌∷◌, map, leb, ltb, if◌then◌else◌,
  is_empty, truthy, trim, utf16_length, length, keep_if, distinct,
}
use mcp_suite.Effect.{Result, ok, err, raise, pure, lift, ◌>>=◌}
use mcp_suite.Json.{Json, null, str, arr, obj, field, end, texts, canonicalize, sort_texts}
use mcp_suite.Json
use mcp_suite.Sentinel.Request.{ToolCallRequest, to_json}
use mcp_suite.Sentinel.Approval.Model.{
  invalid_capability, invalid_request, Error, transition, CreateApprovalRequest, NormalizedRequest,
  Env, Action, refuse,
}

unfoldable pub normalize_identifier : String → ℕ → Result Error String
normalize_identifier value maximum =
    let normalized = trim value in
    if is_empty normalized || ltb maximum (utf16_length normalized)
    then refuse invalid_request
    else ok normalized

-- `channels.map(trim).filter(Boolean)` without repetitions.
unfoldable pub normalize_channels : List String → List String
normalize_channels channels = distinct (keep_if (λ c. not (is_empty c)) (map trim channels))

-- `safeStringArray` of what `JSON.parse` made of the text.
strings_of : Json.Items → Option (List String)
strings_of Json.nil = some []
strings_of (Json.cons (str s) rest) = elim (strings_of rest) [
  | none ↦ none
  | some ss ↦ some (s ∷ ss)
]
strings_of (Json.cons _ rest) = none

unfoldable pub safe_string_array : Option Json → List String
unfolding strings_of
safe_string_array (some (arr items)) = elim (strings_of items) [ none ↦ [] | some ss ↦ ss ]
safe_string_array _ = []

module _ (env : Env) where
  unfoldable pub now : Action ℕ
  now s = (ok (env.clock s.clock_reads), record s { clock_reads = s.clock_reads + 1 })

  unfoldable pub hash_capability : String → Result Error String
  hash_capability raw =
      if ltb (utf16_length raw) 8 then refuse invalid_capability else ok (env.sha256 raw)

  unfoldable pub hash_idempotency_key : String → String → String
  hash_idempotency_key requester raw_key = env.sha256 (requester <> "\0" <> raw_key)

  unfoldable pub stable_json : Json → String
  stable_json value = env.stringify (canonicalize env.locale_le value)

  iso_or_null : Option ℕ → Json
  iso_or_null none = null
  iso_or_null (some t) = str (env.to_iso_string t)

  -- The input of `hashApprovalRequest`, as the object that it hashes.
  fingerprint_input : String → String → ToolCallRequest → List String → Option ℕ → Json
  unfolding iso_or_null
  fingerprint_input requester approver request channels upstream = obj (
      field "requesterPrincipalId" (str requester) (
        field "approverPrincipalId" (str approver) (
          field "request" (to_json request) (
            field "channels" (arr (texts (sort_texts env.locale_le channels)))
              (field "upstreamExpiresAt" (iso_or_null upstream) end)))))

  unfoldable pub hash_approval_request :
      String → String → ToolCallRequest → List String → Option ℕ → String
  unfolding stable_json fingerprint_input
  hash_approval_request requester approver request channels upstream =
      env.sha256 (stable_json (fingerprint_input requester approver request channels upstream))

  -- The second operand of `||` reads the clock only where the first is false.
  unfoldable pub require_future : Option ℕ → Action ℕ
  unfolding now
  require_future none = raise (transition invalid_request)
  require_future (some t) = do
    at ← now
    if leb t at then raise (transition invalid_request) else pure t

  unfoldable pub require_valid : Option (Option ℕ) → Action (Option ℕ)
  require_valid none = pure none
  require_valid (some none) = raise (transition invalid_request)
  require_valid (some (some t)) = pure (some t)

  abbrev pub effective_expiry : ℕ → Option ℕ → ℕ
  effective_expiry t none = t
  effective_expiry t (some u) = min t u

  unfoldable pub normalize_key : Option String → Result Error (Option String)
  normalize_key none = ok none
  normalize_key (some key) = elim (normalize_identifier key 512) [
    | ok normalized ↦ ok (some normalized)
    | err e ↦ err e
  ]

  unfoldable pub normalize_create_input : CreateApprovalRequest → Action NormalizedRequest
  unfolding now require_future require_valid normalize_key
  normalize_create_input input = do
    requester ← lift (normalize_identifier input.requester_principal_id 200)
    approver ← lift (normalize_identifier input.approver_principal_id 200)
    let channels = normalize_channels input.channels
    if leb (length channels) 0 then raise (transition invalid_request) else do
      expires_at ← require_future input.expires_at
      upstream ← require_valid input.upstream_expires_at
      let effective = effective_expiry expires_at upstream
      at ← now
      if leb effective at then raise (transition invalid_request) else do
        key ← lift (normalize_key (truthy input.idempotency_key))
        pure (record {
          requester_principal_id = requester;
          approver_principal_id = approver;
          request = input.request;
          channels = channels;
          expires_at = effective;
          upstream_expires_at = upstream;
          idempotency_key = key;
        })
