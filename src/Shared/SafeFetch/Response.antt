-- ===== src/Shared/SafeFetch/Response.antt =====
-- The responses of packages/shared/src/security/safeFetch.ts: redirects, content types, and the body
-- that is read up to a limit.
use mcp_suite.Common.{
  ℕ, ◌+◌, String, Bool, false, ◌&&◌, Option, none, some, List, [], ◌∷◌, ◌++◌, map, length, leb, ltb,
  if◌then◌else◌, any, contains, trim, before_char, truthy,
}
use mcp_suite.Effect.{Result, ok, err, Exec, pure, raise, modify, ◌>>◌}
use mcp_suite.Shared.UrlPolicy.{Resolution}
use mcp_suite.Shared.SafeFetch.{
  FetchError, RequestState, FetchPlatform, content_type_not_allowed, response_too_large, timed_out,
  foreign,
}

-- What the iterator of a body gives, chunk by chunk: its end, a chunk, a rejection, or the abort of the
-- signal before or while the next chunk is awaited.
pub data Stream : Type 0 where
  done : Stream
  chunk : List ℕ → Stream → Stream
  broken : Stream
  aborted : Stream

-- `header` is `headers.get`, of the name in lower case.
pub record Response : Type 0 where
  pub status : ℕ
  pub status_text : String
  pub is_success : Bool
  pub header : String → Option String
  pub body : Option Stream

-- A call of `fetch`: where it goes, to which addresses its socket is pinned, and what it carries.
pub record Sent : Type 0 where
  pub target : Resolution
  pub request : RequestState

-- What a run does to the world outside.
pub data Event : Type 0 where
  sent : Sent → Event
  destroyed : Event

pub record FetchState : Type 0 where
  pub request : RequestState
  pub events : List Event

abbrev pub Fetching : Type 0 → Type 0
Fetching A = Exec FetchState FetchError A

abbrev pub emit : Event → Fetching Unit
emit event = modify (λ s. record s { events = s.events ++ event ∷ [] })

-- `destroyResponseBody`: a response without a body has nothing to destroy.
abbrev pub destroy_response_body : Response → Fetching Unit
destroy_response_body response = elim response.body [
  | none ↦ pure tt
  | some stream ↦ emit destroyed
]

abbrev pub is_redirect : ℕ → Bool
is_redirect status = any (λ n. leb n status && leb status n) (301 ∷ 302 ∷ 303 ∷ 307 ∷ 308 ∷ [])

module _ (platform : FetchPlatform) where
  -- The type of a response, without its parameters; 59 is the semicolon.
  abbrev pub content_type : Response → Option String
  content_type response = elim (response.header "content-type") [
    | none ↦ none
    | some value ↦ truthy (some (platform.urls.to_lower_case (trim (before_char 59 value))))
  ]

  abbrev pub is_allowed_type : List String → Option String → Bool
  is_allowed_type allowed none = false
  is_allowed_type allowed (some t) =
      contains (map (λ value. platform.urls.to_lower_case (trim value)) allowed) t

  unfoldable pub assert_allowed_content_type : Response → Option (List String) → Fetching Unit
  assert_allowed_content_type response none = pure tt
  assert_allowed_content_type response (some []) = pure tt
  assert_allowed_content_type response (some (value ∷ values)) =
      if is_allowed_type (value ∷ values) (content_type response)
      then pure tt
      else (do destroy_response_body response; raise content_type_not_allowed)

  -- The loop of `readLimitedResponseBody`, with the bytes read so far.
  unfoldable pub read_chunks : ℕ → List ℕ → Stream → Result FetchError (List ℕ)
  read_chunks limit read done = ok read
  read_chunks limit read (chunk bs rest) =
      if ltb limit (length read + length bs)
      then err response_too_large
      else read_chunks limit (read ++ bs) rest
  read_chunks limit read broken = err foreign
  read_chunks limit read aborted = err timed_out

  abbrev pub declares_too_much : Response → ℕ → Bool
  declares_too_much response limit = elim (truthy (response.header "content-length")) [
    | none ↦ false
    | some declared ↦ platform.exceeds declared limit
  ]

  -- A body whose reading throws is destroyed.
  abbrev pub read_or_destroy : Response → Result FetchError (List ℕ) → Fetching String
  read_or_destroy response (ok read) = pure (platform.decode read)
  read_or_destroy response (err e) = do destroy_response_body response; raise e

  abbrev pub read_body : Response → ℕ → Option Stream → Fetching String
  read_body response limit none = pure ""
  read_body response limit (some stream) = read_or_destroy response (read_chunks limit [] stream)

  unfoldable pub read_limited_response_body : Response → ℕ → Fetching String
  read_limited_response_body response limit =
      if declares_too_much response limit
      then (do destroy_response_body response; raise response_too_large)
      else read_body response limit response.body
