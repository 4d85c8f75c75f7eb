-- ===== src/Sentinel/Pipeline/RateLimit.antt =====
-- The sliding window of RateLimitMiddleware in packages/sentinel/src/proxy/RequestPipeline.ts.
use mcp_suite.Common.{
  ℕ, ◌+◌, ◌-◌, ◌≤◌, ◌<◌, String, ◌≡◌, refl, Bool, true, false, ◌&&◌, Option, none, some, List, [],
  ◌∷◌, ◌++◌, arith, leb, All, ◌==◌, length, length-append, keep_if, if◌then◌else◌, or_else, eq_iff,
  Bool-cases, inl, inr,
}
use mcp_suite.Effect.{Result, ok, err, ◌>>=◌}
use mcp_suite.Sentinel.Request.{ToolCallRequest}
use mcp_suite.Sentinel.Keys.{VirtualKey}
use mcp_suite.Sentinel.Pipeline.{
  now, with_limit, rate_limit, Limiter, Decision, limited, recent_times,
}

keep_if-append {ℓ} :
    {A : Type ℓ} (p : A → Bool) (xs ys : List A)
    → keep_if p (xs ++ ys) ≡ keep_if p xs ++ keep_if p ys
keep_if-append p [] ys = refl
keep_if-append p (x ∷ xs) ys = ground (arith, keep_if-append p xs ys)

-- The members that are no earlier than a later bound survive the earlier one.
keep_if_later :
    (lo b : ℕ) (xs : List ℕ)
    → lo ≤ b
    → keep_if (λ t. leb b t) (keep_if (λ t. leb lo t) xs) ≡ keep_if (λ t. leb b t) xs
keep_if_later lo b [] h = refl
keep_if_later lo b (x ∷ xs) h = ground (arith, keep_if_later lo b xs h)

-- The times in a closed minute that starts at `w`.
abbrev pub within_minute : ℕ → List ℕ → List ℕ
within_minute w = keep_if (λ t. leb w t && leb t (w + 60000))

within_minute_recent :
    (w lo : ℕ) (xs : List ℕ)
    → lo ≤ w
    → length (within_minute w xs) ≤ length (keep_if (λ t. leb lo t) xs)
within_minute_recent w lo [] h = omega arith
within_minute_recent w lo (x ∷ xs) h = ground (arith, within_minute_recent w lo xs h)

abbrev pub is_admitted : Result String (Option Decision) → Bool
is_admitted (ok none) = true
is_admitted (ok (some d)) = false
is_admitted (err e) = false

module _ (id : String) (limit : ℕ) where
  -- What the limiter keeps agrees with the log in the minute before `last`.
  record IsPaced (s : Limiter) (log : List ℕ) (last : ℕ) : Type 0 where
    agrees :
        (b : ℕ)
        → last - 60000 ≤ b
        → keep_if (λ t. leb b t) (or_else (s.request_times id) []) ≡ keep_if (λ t. leb b t) log
    bounded : (w : ℕ) → length (within_minute w log) ≤ limit

  kept_times :
      (s : Limiter) (t : ℕ)
      → or_else ((limited id limit t s).1.request_times id) [] ≡ (
          if is_admitted (limited id limit t s).0
          then recent_times t (or_else (s.request_times id) []) ++ t ∷ []
          else recent_times t (or_else (s.request_times id) []))
  unfolding limited
  kept_times s t = ground (arith, eq_iff id id)

  admitted_room :
      (s : Limiter) (t : ℕ)
      → is_admitted (limited id limit t s).0 ≡ true
      → length (recent_times t (or_else (s.request_times id) [])) < limit
  unfolding limited
  admitted_room s t h = ground arith

  log_grows :
      (s : Limiter) (log : List ℕ) (last t : ℕ)
      → IsPaced s log last
      → last ≤ t
      → is_admitted (limited id limit t s).0 ≡ true
      → (w : ℕ) → length (within_minute w (log ++ t ∷ [])) ≤ limit
  log_grows s log last t p later room w =
      let recent = p.agrees (t - 60000) (omega arith) in
      let few = admitted_room s t room in
      elim (Bool-cases (leb w t && leb t (w + 60000))) [
        | inl inside ↦ ground (
          arith,
          keep_if-append (λ x. leb w x && leb x (w + 60000)) log (t ∷ []),
          within_minute_recent w (t - 60000) log,
          length-append (within_minute w log) (t ∷ []),
        )
        | inr outside ↦ ground (
          arith,
          keep_if-append (λ x. leb w x && leb x (w + 60000)) log (t ∷ []),
          p.bounded w,
          length-append (within_minute w log) [],
        )
      ]

  paced_agrees :
      (s : Limiter) (log : List ℕ) (last t b : ℕ)
      → IsPaced s log last
      → last ≤ t
      → t - 60000 ≤ b
      → keep_if (λ x. leb b x) (recent_times t (or_else (s.request_times id) []))
        ≡ keep_if (λ x. leb b x) log
  paced_agrees s log last t b p later h =
      rw (keep_if_later (t - 60000) b (or_else (s.request_times id) []) h)
        (p.agrees b (omega arith))

  limited-IsPaced :
      (s : Limiter) (log : List ℕ) (last t : ℕ)
      → IsPaced s log last
      → last ≤ t
      → IsPaced
          (limited id limit t s).1
          (if is_admitted (limited id limit t s).0 then log ++ t ∷ [] else log)
          t
  limited-IsPaced s log last t p later = elim (Bool-cases (is_admitted (limited id limit t s).0)) [
    | inl room ↦ record {
      agrees = λ b h.
          rw (kept_times s t, room)
            (ground (
              arith,
              keep_if-append (λ x. leb b x) (recent_times t (or_else (s.request_times id) []))
                  (t ∷ []),
              keep_if-append (λ x. leb b x) log (t ∷ []),
              paced_agrees s log last t b p later h,
            ));
      bounded = λ w. rw room (log_grows s log last t p later room w);
    }
    | inr full ↦ record {
      agrees = λ b h. rw (kept_times s t, full) (paced_agrees s log last t b p later h);
      bounded = λ w. rw full (p.bounded w);
    }
  ]

  clock_reads-limited : (t : ℕ) (s : Limiter) → (limited id limit t s).1.clock_reads ≡ s.clock_reads
  unfolding limited
  clock_reads-limited t s = ground arith

  limited_apart :
      (other : String) (t : ℕ) (s : Limiter)
      → (id == other) ≡ false
      → (limited id limit t s).1.request_times other ≡ s.request_times other
  unfolding limited
  limited_apart other t s apart = ground (arith, apart)

  -- What is kept for this key is all that counts.
  same_times-IsPaced :
      (s t : Limiter) (log : List ℕ) (last : ℕ)
      → t.request_times id ≡ s.request_times id
      → IsPaced s log last
      → IsPaced t log last
  same_times-IsPaced s t log last same p = record {
    agrees = λ b h. ground (arith, same, p.agrees b h);
    bounded = p.bounded;
  }

module _ (clock : ℕ → ℕ) (id : String) (limit : ℕ) where
  -- The times at which the requests of the key with this id get through, after those in the log, in a
  -- sequence of requests of any keys.
  unfoldable pub admitted : Limiter → List ℕ → List (ToolCallRequest × VirtualKey) → List ℕ
  admitted s log [] = log
  admitted s log ((req, key) ∷ rest) =
      admitted (rate_limit clock req key s).1
        (if key.id == id && is_admitted (rate_limit clock req key s).0
          then log ++ clock s.clock_reads ∷ []
          else log)
        rest

  -- Every request with this id has this limit.
  abbrev pub HaveLimit : List (ToolCallRequest × VirtualKey) → Type 0
  HaveLimit = All (λ arrival. (arrival.1.id == id) ≡ true → arrival.1.rate_limit ≡ some limit)

  -- The limiter at the latest time that the clock showed.
  record Paced (s : Limiter) (log : List ℕ) : Type 0 where
    last : ℕ
    shown : last ≤ clock s.clock_reads
    paced : IsPaced id limit s log last

  own-Paced :
      (req : ToolCallRequest) (key : VirtualKey) (s : Limiter) (log : List ℕ)
      → ((n : ℕ) → clock n ≤ clock (n + 1))
      → 0 < limit
      → key.id ≡ id
      → key.rate_limit ≡ some limit
      → Paced s log
      → Paced (rate_limit clock req key s).1 (
          if is_admitted (rate_limit clock req key s).0
          then log ++ clock s.clock_reads ∷ []
          else log)
  unfolding rate_limit now ◌>>=◌
  own-Paced req key s log forward positive own limits p =
      let read : Limiter = record s { clock_reads = s.clock_reads + 1 } in
      elim (Bool-cases (leb limit 0)) [
        | inl nothing ↦ absurd (ground arith)
        | inr some_limit ↦
            rw (limits, own, some_limit)
              (record {
                last = clock s.clock_reads;
                shown =
                    rw (clock_reads-limited id limit (clock s.clock_reads) read)
                      (forward s.clock_reads);
                paced =
                    limited-IsPaced id limit read log p.last (clock s.clock_reads)
                      (same_times-IsPaced id limit s read log p.last refl p.paced) p.shown;
              })
      ]

  -- A request of another key leaves the times of this one, and no clock runs back.
  other_key :
      (other : String) (rate : Option ℕ) (s : Limiter)
      → ((n : ℕ) → clock n ≤ clock (n + 1))
      → (other == id) ≡ false
      → ((with_limit clock other rate s).1.request_times id ≡ s.request_times id)
        × (clock s.clock_reads ≤ clock (with_limit clock other rate s).1.clock_reads)
  unfolding now ◌>>=◌
  other_key other none s forward apart = (refl, omega arith)
  other_key other (some most) s forward apart = elim (Bool-cases (leb most 0)) [
    | inl nothing ↦ rw nothing (refl, omega arith)
    | inr positive ↦
        let read : Limiter = record s { clock_reads = s.clock_reads + 1 } in
        let t : ℕ = clock s.clock_reads in
        rw positive (
          limited_apart other most id t read apart,
          rw (clock_reads-limited other most t read) (forward s.clock_reads),
        )
  ]

  other-Paced :
      (req : ToolCallRequest) (key : VirtualKey) (s : Limiter) (log : List ℕ)
      → ((n : ℕ) → clock n ≤ clock (n + 1))
      → (key.id == id) ≡ false
      → Paced s log
      → Paced (rate_limit clock req key s).1 log
  unfolding rate_limit
  other-Paced req key s log forward apart p =
      let (same, later) = other_key key.id key.rate_limit s forward apart in
      record {
        last = p.last;
        shown = omega (arith, p.shown, later);
        paced =
            same_times-IsPaced id limit s (rate_limit clock req key s).1 log p.last same p.paced;
      }

  admitted_bounded :
      (s : Limiter) (log : List ℕ) (arrivals : List (ToolCallRequest × VirtualKey))
      → ((n : ℕ) → clock n ≤ clock (n + 1))
      → 0 < limit
      → HaveLimit arrivals
      → Paced s log
      → (w : ℕ) → length (within_minute w (admitted s log arrivals)) ≤ limit
  unfolding admitted
  admitted_bounded s log [] forward positive limits p w = p.paced.bounded w
  admitted_bounded s log ((req, key) ∷ rest) forward positive limits p w =
      elim (Bool-cases (key.id == id)) [
        | inl own ↦ rw own (
            admitted_bounded (rate_limit clock req key s).1 _ rest forward positive limits.1
              (own-Paced req key s log forward positive ((eq_iff key.id id).0 own) (limits.0 own) p)
              w)
        | inr apart ↦ rw apart (
            admitted_bounded (rate_limit clock req key s).1 log rest forward positive limits.1
              (other-Paced req key s log forward apart p) w)
      ]

  -- Where no clock runs back and the limit is not 0: in a sequence of requests of any keys, where those of
  -- one key have this limit and the key has no recorded times yet, no closed minute sees more requests of
  -- that key get through than the limit.
  pub admitted_lem :
      (s : Limiter) (arrivals : List (ToolCallRequest × VirtualKey)) (w : ℕ)
      → ((n : ℕ) → clock n ≤ clock (n + 1))
      → 0 < limit
      → s.request_times id ≡ none
      → HaveLimit arrivals
      → length (within_minute w (admitted s [] arrivals)) ≤ limit
  admitted_lem s arrivals w forward positive fresh limits =
      admitted_bounded s [] arrivals forward positive limits
        (record {
          last = clock s.clock_reads;
          shown = omega arith;
          paced = record { agrees = λ b h. ground (arith, fresh); bounded = λ w. omega arith };
        })
        w
