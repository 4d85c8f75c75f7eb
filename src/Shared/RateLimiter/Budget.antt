-- ===== src/Shared/RateLimiter/Budget.antt =====
-- How much `consume` of packages/shared/src/ratelimit/RateLimiter.ts grants in a stretch of time.
use native.Mathlib.Nat.{mul-le-mul}
use mcp_suite.Common.{
  ℕ, suc, ◌+◌, ◌-◌, ◌*◌, ◌≤◌, String, ◌≡◌, refl, sym, ap, subst, ◌∙◌, arith, some, List, [], ◌∷◌,
  ltb, if◌then◌else◌, ◌==◌, eq_iff, Bool-cases, none, Option-cases, inl, inr,
}
use mcp_suite.Shared.RateLimiter.{
  BucketState, RateLimiter, refilled, get_bucket, peek, consume, reset, take_tokens,
}

-- What a caller asks of the limiter at a time: how much is left, a cost, or a new bucket.
pub data Call : Type 0 where
  peeks : ℕ → String → Call
  consumes : ℕ → String → ℕ → Call
  resets : ℕ → String → Call

abbrev pub time_of : Call → ℕ
time_of (peeks at key) = at
time_of (consumes at key cost) = at
time_of (resets at key) = at

-- No clock runs back, from a start to an end.
abbrev pub IsOrdered : ℕ → ℕ → List Call → Type 0
IsOrdered start end [] = start ≤ end
IsOrdered start end (call ∷ calls) = (start ≤ time_of call) × IsOrdered (time_of call) end calls

-- A call, and the tokens it grants a key.
abbrev pub perform : String → Call → RateLimiter → ℕ × RateLimiter
perform key (peeks at other) s = (0, (peek at other s).1)
perform key (consumes at other cost) s =
    let (granted, after) = consume at other cost s in
    (if granted then (if other == key then cost else 0) else 0, after)
perform key (resets at other) s = (0, reset other s)

-- How often a call, and a sequence of calls, gives a key a new bucket.
abbrev pub resets_of : String → Call → ℕ
resets_of key (peeks at other) = 0
resets_of key (consumes at other cost) = 0
resets_of key (resets at other) = if other == key then 1 else 0

abbrev pub resets_in : String → List Call → ℕ
resets_in key [] = 0
resets_in key (call ∷ calls) = resets_of key call + resets_in key calls

-- The tokens that a sequence of calls grants a key.
unfoldable pub granted_to : String → List Call → RateLimiter → ℕ
granted_to key [] s = 0
granted_to key (call ∷ calls) s =
    (perform key call s).0 + granted_to key calls (perform key call s).1

-- The tokens in a bucket at a time no earlier than its last refill, where it has them all when it is new.
abbrev pub stock : String → ℕ → RateLimiter → ℕ
stock key now s = (refilled now key s).tokens

-- The bucket was not refilled in the future.
abbrev pub IsPast : String → ℕ → RateLimiter → Type 0
IsPast key now s = (b : BucketState) → s.buckets key ≡ some b → b.last_refill_at ≤ now

split_times : (a b r : ℕ) → (a + b) * r ≡ a * r + b * r
split_times a b r = omega arith

sub_add : (a b : ℕ) → b ≤ a → (a - b) + b ≡ a
sub_add a b h = omega arith

since_times : (a b r : ℕ) → b ≤ a → (a - b) * r + b * r ≡ a * r
since_times a b r h = sym (split_times (a - b) b r) ∙ ap (λ n. n * r) (sub_add a b h)

times_mono : (a b r : ℕ) → a ≤ b → a * r ≤ b * r
times_mono a b r h = mul-le-mul h (omega arith)

-- A stretch of time adds at most what the rate gives in it.
stock_grows :
    (key : String) (start now : ℕ) (s : RateLimiter)
    → start ≤ now
    → IsPast key start s
    → stock key now s + start * s.refill_rate_per_second
      ≤ stock key start s + now * s.refill_rate_per_second
stock_grows key start now s later past = elim (Option-cases (s.buckets key)) [
  | inl fresh ↦ ground (arith, fresh, times_mono start now s.refill_rate_per_second later)
  | inr (b, known) ↦ ground (
    arith,
    known,
    since_times now b.last_refill_at s.refill_rate_per_second (omega (arith, later, past b known)),
    since_times start b.last_refill_at s.refill_rate_per_second (past b known),
    times_mono start now s.refill_rate_per_second later,
  )
]

-- The limiter at `start`, and what it is at `now` once a call took `spent` tokens from the key's bucket and
-- filled it `fills` times.
record Paid (key : String) (start now spent fills : ℕ) (s after : RateLimiter) : Type 0 where
  pub same_capacity : after.capacity ≡ s.capacity
  pub same_rate : after.refill_rate_per_second ≡ s.refill_rate_per_second
  pub past : IsPast key now after
  pub paid :
      spent * 1000 + stock key now after + start * s.refill_rate_per_second
      ≤ stock key start s + fills * (s.capacity * 1000) + now * s.refill_rate_per_second

module _ (key : String) (start now : ℕ) (s after : RateLimiter) (later : start ≤ now)
    (past : IsPast key start s) (capacity : after.capacity ≡ s.capacity)
    (rate : after.refill_rate_per_second ≡ s.refill_rate_per_second) where
  -- A call that leaves the key's bucket as it is.
  kept-Paid : after.buckets key ≡ s.buckets key → Paid key start now 0 0 s after
  kept-Paid kept = record {
    same_capacity = capacity;
    same_rate = rate;
    past = λ b h. omega (arith, later, past b (sym kept ∙ h));
    paid = ground (arith, capacity, rate, kept, stock_grows key start now s later past);
  }

  -- A call that refills the key's bucket and takes tokens that are there.
  own-Paid :
      (spent t : ℕ)
      → after.buckets key ≡ some (record { tokens = t; last_refill_at = now })
      → t + spent * 1000 ≤ stock key now s
      → Paid key start now spent 0 s after
  own-Paid spent t own fits = record {
    same_capacity = capacity;
    same_rate = rate;
    past = λ b h. ground (arith, own, h);
    paid = ground (arith, capacity, rate, own, fits, stock_grows key start now s later past);
  }

  -- A call that drops the key's bucket.
  new-Paid : after.buckets key ≡ none → Paid key start now 0 1 s after
  new-Paid fresh = record {
    same_capacity = capacity;
    same_rate = rate;
    past = λ b h. absurd (ground (arith, fresh, h));
    paid =
        ground (arith, capacity, rate, fresh, times_mono start now s.refill_rate_per_second later);
  }

perform-Paid :
    (key : String) (start : ℕ) (call : Call) (s : RateLimiter)
    → start ≤ time_of call
    → IsPast key start s
    → Paid key start
        (time_of call)
        (perform key call s).0
        (resets_of key call)
        s
        (perform key call s).1
unfolding peek consume get_bucket
perform-Paid key start (peeks now other) s later past = elim (Bool-cases (other == key)) [
  | inl own ↦
      own-Paid key start now s (peek now other s).1 later past refl refl 0 (stock key now s)
        (ground (arith, eq_iff other key, own)) (omega arith)
  | inr apart ↦
      kept-Paid key start now s (peek now other s).1 later past refl refl (ground (arith, apart))
]
perform-Paid key start (consumes now other cost) s later past =
    elim (Bool-cases (ltb (refilled now other s).tokens (cost * 1000))) [
      | inl short ↦ elim (Bool-cases (other == key)) [
        | inl own ↦ rw short (
            own-Paid key start now s (get_bucket now other s).1 later past refl refl 0
              (stock key now s) (ground (arith, eq_iff other key, own)) (omega arith))
        | inr apart ↦ rw short (
            kept-Paid key start now s (get_bucket now other s).1 later past refl refl
              (ground (arith, apart)))
      ]
      | inr enough ↦
          let taken : RateLimiter =
            take_tokens other cost (refilled now other s) (get_bucket now other s).1 in
          elim (Bool-cases (other == key)) [
            | inl own ↦
                rw (enough, own)
                  (own-Paid key start now s taken later past refl refl cost
                    (stock key now s - cost * 1000) (ground (arith, eq_iff other key, own))
                    (ground (arith, enough, eq_iff other key, own)))
            | inr apart ↦
                rw (enough, apart)
                  (kept-Paid key start now s taken later past refl refl (ground (arith, apart)))
          ]
    ]
perform-Paid key start (resets now other) s later past = elim (Bool-cases (other == key)) [
  | inl own ↦
      rw own (new-Paid key start now s (reset other s) later past refl refl (ground (arith, own)))
  | inr apart ↦
      rw apart
        (kept-Paid key start now s (reset other s) later past refl refl (ground (arith, apart)))
]

stock_full : (key : String) (now : ℕ) (s : RateLimiter) → stock key now s ≤ s.capacity * 1000
stock_full key now s = ground arith

ordered_ends : (start end : ℕ) (calls : List Call) → IsOrdered start end calls → start ≤ end
ordered_ends start end [] ordered = ordered
ordered_ends start end (call ∷ calls) (later, ordered) =
    omega (arith, later, ordered_ends (time_of call) end calls ordered)

spends_at_most :
    (key : String) (start end : ℕ) (calls : List Call) (s : RateLimiter)
    → IsOrdered start end calls
    → IsPast key start s
    → granted_to key calls s * 1000 + start * s.refill_rate_per_second
      ≤ stock key start s
        + resets_in key calls * (s.capacity * 1000)
        + end * s.refill_rate_per_second
unfolding granted_to
spends_at_most key start end [] s ordered past =
    omega (arith, times_mono start end s.refill_rate_per_second ordered)
spends_at_most key start end (call ∷ calls) s (later, ordered) past =
    let after : RateLimiter = (perform key call s).1 in
    let step : Paid key start (time_of call) (perform key call s).0 (resets_of key call) s after =
      perform-Paid key start call s later past in
    omega (
      arith,
      step.paid,
      split_times (resets_of key call) (resets_in key calls) (s.capacity * 1000),
      subst
          (λ c.
            granted_to key calls after * 1000 + time_of call * s.refill_rate_per_second
            ≤ stock key (time_of call) after
              + resets_in key calls * (c * 1000)
              + end * s.refill_rate_per_second)
          step.same_capacity
          (subst
            (λ r.
              granted_to key calls after * 1000 + time_of call * r
              ≤ stock key (time_of call) after
                + resets_in key calls * (after.capacity * 1000)
                + end * r)
            step.same_rate (spends_at_most key (time_of call) end calls after ordered step.past)),
    )

-- In a stretch of time in which no clock runs back, calls for any keys, in any order, grant a key at most what
-- the rate gives in that time, and the capacity once, and once more for each reset of the key, where the key's
-- bucket is new or was last refilled before it.
pub granted_to_bound :
    (key : String) (start end : ℕ) (calls : List Call) (s : RateLimiter)
    → IsOrdered start end calls
    → IsPast key start s
    → granted_to key calls s * 1000
      ≤ suc (resets_in key calls) * (s.capacity * 1000) + (end - start) * s.refill_rate_per_second
granted_to_bound key start end calls s ordered past = omega (
  arith,
  spends_at_most key start end calls s ordered past,
  stock_full key start s,
  since_times end start s.refill_rate_per_second (ordered_ends start end calls ordered),
)
