-- ===== src/Sentinel/Pipeline/Glob.antt =====
-- What `globMatches` of packages/sentinel/src/proxy/RequestPipeline.ts accepts.
use Prim.Native.Char.{Char, code}
use mcp_suite.Common.{
  String, ◌≡◌, ◌≢◌, ◌↔◌, subst, sym, Bool, true, false, arith, eq_iff, Bool-cases, inl, inr,
}
use mcp_suite.Sentinel.Pipeline.{glob_matches, after_star, after_char, is_star, is_line_terminator}

-- The value is made of the pattern's characters, where a star stands for a run of characters that
-- end no line.
pub data Matches : String → String → Type 0 where
  nothing : Matches "" ""
  literal :
      {pattern value : String} (c d : Char)
      → code c ≢ 42
      → code c ≡ code d
      → Matches pattern value
      → Matches (String.◌∷◌ c pattern) (String.◌∷◌ d value)
  star_ends :
      {pattern value : String} (c : Char)
      → code c ≡ 42
      → Matches pattern value
      → Matches (String.◌∷◌ c pattern) value
  star_takes :
      {pattern value : String} (c d : Char)
      → code c ≡ 42
      → is_line_terminator (code d) ≡ false
      → Matches (String.◌∷◌ c pattern) value
      → Matches (String.◌∷◌ c pattern) (String.◌∷◌ d value)

after_star_now :
    (rest : String → Bool) (value : String) → rest value ≡ true → after_star rest value ≡ true
unfolding after_star
after_star_now rest String.[] h = h
after_star_now rest (String.◌∷◌ c value) h = ground arith

glob_matches-Matches :
    {pattern value : String} → Matches pattern value → glob_matches pattern value ≡ true
unfolding glob_matches after_star
glob_matches-Matches nothing = ground arith
glob_matches-Matches (literal c d plain same m) = ground (arith, glob_matches-Matches m)
glob_matches-Matches (star_ends {pattern} {value} c star m) =
    ground (arith, after_star_now (glob_matches pattern) value (glob_matches-Matches m))
glob_matches-Matches (star_takes {pattern} {value} c d star dot m) =
    ground (arith, glob_matches-Matches m)

star_Matches :
    (c : Char) (pattern value : String)
    → code c ≡ 42
    → ((v : String) → glob_matches pattern v ≡ true → Matches pattern v)
    → after_star (glob_matches pattern) value ≡ true
    → Matches (String.◌∷◌ c pattern) value
unfolding after_star
star_Matches c pattern String.[] star tail h = star_ends c star (tail "" h)
star_Matches c pattern (String.◌∷◌ d value) star tail h =
    elim (Bool-cases (glob_matches pattern (String.◌∷◌ d value))) [
      | inl now ↦ star_ends c star (tail (String.◌∷◌ d value) now)
      | inr later ↦
          star_takes c d star (ground arith) (star_Matches c pattern value star tail (ground arith))
    ]

char_Matches :
    (c : Char) (pattern value : String)
    → is_star (code c) ≡ false
    → ((v : String) → glob_matches pattern v ≡ true → Matches pattern v)
    → after_char (code c) (glob_matches pattern) value ≡ true
    → Matches (String.◌∷◌ c pattern) value
char_Matches c pattern String.[] plain tail h = absurd (ground arith)
char_Matches c pattern (String.◌∷◌ d value) plain tail h =
    literal c d (ground arith) (ground arith) (tail value (ground arith))

Matches-glob_matches :
    (pattern value : String) → glob_matches pattern value ≡ true → Matches pattern value
unfolding glob_matches
Matches-glob_matches String.[] value h = subst (Matches "") (sym ((eq_iff value "").0 h)) nothing
Matches-glob_matches (String.◌∷◌ c pattern) value h = elim (Bool-cases (is_star (code c))) [
  | inl star ↦
      star_Matches c pattern value (ground arith) (Matches-glob_matches pattern) (rw star at h)
  | inr plain ↦ char_Matches c pattern value plain (Matches-glob_matches pattern) (rw plain at h)
]

-- `globMatches` returns true exactly on the values that are made of the pattern's characters, where a
-- star stands for any run of characters without a line terminator.
pub glob_matches_iff :
    (pattern value : String) → (glob_matches pattern value ≡ true) ↔ Matches pattern value
glob_matches_iff pattern value = (Matches-glob_matches pattern value, glob_matches-Matches)
