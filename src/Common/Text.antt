-- ===== src/Common/Text.antt =====
-- What the sources use of JavaScript's strings: `trim`, `length` (in UTF-16 code units), and the
-- truth value of a string that may be missing.
use Prim.Native.Nat.{ℕ, ◌+◌}
use Prim.Native.Char.{code}
use Prim.Native.String.{String}
use mathlib.Core.Bool.{Bool, true, false, ◌&&◌, ◌||◌}
use mathlib.Core.Option.{Option, none, some}
use text.Mathlib.Text.{◌==◌}
use mcp_suite.Common.Tests.{leb, if◌then◌else◌}

abbrev is_between : ℕ → ℕ → ℕ → Bool
is_between lo hi c = leb lo c && leb c hi

-- White space and line terminators of ECMAScript.
abbrev pub is_space : ℕ → Bool
is_space c =
    is_between 9 13 c
    || is_between 32 32 c
    || is_between 160 160 c
    || is_between 5760 5760 c
    || is_between 8192 8202 c
    || is_between 8232 8233 c
    || is_between 8239 8239 c
    || is_between 8287 8287 c
    || is_between 12288 12288 c
    || is_between 65279 65279 c

abbrev pub is_empty : String → Bool
is_empty String.[] = true
is_empty (String.◌∷◌ c s) = false

pub trim_start : String → String
trim_start String.[] = ""
trim_start (String.◌∷◌ c s) =
    let rest = trim_start s in if is_space (code c) then rest else String.◌∷◌ c s

pub trim_end : String → String
trim_end String.[] = ""
trim_end (String.◌∷◌ c s) =
    let rest = trim_end s in if is_space (code c) && is_empty rest then "" else String.◌∷◌ c rest

unfoldable pub trim : String → String
unfolding trim_start trim_end
trim s = trim_end (trim_start s)

-- `value.length`: a character outside the basic plane counts twice.
unfoldable pub utf16_length : String → ℕ
utf16_length String.[] = 0
utf16_length (String.◌∷◌ c s) = utf16_length s + (if leb 65536 (code c) then 2 else 1)

-- `value ? … : …` of a text that may be missing: the empty text is false too.
abbrev pub truthy : Option String → Option String
truthy none = none
truthy (some s) = if is_empty s then none else some s

-- What follows the prefix, where the text starts with it.
unfoldable pub without_prefix : String → String → Option String
without_prefix String.[] text = some text
without_prefix (String.◌∷◌ c prefix) String.[] = none
without_prefix (String.◌∷◌ c prefix) (String.◌∷◌ d text) =
    let rest = without_prefix prefix text in
    if is_between (code c) (code c) (code d) then rest else none

-- `text.endsWith(suffix)`
abbrev pub ends_with : String → String → Bool
ends_with suffix String.[] = is_empty suffix
ends_with suffix (String.◌∷◌ c s) = String.◌∷◌ c s == suffix || ends_with suffix s

-- `text.split(mark, 1)[0]`, for a mark of one character: what stands before it.
unfoldable pub before_char : ℕ → String → String
before_char mark String.[] = ""
before_char mark (String.◌∷◌ c s) =
    let rest = before_char mark s in if is_between mark mark (code c) then "" else String.◌∷◌ c rest

-- The text without this character where it starts with it.
abbrev pub without_first : ℕ → String → String
without_first mark String.[] = ""
without_first mark (String.◌∷◌ c s) = if is_between mark mark (code c) then s else String.◌∷◌ c s

abbrev pub is_char : ℕ → String → Bool
is_char mark String.[] = false
is_char mark (String.◌∷◌ c s) = is_between mark mark (code c) && is_empty s

-- The text without this character where it ends with it.
unfoldable pub without_last : ℕ → String → String
without_last mark String.[] = ""
without_last mark (String.◌∷◌ c s) =
    let rest = without_last mark s in
    if is_char mark (String.◌∷◌ c s) then "" else String.◌∷◌ c rest
