-- ===== src/Sentinel/Keys/Examples.antt =====
-- A small platform and table, on which the theorems about packages/sentinel/src/auth/KeyManager.ts are
-- applied.
use Prim.Native.Char.{Char, code}
use Prim.Native.String.{String}
use mcp_suite.Common.{
  ap, arith, leb, if◌then◌else◌, ◌+◌, ◌≡◌, ◌≢◌, ◌↔◌, refl, false, Option, none, some, List, [], ◌∷◌,
}
use mcp_suite.Effect.{ok, ◌>>=◌}
use mcp_suite.Table.{find}
use mcp_suite.Sentinel.Keys.{
  CreateKeyOptions, KeyRow, KeyPlatform, Keys, validate, create, revoke, new_key, random_bytes, now,
  insert_key,
}
use mcp_suite.Sentinel.Keys.Validation.{IsValidFor, validate_iff, create_validates, stored_key}
use mcp_suite.Sentinel.Keys.Revocation.{creates, rotates, run, revoke_final}

-- A printer of lists of texts with its parser: '+' stands before each character, '.' after each text.
abbrev put_mark : String → String → String
put_mark String.[] rest = rest
put_mark (String.◌∷◌ mark s) rest = String.◌∷◌ mark rest

print_text : String → String → String
print_text String.[] rest = put_mark "." rest
print_text (String.◌∷◌ c s) rest = put_mark "+" (String.◌∷◌ c (print_text s rest))

print_texts : List String → String
print_texts [] = ""
print_texts (s ∷ ss) = print_text s (print_texts ss)

add_char : Char → Option (List String) → Option (List String)
add_char c (some (s ∷ ss)) = some (String.◌∷◌ c s ∷ ss)
add_char c _ = none

add_text : Option (List String) → Option (List String)
add_text none = none
add_text (some ss) = some ("" ∷ ss)

parse_texts : String → Option (List String)
parse_texts String.[] = some []
parse_texts (String.◌∷◌ mark String.[]) = add_text (some [])
parse_texts (String.◌∷◌ mark (String.◌∷◌ c rest)) =
    let here = parse_texts (String.◌∷◌ c rest) in
    let next = parse_texts rest in if leb (code mark) 43 then add_char c next else add_text here

parse-print_text :
    (s rest : String) (ss : List String)
    → parse_texts rest ≡ some ss
    → parse_texts (print_text s rest) ≡ some (s ∷ ss)
unfolding parse_texts print_text add_char add_text
parse-print_text String.[] String.[] ss h = ground arith
parse-print_text String.[] (String.◌∷◌ c rest) ss h = ap add_text h
parse-print_text (String.◌∷◌ c s) rest ss h = rw (parse-print_text s rest ss h) refl

parse-print : (ss : List String) → parse_texts (print_texts ss) ≡ some ss
unfolding parse_texts print_texts
parse-print [] = refl
parse-print (s ∷ ss) = parse-print_text s (print_texts ss) ss (parse-print ss)

abbrev platform : KeyPlatform
platform = record {
  clock = λ n. 1000 + n;
  random_hex = λ n size. "00";
  sha256 = λ s. s;
  print_texts = print_texts;
  parse_texts = parse_texts;
}

abbrev row : KeyRow
row = record {
  id = "key-1";
  name = "build";
  raw_key_hash = "mcp_01";
  tags = "";
  created_at = 10;
  expires_at = none;
  rate_limit_rpm = some 60;
  allowed_tools = "";
  is_revoked = false;
}

abbrev keys : Keys
keys = record { rows = row ∷ []; clock_reads = 0; draws = 0 }

abbrev options : CreateKeyOptions
options = record {
  name = "deploy";
  tags = none;
  expires_at = some 5000;
  rate_limit = none;
  allowed_tools = none;
}

validate_iff_example :
    ((validate platform "mcp_00" keys).0
      ≡ ok (some (stored_key platform (new_key options "00" "mcp_00" 1000))))
    ↔ IsValidFor platform keys "mcp_00" (stored_key platform (new_key options "00" "mcp_00" 1000))
validate_iff_example =
    validate_iff platform keys "mcp_00" (stored_key platform (new_key options "00" "mcp_00" 1000))

revoke_final_example :
    (validate platform "mcp_01"
      (run platform (revoke platform "key-1" keys).1 (rotates "key-1" ∷ creates options ∷ []))).0
    ≢ ok (some (new_key options "key-1" "mcp_01" 10))
revoke_final_example =
    revoke_final platform keys "key-1" "mcp_01" row (rotates "key-1" ∷ creates options ∷ [])
      (new_key options "key-1" "mcp_01" 10) (unfold find in refl) (unfold find in refl)

created :
    create platform options keys
    ≡ (ok (new_key options "00" "mcp_00" 1000), (create platform options keys).1)
unfolding create ◌>>=◌ random_bytes now insert_key find
created = refl

create_validates_example :
    (validate platform "mcp_00" (create platform options keys).1).0
    ≡ ok (some (stored_key platform (new_key options "00" "mcp_00" 1000)))
unfolding create ◌>>=◌ random_bytes now insert_key find
create_validates_example =
    create_validates platform keys (create platform options keys).1 options
      (new_key options "00" "mcp_00" 1000) "mcp_00" parse-print created refl (unfold find in refl)
      refl
