-- ===== src/Sentinel/Redaction/Examples.antt =====
-- A request with a secret header and a secret in its input, on which the theorems about
-- packages/sentinel/src/audit/AuditRedactor.ts are applied.
use mcp_suite.Common.{String, ◌≡◌, refl, true, false, some, none, List, [], ◌∷◌, whole}
use mcp_suite.Effect.{ok, err}
use mcp_suite.Json.{Fields, str, obj, field, end}
use mcp_suite.Sentinel.Redaction.{
  AuditRedactor, AuditRedactionOptions, RedactionPlatform, new_audit_redactor, out_of_range,
  is_sensitive_key,
}
use mcp_suite.Sentinel.Redaction.Methods.{sanitize_request, sanitize_value}
use mcp_suite.Sentinel.Redaction.Limits.{Within, sanitize_request-Within}
use mcp_suite.Sentinel.Redaction.Secrecy.{
  AlikeFields, fields, no_field, shown, hidden, no_header, header_hidden, sanitize_request-Alike,
}

abbrev pub platform : RedactionPlatform
platform = record {
  redact_pii = λ s. s;
  replace = λ p f s. s;
  sha256 = λ s. s;
  stringify = λ v. "{}";
  utf8_length = λ s. 2;
  utf8_prefix = λ n s. s;
  to_lower_case = λ s. s;
  first_twelve = λ s. s;
  decimal = λ n. "256";
}

abbrev pub redactor : AuditRedactor
redactor = record {
  fingerprint_secrets = false;
  max_request_bytes = 256;
  max_error_bytes = 64;
  max_depth = 2;
}

abbrev options : AuditRedactionOptions
options = record {
  fingerprint_secrets = none;
  max_request_bytes = some (whole 256);
  max_error_bytes = some (whole 64);
  max_depth = some (whole 2);
}

builds : new_audit_redactor options ≡ ok redactor
unfolding new_audit_redactor
builds = refl

too_deep : new_audit_redactor (record options { max_depth = some (whole 101) }) ≡ err out_of_range
unfolding new_audit_redactor
too_deep = refl

abbrev nested : String → Fields
nested secret = field "user" (obj (field "password" (str secret) end)) end

abbrev headers : String → List (String × String)
headers secret = ("authorization", secret) ∷ []

redacts : sanitize_value platform redactor 2 (obj (nested "a")) ≡ obj (nested "[REDACTED]")
unfolding sanitize_value is_sensitive_key
redacts = refl

sanitize_request-Within_example : Within platform redactor (
    sanitize_request platform redactor
      (record { tool = "echo"; input = nested "a"; headers = headers "b" }))
sanitize_request-Within_example =
    sanitize_request-Within platform redactor
      (record { tool = "echo"; input = nested "a"; headers = headers "b" }) refl

password_secret : is_sensitive_key platform "password" ≡ true
unfolding is_sensitive_key
password_secret = refl

authorization_secret : is_sensitive_key platform "authorization" ≡ true
unfolding is_sensitive_key
authorization_secret = refl

passwords-Alike : AlikeFields platform (nested "a") (nested "b")
passwords-Alike =
    shown "user" (obj (field "password" (str "a") end)) (obj (field "password" (str "b") end)) end
      end (fields _ _ (hidden "password" (str "a") (str "b") end end password_secret no_field))
      no_field

sanitize_request-Alike_example :
    sanitize_request platform redactor
      (record { tool = "echo"; input = nested "a"; headers = headers "c" })
    ≡ sanitize_request platform redactor
        (record { tool = "echo"; input = nested "b"; headers = headers "d" })
sanitize_request-Alike_example =
    sanitize_request-Alike platform redactor refl "echo" (nested "a") (nested "b") (headers "c")
      (headers "d") passwords-Alike
      (header_hidden "authorization" "c" "d" [] [] authorization_secret no_header)
