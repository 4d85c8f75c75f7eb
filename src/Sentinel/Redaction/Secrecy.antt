-- ===== src/Sentinel/Redaction/Secrecy.antt =====
-- What packages/sentinel/src/audit/AuditRedactor.ts keeps secret: the values under sensitive names.
use mcp_suite.Common.{
  ℕ, zero, suc, String, ◌≡◌, refl, ap, arith, Bool, true, false, List, [], ◌∷◌, map, if◌then◌else◌,
}
use mcp_suite.Json.{Json, Items, Fields, str, arr, obj, nil, cons, end, field}
use mcp_suite.Sentinel.Request.{ToolCallRequest}
use mcp_suite.Sentinel.Redaction.{AuditRedactor, RedactionPlatform, is_sensitive_key}
use mcp_suite.Sentinel.Redaction.Methods.{
  sanitize_value, sanitize_items, sanitize_fields, sanitize_object, sanitize_header, sanitized,
  sanitize_request, sanitize_text, limit_size, secret_marker, object_or_invalid,
}

module _ (platform : RedactionPlatform) where
  -- Two values that differ under sensitive names at most.
  mutual
    pub data Alike : Json → Json → Type 0 where
      same : (value : Json) → Alike value value
      items : (xs ys : Items) → AlikeItems xs ys → Alike (arr xs) (arr ys)
      fields : (fs gs : Fields) → AlikeFields fs gs → Alike (obj fs) (obj gs)

    pub data AlikeItems : Items → Items → Type 0 where
      no_item : AlikeItems nil nil
      item :
          (x y : Json) (xs ys : Items)
          → Alike x y
          → AlikeItems xs ys
          → AlikeItems (cons x xs) (cons y ys)

    pub data AlikeFields : Fields → Fields → Type 0 where
      no_field : AlikeFields end end
      shown :
          (key : String) (v w : Json) (fs gs : Fields)
          → Alike v w
          → AlikeFields fs gs
          → AlikeFields (field key v fs) (field key w gs)
      hidden :
          (key : String) (v w : Json) (fs gs : Fields)
          → is_sensitive_key platform key ≡ true
          → AlikeFields fs gs
          → AlikeFields (field key v fs) (field key w gs)

  pub data AlikeHeaders : List (String × String) → List (String × String) → Type 0 where
    no_header : AlikeHeaders [] []
    header_kept :
        (name value : String) (hs gs : List (String × String))
        → AlikeHeaders hs gs
        → AlikeHeaders ((name, value) ∷ hs) ((name, value) ∷ gs)
    header_hidden :
        (name v w : String) (hs gs : List (String × String))
        → is_sensitive_key platform name ≡ true
        → AlikeHeaders hs gs
        → AlikeHeaders ((name, v) ∷ hs) ((name, w) ∷ gs)

module _ (platform : RedactionPlatform) (redactor : AuditRedactor)
    (plain : redactor.fingerprint_secrets ≡ false) where
  -- What stands under a name, where its values are printed alike or are not printed.
  field_value :
      (secret : Bool) (v w : Json) {x y : Json}
      → x ≡ y
      → (if secret then str (secret_marker platform redactor v) else x)
        ≡ (if secret then str (secret_marker platform redactor w) else y)
  field_value true v w h = rw plain refl
  field_value false v w h = h

  hidden_value :
      (secret : Bool) (v w x y : Json)
      → secret ≡ true
      → (if secret then str (secret_marker platform redactor v) else x)
        ≡ (if secret then str (secret_marker platform redactor w) else y)
  hidden_value true v w x y h = rw plain refl
  hidden_value false v w x y h = absurd (ground arith)

  joined :
      (key : String) {x y : Json} {fs gs : Fields}
      → x ≡ y
      → fs ≡ gs
      → field key x fs ≡ field key y gs
  joined key p q = rw (p, q) refl

  mutual
    unfolding sanitize_value sanitize_items sanitize_fields

    sanitize_value-Alike :
        (left : ℕ) (v w : Json)
        → Alike platform v w
        → sanitize_value platform redactor left v ≡ sanitize_value platform redactor left w
    sanitize_value-Alike left v _ (same _) = refl
    sanitize_value-Alike zero _ _ (items xs ys h) = refl
    sanitize_value-Alike (suc left) _ _ (items xs ys h) = ap arr (sanitize_items-Alike left xs ys h)
    sanitize_value-Alike zero _ _ (fields fs gs h) = refl
    sanitize_value-Alike (suc left) _ _ (fields fs gs h) =
        ap obj (sanitize_fields-Alike left fs gs h)

    sanitize_items-Alike :
        (left : ℕ) (xs ys : Items)
        → AlikeItems platform xs ys
        → sanitize_items platform redactor left xs ≡ sanitize_items platform redactor left ys
    sanitize_items-Alike left _ _ no_item = refl
    sanitize_items-Alike left _ _ (item x y xs ys p h) =
        rw (sanitize_value-Alike left x y p, sanitize_items-Alike left xs ys h) refl

    sanitize_fields-Alike :
        (left : ℕ) (fs gs : Fields)
        → AlikeFields platform fs gs
        → sanitize_fields platform redactor left fs ≡ sanitize_fields platform redactor left gs
    sanitize_fields-Alike left _ _ no_field = refl
    sanitize_fields-Alike left _ _ (shown key v w fs gs p h) =
        joined key
          (field_value (is_sensitive_key platform key) v w (sanitize_value-Alike left v w p))
          (sanitize_fields-Alike left fs gs h)
    sanitize_fields-Alike left _ _ (hidden key v w fs gs secret h) =
        joined key
          (hidden_value (is_sensitive_key platform key) v w
            (sanitize_value platform redactor left v) (sanitize_value platform redactor left w)
            secret)
          (sanitize_fields-Alike left fs gs h)

  map-AlikeHeaders :
      (hs gs : List (String × String))
      → AlikeHeaders platform hs gs
      → map (sanitize_header platform redactor) hs ≡ map (sanitize_header platform redactor) gs
  map-AlikeHeaders _ _ no_header = refl
  map-AlikeHeaders _ _ (header_kept name value hs gs h) = rw (map-AlikeHeaders hs gs h) refl
  map-AlikeHeaders _ _ (header_hidden name v w hs gs secret h) =
      rw (secret, plain, map-AlikeHeaders hs gs h) refl

  abbrev with_parts : String → Fields → List (String × String) → ToolCallRequest
  with_parts tool f hs = record { tool = tool; input = f; headers = hs }

  same_parts :
      (tool : String) {f g : Fields} {hs gs : List (String × String)}
      → f ≡ g
      → hs ≡ gs
      → with_parts tool f hs ≡ with_parts tool g gs
  same_parts tool p q = rw (p, q) refl

  -- Where secrets get no fingerprint: two requests that differ under sensitive names only, in headers or
  -- anywhere in the input, come back as one result, so that it tells nothing of the secrets.
  pub sanitize_request-Alike :
      (tool : String) (f g : Fields) (hs gs : List (String × String))
      → AlikeFields platform f g
      → AlikeHeaders platform hs gs
      → sanitize_request platform redactor (record { tool = tool; input = f; headers = hs })
        ≡ sanitize_request platform redactor (record { tool = tool; input = g; headers = gs })
  unfolding sanitize_request sanitized sanitize_object
  sanitize_request-Alike tool f g hs gs p q =
      let inputs =
        ap (object_or_invalid platform redactor)
          (sanitize_value-Alike redactor.max_depth (obj f) (obj g) (fields f g p)) in
      let headers = map-AlikeHeaders hs gs q in
      ap (λ request. limit_size platform redactor request)
        (same_parts (sanitize_text platform redactor tool) inputs headers)
