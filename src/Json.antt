-- ===== src/Json.antt =====
-- JSON values, as `JSON.parse` gives them, and the canonical form in which
-- packages/sentinel/src/approval/ApprovalStore.ts hashes them. A number is the text of its literal.
use mcp_suite.Common.{String, Bool, List, [], ◌∷◌, if◌then◌else◌}

mutual
  pub data Json : Type 0 where
    null : Json
    bool : Bool → Json
    num : String → Json
    str : String → Json
    arr : Items → Json
    obj : Fields → Json

  pub data Items : Type 0 where
    nil : Items
    cons : Json → Items → Items

  pub data Fields : Type 0 where
    end : Fields
    field : String → Json → Fields → Fields

-- A stable sort by key: an entry goes behind those that do not come after it.
module _ (locale_le : String → String → Bool) where
  pub insert_field : String → Json → Fields → Fields
  insert_field k v end = field k v end
  insert_field k v (field j w fs) =
      if locale_le k j then field k v (field j w fs) else field j w (insert_field k v fs)

  pub sort_fields : Fields → Fields
  sort_fields end = end
  sort_fields (field k v fs) = insert_field k v (sort_fields fs)

  -- The keys alone decide the order, so the entries may be sorted after they are rewritten.
  unfoldable mutual
    pub canonicalize : Json → Json
    canonicalize null = null
    canonicalize (bool b) = bool b
    canonicalize (num n) = num n
    canonicalize (str s) = str s
    canonicalize (arr xs) = arr (canonicalize_items xs)
    canonicalize (obj fs) = obj (sort_fields (canonicalize_fields fs))

    pub canonicalize_items : Items → Items
    canonicalize_items nil = nil
    canonicalize_items (cons x xs) = cons (canonicalize x) (canonicalize_items xs)

    pub canonicalize_fields : Fields → Fields
    canonicalize_fields end = end
    canonicalize_fields (field k v fs) = field k (canonicalize v) (canonicalize_fields fs)

  -- `[...values].sort((left, right) => left.localeCompare(right))`
  pub insert_text : String → List String → List String
  insert_text x [] = x ∷ []
  insert_text x (y ∷ ys) = if locale_le x y then x ∷ y ∷ ys else y ∷ insert_text x ys

  unfoldable pub sort_texts : List String → List String
  unfolding insert_text
  sort_texts [] = []
  sort_texts (x ∷ xs) = insert_text x (sort_texts xs)

-- The JSON array of some texts.
pub texts : List String → Items
texts [] = nil
texts (x ∷ xs) = cons (str x) (texts xs)
