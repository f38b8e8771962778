-- ===== src/Shared/Redaction.antt =====
-- `redact_secrets` of mediaorchard/shared/security.py, on JSON values.
use media_orchard.Prelude.{
  ℕ, String, Bool, true, false, ◌&&◌, ◌||◌, List, [], ◌∷◌, ◌==◌, if◌then◌else◌, any, is_empty,
}
pub mod Secrets
use media_orchard.Prelude.Json.{
  Json, Items, Fields, null, bool, int, float, str, arr, obj, nil, cons, end, field,
}
use media_orchard.Shared.Texts.{codes, is_prefix}

-- part in text, for texts
unfoldable pub is_part : List ℕ → List ℕ → Bool
is_part part [] = is_empty part
is_part part (c ∷ text) = is_prefix part (c ∷ text) || is_part part text

abbrev pub redacted : String
redacted = "[REDACTED]"

-- DEFAULT_REDACT_FIELDS
abbrev pub default_redact_fields : List String
default_redact_fields = "api_key" ∷ "authorization" ∷ "token" ∷ "secret" ∷ []

-- any(field in key_text for field in redact_fields); `lower` is str.lower.
unfoldable pub is_secret : (String → String) → List String → String → Bool
unfolding is_part
is_secret lower redact_fields key =
    any (λ part. is_part (codes part) (codes (lower key))) redact_fields

-- The replacement of a value.
abbrev pub is_redacted : {F : Type 0} → Json F → Bool
is_redacted (str s) = s == redacted
is_redacted _ = false

module _ {F : Type 0} (lower : String → String) (redact_fields : List String) where
  unfoldable mutual
    pub redact_secrets : Json F → Json F
    redact_secrets (obj fields) = obj (redact_members fields)
    redact_secrets (arr items) = arr (redact_items items)
    redact_secrets null = null
    redact_secrets (bool b) = bool b
    redact_secrets (int n) = int n
    redact_secrets (float x) = float x
    redact_secrets (str s) = str s

    pub redact_items : Items F → Items F
    redact_items nil = nil
    redact_items (cons item items) = cons (redact_secrets item) (redact_items items)

    pub redact_members : Fields F → Fields F
    redact_members end = end
    redact_members (field key value fields) =
        let inner = redact_secrets value in
        field key (if is_secret lower redact_fields key then str redacted else inner)
          (redact_members fields)

  -- At any depth: a member whose key is secret has the replacement for its value.
  unfoldable mutual
    pub is_clean : Json F → Bool
    is_clean (obj fields) = members_clean fields
    is_clean (arr items) = items_clean items
    is_clean null = true
    is_clean (bool b) = true
    is_clean (int n) = true
    is_clean (float x) = true
    is_clean (str s) = true

    pub items_clean : Items F → Bool
    items_clean nil = true
    items_clean (cons item items) = is_clean item && items_clean items

    pub members_clean : Fields F → Bool
    members_clean end = true
    members_clean (field key value fields) =
        let inner = is_clean value in
        (if is_secret lower redact_fields key then is_redacted value else inner)
        && members_clean fields
