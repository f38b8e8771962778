-- ===== src/Shared/Redaction/Secrets.antt =====
-- What is left of a value that has been redacted.
use media_orchard.Prelude.{
  String, ◌≡◌, refl, sym, ap, ◌∙◌, ◌↔◌, inl, inr, true, List, eq_iff, Bool-cases, and-true,
}
use media_orchard.Prelude.Json.{
  Json, Items, Fields, null, bool, int, float, str, arr, obj, nil, cons, end, field,
}
use media_orchard.Shared.Redaction.{
  is_secret, redacted, redact_secrets, redact_items, redact_members, is_clean, items_clean,
  members_clean, is_redacted,
}

is_redacted-str : {F : Type 0} (value : Json F) → is_redacted value ≡ true → str redacted ≡ value
is_redacted-str (str s) h = ap str (sym ((eq_iff s redacted).0 h))
is_redacted-str null h = cc
is_redacted-str (bool b) h = cc
is_redacted-str (int n) h = cc
is_redacted-str (float x) h = cc
is_redacted-str (arr items) h = cc
is_redacted-str (obj fields) h = cc

module _ {F : Type 0} (lower : String → String) (redact_fields : List String) where
  mutual
    unfolding redact_secrets is_clean

    redact_secrets-clean :
        (value : Json F)
        → is_clean lower redact_fields (redact_secrets lower redact_fields value) ≡ true
    redact_secrets-clean (obj fields) = redact_members-clean fields
    redact_secrets-clean (arr items) = redact_items-clean items
    redact_secrets-clean null = refl
    redact_secrets-clean (bool b) = refl
    redact_secrets-clean (int n) = refl
    redact_secrets-clean (float x) = refl
    redact_secrets-clean (str s) = refl

    redact_items-clean :
        (items : Items F)
        → items_clean lower redact_fields (redact_items lower redact_fields items) ≡ true
    redact_items-clean nil = refl
    redact_items-clean (cons item items) =
        rw (redact_secrets-clean item, redact_items-clean items) refl

    redact_members-clean :
        (fields : Fields F)
        → members_clean lower redact_fields (redact_members lower redact_fields fields) ≡ true
    redact_members-clean end = refl
    redact_members-clean (field key value fields) =
        elim (Bool-cases (is_secret lower redact_fields key)) [
          | inl e ↦ rw (e, redact_members-clean fields) refl
          | inr e ↦ rw (e, redact_secrets-clean value, redact_members-clean fields) refl
        ]

  -- A value with nothing to redact is left as it is.
  mutual
    unfolding redact_secrets is_clean

    clean-redact_secrets :
        (value : Json F)
        → is_clean lower redact_fields value ≡ true
        → redact_secrets lower redact_fields value ≡ value
    clean-redact_secrets (obj fields) h = ap obj (clean-redact_members fields h)
    clean-redact_secrets (arr items) h = ap arr (clean-redact_items items h)
    clean-redact_secrets null h = refl
    clean-redact_secrets (bool b) h = refl
    clean-redact_secrets (int n) h = refl
    clean-redact_secrets (float x) h = refl
    clean-redact_secrets (str s) h = refl

    clean-redact_items :
        (items : Items F)
        → items_clean lower redact_fields items ≡ true
        → redact_items lower redact_fields items ≡ items
    clean-redact_items nil h = refl
    clean-redact_items (cons item items) h =
        let (a, b) = and-true (is_clean lower redact_fields item) _ h in
        rw (clean-redact_secrets item a, clean-redact_items items b) refl

    clean-redact_members :
        (fields : Fields F)
        → members_clean lower redact_fields fields ≡ true
        → redact_members lower redact_fields fields ≡ fields
    clean-redact_members end h = refl
    clean-redact_members (field key value fields) h =
        elim (Bool-cases (is_secret lower redact_fields key)) [
          | inl e ↦
              let (a, b) = and-true (is_redacted value) _ (rw e at h) in
              rw (e, clean-redact_members fields b)
                (ap (λ v. field key v fields) (is_redacted-str value a))
          | inr e ↦
              let (a, b) = and-true (is_clean lower redact_fields value) _ (rw e at h) in
              rw (e, clean-redact_secrets value a, clean-redact_members fields b) refl
        ]

  -- In a redacted value every member with a secret key has the replacement, at any depth. A value is
  -- left as it is exactly if that holds of it already, and so redacting twice is redacting once.
  pub redact_secrets_lem :
      (value : Json F)
      → (is_clean lower redact_fields (redact_secrets lower redact_fields value) ≡ true)
        × ((redact_secrets lower redact_fields value ≡ value)
            ↔ (is_clean lower redact_fields value ≡ true))
        × (redact_secrets lower redact_fields (redact_secrets lower redact_fields value)
            ≡ redact_secrets lower redact_fields value)
  redact_secrets_lem value = (
    redact_secrets-clean value,
    (
      λ e. sym (ap (is_clean lower redact_fields) e) ∙ redact_secrets-clean value,
      clean-redact_secrets value,
    ),
    clean-redact_secrets _ (redact_secrets-clean value),
  )
