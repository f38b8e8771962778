-- ===== src/Shared/Security.antt =====
-- mediaorchard/shared/security.py: the keys of Workers.
use media_orchard.Prelude.{
  String, ◌≡◌, ◌≢◌, ◌↔◌, Bool, true, false, not, ◌||◌, arith, ◌==◌, eq_iff, if◌then◌else◌,
}
use media_orchard.Prelude.Results.{Result, ok, err, ◌>>◌, require}
use Prim.Native.String
use text.Mathlib.TextLemmas.{append-eq-nil_iff}

-- `hash_api_key` raises `ValueError` on an empty key.
pub data EmptyKey : Type 0 where
  empty_key : EmptyKey

-- `sha256_hex` is `hashlib.sha256(key.encode("utf-8")).hexdigest()`.
module _ (sha256_hex : String → String) where
  unfoldable pub hash_api_key : String → Result EmptyKey String
  hash_api_key raw_key = do
    require (not (raw_key == "")) empty_key
    ok (String.◌++◌ "sha256:" (sha256_hex raw_key))

  unfoldable pub verify_api_key : String → String → Bool
  unfolding hash_api_key
  verify_api_key raw_key stored_hash =
      if raw_key == "" || stored_hash == ""
      then false
      else elim (hash_api_key raw_key) [ ok candidate ↦ candidate == stored_hash | err e ↦ false ]

  hash-ne-empty : (raw_key : String) → String.◌++◌ "sha256:" (sha256_hex raw_key) ≢ ""
  hash-ne-empty raw_key e =
      ground (arith, eq_iff "sha256:" "", (append-eq-nil_iff {p = "sha256:"}).0 e)

  -- A key is accepted exactly if it is not empty and the stored hash is the prefix and its digest.
  pub verify_api_key_iff :
      (raw_key stored : String)
      → (verify_api_key raw_key stored ≡ true)
        ↔ ((raw_key ≢ "") × (stored ≡ String.◌++◌ "sha256:" (sha256_hex raw_key)))
  unfolding verify_api_key
  verify_api_key_iff raw_key stored = (
    λ h. (
      λ e. ground (arith, eq_iff raw_key ""),
      ground (arith, eq_iff (String.◌++◌ "sha256:" (sha256_hex raw_key)) stored),
    ),
    λ (n, e). ground (
      arith,
      eq_iff raw_key "",
      eq_iff stored "",
      hash-ne-empty raw_key,
      eq_iff (String.◌++◌ "sha256:" (sha256_hex raw_key)) stored,
    ),
  )
