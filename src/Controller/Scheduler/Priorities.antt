-- ===== src/Controller/Scheduler/Priorities.antt =====
-- The texts of node priorities: parse_node_priorities and format_node_priorities of
-- mediaorchard/controller/scheduler/policies.py.
pub mod RoundTrip
use media_orchard.Prelude.{
  ℕ, String, not, ◌||◌, Option, none, some, List, [], ◌∷◌, map, ◌==◌, nat_eq, if◌then◌else◌,
}
use Prim.Native.Char.{code}
use Prim.Native.String
use media_orchard.Prelude.Results.{Result, ok, err, ◌>>=◌}
use media_orchard.Prelude.Int.{ℤ, pos, ltb_ℤ}
use media_orchard.Prelude.Dicts.{Dict, insert}
use media_orchard.Shared.Texts.{concat, join, has_char, after_char, split_on}

-- str.strip, int(text), where `none` is a ValueError, and str(int).
pub record Numerals : Type 0 where
  pub strip : String → String
  pub int_of : String → Option ℤ
  pub int_text : ℤ → String

-- text.partition("=")[0]
unfoldable pub before_char : ℕ → String → String
before_char k String.[] = ""
before_char k (String.◌∷◌ c s) =
    let rest = before_char k s in if nat_eq (code c) k then "" else String.◌∷◌ c rest

module _ (numerals : Numerals) where
  abbrev pub entry_text : String × ℤ → String
  entry_text (key, value) = concat (key ∷ "=" ∷ numerals.int_text value ∷ [])

  unfoldable pub format_node_priorities : Dict ℤ → String
  format_node_priorities priorities = join "," (map entry_text priorities)

  -- `int(value)` and the test of its sign, for a stripped key.
  abbrev pub checked_value : String → Option ℤ → Result String ℤ
  checked_value key none = err (concat ("node priority for " ∷ key ∷ " must be an integer" ∷ []))
  checked_value key (some n) =
      if ltb_ℤ n (pos 0)
      then err (concat ("node priority for " ∷ key ∷ " must be non-negative" ∷ []))
      else ok n

  abbrev pub add_checked : String → Result String ℤ → Dict ℤ → Result String (Dict ℤ)
  add_checked key (err e) priorities = err e
  add_checked key (ok n) priorities = ok (insert key n priorities)

  -- One entry, stripped: the dict after it.
  unfoldable pub parse_item : String → Dict ℤ → Result String (Dict ℤ)
  unfolding before_char
  parse_item item priorities =
      let key = numerals.strip (before_char b'=' item) in
      if item == ""
      then ok priorities
      else if not (has_char b'=' item) || key == ""
      then err "node priority must use key=value"
      else add_checked key (checked_value key (numerals.int_of (after_char b'=' item))) priorities

  unfoldable pub parse_entries : List String → Dict ℤ → Result String (Dict ℤ)
  unfolding parse_item
  parse_entries [] priorities = ok priorities
  parse_entries (entry ∷ entries) priorities =
      parse_item (numerals.strip entry) priorities >>= λ more. parse_entries entries more

  abbrev pub parse_text : String → Result String (Dict ℤ)
  parse_text raw = if raw == "" then ok [] else parse_entries (split_on b',' raw) []

  unfoldable pub parse_node_priorities : Option String → Result String (Dict ℤ)
  parse_node_priorities none = ok []
  parse_node_priorities (some raw) = parse_text raw
