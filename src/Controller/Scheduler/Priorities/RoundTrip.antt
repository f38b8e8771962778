-- ===== src/Controller/Scheduler/Priorities/RoundTrip.antt =====
-- Node priorities that are printed are read back.
use media_orchard.Prelude.{
  ℕ, String, ◌≡◌, refl, sym, ap, ◌∙◌, inl, inr, Bool, true, false, ◌||◌, none, some, [], ◌∷◌, ◌++◌,
  map, arith, ◌==◌, eq_iff, nat_eq, nat_eq_iff, Bool-cases, All,
}
use Prim.Native.Char.{Char, code}
use Prim.Native.String
use text.Mathlib.TextLemmas.{nil-append, cons-append, append-nil, append-ne-nil_of_right_ne-nil}
use mathlib.Core.List as ListLaws
use media_orchard.Prelude.Results.{ok}
use media_orchard.Prelude.Int.{ℤ, pos, ltb_ℤ}
use media_orchard.Prelude.Dicts.{Dict, lookup, insert}
use media_orchard.Shared.Texts.{join, has_char, after_char, split_on, split_on_none}
use media_orchard.Controller.Scheduler.Priorities.{
  Numerals, before_char, entry_text, format_node_priorities, parse_item, parse_entries,
  parse_node_priorities,
}

or-false : (a b : Bool) → (a || b) ≡ false → (a ≡ false) × (b ≡ false)
or-false a b h = ground arith

-- A separator ends the part before it.
split_on-append :
    (k : ℕ) (c : Char) (a rest : String)
    → code c ≡ k
    → has_char k a ≡ false
    → split_on k (String.◌++◌ a (String.◌∷◌ c rest)) ≡ a ∷ split_on k rest
unfolding split_on has_char
split_on-append k c String.[] rest e h =
    rw (nil-append (String.◌∷◌ c rest)) (rw ((nat_eq_iff (code c) k).1 e) refl)
split_on-append k c (String.◌∷◌ d a) rest e h =
    let (x, y) = or-false (nat_eq (code d) k) _ h in
    rw (cons-append d a (String.◌∷◌ c rest), x, split_on-append k c a rest e y) refl

before_char-append :
    (k : ℕ) (c : Char) (a rest : String)
    → code c ≡ k
    → has_char k a ≡ false
    → (before_char k (String.◌++◌ a (String.◌∷◌ c rest)) ≡ a)
      × (after_char k (String.◌++◌ a (String.◌∷◌ c rest)) ≡ rest)
      × (has_char k (String.◌++◌ a (String.◌∷◌ c rest)) ≡ true)
unfolding before_char after_char has_char
before_char-append k c String.[] rest e h =
    rw (nil-append (String.◌∷◌ c rest)) (rw ((nat_eq_iff (code c) k).1 e) (refl, refl, refl))
before_char-append k c (String.◌∷◌ d a) rest e h =
    let (x, y) = or-false (nat_eq (code d) k) _ h in
    let (p, q, r) = before_char-append k c a rest e y in
    rw (cons-append d a (String.◌∷◌ c rest), x, p, q, r) (refl, refl, refl)

has_char-append :
    (k : ℕ) (a b : String) → has_char k (String.◌++◌ a b) ≡ (has_char k a || has_char k b)
unfolding has_char
has_char-append k String.[] b = rw (nil-append b) refl
has_char-append k (String.◌∷◌ c a) b = rw (cons-append c a b, has_char-append k a b) (ground arith)

text-some :
    (a : String) (c : Char) (rest : String) → (String.◌++◌ a (String.◌∷◌ c rest) == "") ≡ false
text-some a c rest = elim (Bool-cases (String.◌++◌ a (String.◌∷◌ c rest) == "")) [
  | inl e ↦
      elim (append-ne-nil_of_right_ne-nil a {t = String.◌∷◌ c rest} (λ n. cc)
        ((eq_iff _ _).0 e)) [ ]
  | inr e ↦ e
]

not_negative : (n : ℕ) → ltb_ℤ (pos n) (pos 0) ≡ false
not_negative n = ground arith

literal-append : (c : Char) (s : String) → String.◌++◌ (String.◌∷◌ c "") s ≡ String.◌∷◌ c s
literal-append c s = rw (cons-append c "" s, nil-append s) refl

-- What Python's int() and str() do to the numbers of these priorities, and their texts.
pub record ReadsBack (numerals : Numerals) : Type 0 where
  pub int_of-int_text : (n : ℕ) → numerals.int_of (numerals.int_text (pos n)) ≡ some (pos n)
  pub no_comma : (n : ℕ) → has_char b',' (numerals.int_text (pos n)) ≡ false

-- A priority that its text stands for: a key with no separator in it, which strip() leaves alone, as it
-- does the whole entry, and no negative number.
pub record IsPrintable (numerals : Numerals) (entry : String × ℤ) : Type 0 where
  pub number : ℕ
  pub value : entry.1 ≡ pos number
  pub some_key : (entry.0 == "") ≡ false
  pub key_comma : has_char b',' entry.0 ≡ false
  pub key_equals : has_char b'=' entry.0 ≡ false
  pub key_strip : numerals.strip entry.0 ≡ entry.0
  pub entry_strip : numerals.strip (entry_text numerals entry) ≡ entry_text numerals entry

-- No key of the second dict is in the first, or comes twice.
unfoldable pub IsFresh : Dict ℤ → Dict ℤ → Type 0
IsFresh before [] = Unit
IsFresh before ((k, v) ∷ d) = (lookup k before ≡ none) × IsFresh (before ++ ((k, v) ∷ [])) d

insert-new :
    (k : String) (v : ℤ) (d : Dict ℤ) → lookup k d ≡ none → insert k v d ≡ d ++ ((k, v) ∷ [])
unfolding insert lookup
insert-new k v [] h = refl
insert-new k v ((j, w) ∷ d) h = elim (Bool-cases (j == k)) [
  | inl e ↦ cc (rw e at h)
  | inr e ↦ rw (e, insert-new k v d (rw e at h)) refl
]

module _ (numerals : Numerals) (reads : ReadsBack numerals) where
  entry_text-shape :
      (key : String) (value : ℤ)
      → entry_text numerals (key, value)
        ≡ String.◌++◌ key (String.◌∷◌ "=" (numerals.int_text value))
  entry_text-shape key value =
      ap (String.◌++◌ key)
        (literal-append "=" _ ∙ ap (λ s. String.◌∷◌ "=" s) (append-nil (numerals.int_text value)))

  parse_item-printed :
      (key : String) (value : ℤ) (before : Dict ℤ)
      → IsPrintable numerals (key, value)
      → lookup key before ≡ none
      → parse_item numerals (numerals.strip (entry_text numerals (key, value))) before
        ≡ ok (before ++ ((key, value) ∷ []))
  unfolding parse_item
  parse_item-printed key value before p fresh =
      let (b, a, h) = before_char-append b'=' "=" key (numerals.int_text value) refl p.key_equals in
      rw
        (
          p.entry_strip,
          entry_text-shape key value,
          text-some key "=" (numerals.int_text value),
          b,
          p.key_strip,
          h,
          p.some_key,
          a,
          p.value,
          reads.int_of-int_text p.number,
          not_negative p.number,
        )
        (ap ok (insert-new key (pos p.number) before fresh))

  parse_entries-printed :
      (d before : Dict ℤ)
      → All (IsPrintable numerals) d
      → IsFresh before d
      → parse_entries numerals (map (entry_text numerals) d) before ≡ ok (before ++ d)
  unfolding parse_entries IsFresh
  parse_entries-printed [] before p f = ap ok (sym (ListLaws.append-nil before))
  parse_entries-printed ((key, value) ∷ d) before (p, ps) (f, fs) =
      rw
        (
          parse_item-printed key value before p f,
          parse_entries-printed d (before ++ ((key, value) ∷ [])) ps fs,
        )
        (ap ok (ListLaws.append_assoc before ((key, value) ∷ []) d))

  entry_text-no_comma :
      (key : String) (value : ℤ)
      → IsPrintable numerals (key, value)
      → has_char b',' (entry_text numerals (key, value)) ≡ false
  unfolding has_char
  entry_text-no_comma key value p =
      rw
        (
          entry_text-shape key value,
          has_char-append b',' key (String.◌∷◌ "=" (numerals.int_text value)),
          p.key_comma,
          p.value,
          reads.no_comma p.number,
        )
        refl

  split-join :
      (entry : String × ℤ) (d : Dict ℤ)
      → All (IsPrintable numerals) (entry ∷ d)
      → split_on b',' (join "," (map (entry_text numerals) (entry ∷ d)))
        ≡ map (entry_text numerals) (entry ∷ d)
  split-join (key, value) [] (p, _) = split_on_none b',' _ (entry_text-no_comma key value p)
  split-join (key, value) (next ∷ d) (p, ps) =
      ap (λ s. split_on b',' (String.◌++◌ (entry_text numerals (key, value)) s))
        (literal-append "," _)
      ∙ split_on-append b',' "," (entry_text numerals (key, value)) _ refl
          (entry_text-no_comma key value p)
      ∙ ap (λ l. entry_text numerals (key, value) ∷ l) (split-join next d ps)

  format-some :
      (entry : String × ℤ) (d : Dict ℤ)
      → (join "," (map (entry_text numerals) (entry ∷ d)) == "") ≡ false
  format-some (key, value) [] = rw (entry_text-shape key value) (text-some key "=" _)
  format-some (key, value) (next ∷ d) =
      rw (literal-append "," (join "," (map (entry_text numerals) (next ∷ d)))) (text-some _ "," _)

  -- Where int() and str() read back numbers without a comma: priorities that are printed by
  -- `format_node_priorities` are read back, in their order, if their keys are distinct and not empty,
  -- have no separator and nothing to strip, and no number is negative.
  pub parse_node_priorities_lem :
      (priorities : Dict ℤ)
      → All (IsPrintable numerals) priorities
      → IsFresh [] priorities
      → parse_node_priorities numerals (some (format_node_priorities numerals priorities))
        ≡ ok priorities
  unfolding parse_node_priorities format_node_priorities
  parse_node_priorities_lem [] p f = refl
  parse_node_priorities_lem (entry ∷ d) p f =
      rw (format-some entry d, split-join entry d p) (parse_entries-printed (entry ∷ d) [] p f)
