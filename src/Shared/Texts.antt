-- ===== src/Shared/Texts.antt =====
-- Texts by their characters: code points, splitting, and membership of a character.
use media_orchard.Prelude.{
  ℕ, ◌+◌, String, ◌≡◌, refl, ap, subst, inl, inr, Bool, true, false, ◌&&◌, ◌||◌, List, [], ◌∷◌,
  arith, ◌==◌, eq_iff, eq_refl, ltb, leb, nat_eq, if◌then◌else◌, Bool-cases, any, All,
}
use Prim.Native.Char.{Char, code}
use Prim.Native.String

abbrev pub codes : String → List ℕ
codes String.[] = []
codes (String.◌∷◌ c s) = code c ∷ codes s

-- "".join(texts)
abbrev pub concat : List String → String
concat [] = ""
concat (text ∷ texts) = String.◌++◌ text (concat texts)

-- separator.join(texts)
abbrev pub join : String → List String → String
join separator [] = ""
join separator (text ∷ []) = text
join separator (text ∷ next ∷ texts) =
    String.◌++◌ text (String.◌++◌ separator (join separator (next ∷ texts)))

-- Python's `<` on texts.
abbrev pub codes_lt : List ℕ → List ℕ → Bool
codes_lt xs [] = false
codes_lt [] (y ∷ ys) = true
codes_lt (x ∷ xs) (y ∷ ys) = ltb x y || (nat_eq x y && codes_lt xs ys)

abbrev pub insert_sorted : String → List String → List String
insert_sorted text [] = text ∷ []
insert_sorted text (next ∷ texts) =
    let rest = insert_sorted text texts in
    if text == next
    then next ∷ texts
    else if codes_lt (codes text) (codes next)
    then text ∷ next ∷ texts
    else next ∷ rest

-- sorted(set(texts))
abbrev pub sorted_set : List String → List String
sorted_set [] = []
sorted_set (text ∷ texts) = insert_sorted text (sorted_set texts)

-- text in texts
abbrev pub has_text : String → List String → Bool
has_text text texts = any (λ t. t == text) texts

-- char in s
unfoldable pub has_char : ℕ → String → Bool
has_char k String.[] = false
has_char k (String.◌∷◌ c s) = nat_eq (code c) k || has_char k s

-- str.lower() on a code point below 128; the program compares the result with ASCII text only, to
-- which no other code point of the same length is lowered.
abbrev pub lower_code : ℕ → ℕ
lower_code c = if leb b'A' c && leb c b'Z' then c + 32 else c

-- list.startswith
abbrev pub is_prefix : List ℕ → List ℕ → Bool
is_prefix [] ys = true
is_prefix (x ∷ xs) [] = false
is_prefix (x ∷ xs) (y ∷ ys) = nat_eq x y && is_prefix xs ys

abbrev pub cons_char : Char → List String → List String
cons_char c [] = String.◌∷◌ c String.[] ∷ []
cons_char c (part ∷ parts) = String.◌∷◌ c part ∷ parts

-- s.split(char)
unfoldable pub split_on : ℕ → String → List String
split_on k String.[] = "" ∷ []
split_on k (String.◌∷◌ c s) =
    let rest = split_on k s in if nat_eq (code c) k then "" ∷ rest else cons_char c rest

-- s.split(char, 1)[1], for a text that has the character
unfoldable pub after_char : ℕ → String → String
after_char k String.[] = ""
after_char k (String.◌∷◌ c s) = let rest = after_char k s in if nat_eq (code c) k then s else rest

pub split_on_none : (k : ℕ) (s : String) → has_char k s ≡ false → split_on k s ≡ s ∷ []
unfolding split_on has_char
split_on_none k String.[] h = refl
split_on_none k (String.◌∷◌ c s) h = ground (arith, split_on_none k s)

pub All-members :
    (P : String → Type 0) (texts : List String)
    → ((o : String) → has_text o texts ≡ true → P o)
    → All P texts
All-members P [] l = tt
All-members P (text ∷ texts) l =
    (l text (ground (arith, eq_refl text)), All-members P texts (λ o h. l o (ground arith)))

pub members-All :
    (P : String → Type 0) (texts : List String) (o : String)
    → All P texts
    → has_text o texts ≡ true
    → P o
members-All P [] o a h = cc
members-All P (text ∷ texts) o (p, a) h = elim (Bool-cases (text == o)) [
  | inl e ↦ subst P ((eq_iff text o).0 e) p
  | inr e ↦ members-All P texts o a (ground arith)
]

-- A text that is not in a list is none of its members.
pub apart :
    (texts : List String) (q name : String)
    → has_text q texts ≡ false
    → has_text name texts ≡ true
    → (q == name) ≡ false
apart texts q name out h = elim (Bool-cases (q == name)) [
  | inl e ↦ cc (ap (λ x. has_text x texts) ((eq_iff q name).0 e))
  | inr e ↦ e
]
