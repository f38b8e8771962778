-- ===== src/Worker/Shell/Words.antt =====
-- A shell reads a quoted text back as one word.
use media_orchard.Prelude.{
  ℕ, String, ◌≡◌, refl, sym, ap, ◌∙◌, inl, inr, Bool, true, false, not, ◌||◌, Option, none, some,
  arith, ◌==◌, eq_iff, nat_eq, if◌then◌else◌, nat_eq_iff, Bool-cases, and-true,
}
use Prim.Native.Char.{Char, code}
use Prim.Native.String
use text.Mathlib.TextLemmas.{nil-append, cons-append, append_assoc}
use text.Mathlib.TextEquality.{Char-path}
use media_orchard.Worker.Shell.{is_safe, all_safe, escape, quote}

-- Where a shell is in a word.
pub data Mode : Type 0 where
  bare single double : Mode

abbrev add_char : Char → Option (String × String) → Option (String × String)
add_char c none = none
add_char c (some (word, rest)) = some (String.◌∷◌ c word, rest)

-- The characters that a shell takes as they are between double quotes.
is_plain : ℕ → Bool
is_plain c = not (nat_eq c b'$' || nat_eq c b'`' || nat_eq c 92 || nat_eq c b'!')

-- The POSIX rules for one word without expansions: the word that a text begins with, and the rest.
unfoldable pub read_word : Mode → String → Option (String × String)
unfolding is_plain
read_word bare String.[] = some ("", "")
read_word single String.[] = none
read_word double String.[] = none
read_word bare (String.◌∷◌ c s) =
    let word = read_word bare s in
    let quoted = read_word single s in
    let spelled = read_word double s in
    if nat_eq (code c) 39
    then quoted
    else if nat_eq (code c) b'"'
    then spelled
    else if is_safe (code c)
    then add_char c word
    else some ("", String.◌∷◌ c s)
read_word single (String.◌∷◌ c s) =
    let word = read_word bare s in
    let quoted = read_word single s in if nat_eq (code c) 39 then word else add_char c quoted
read_word double (String.◌∷◌ c s) =
    let word = read_word bare s in
    let spelled = read_word double s in
    if nat_eq (code c) b'"' then word else if is_plain (code c) then add_char c spelled else none

-- A text that does not go on with the word before it.
unfoldable pub EndsWord : String → Type 0
EndsWord rest = read_word bare rest ≡ some ("", rest)

safe-plain : (c : ℕ) → is_safe c ≡ true → (nat_eq c 39 ≡ false) × (nat_eq c b'"' ≡ false)
unfolding is_safe
safe-plain c h = (ground arith, ground arith)

-- A text of safe characters is a word as it stands.
safe-bare :
    (s rest : String)
    → all_safe s ≡ true
    → EndsWord rest
    → read_word bare (String.◌++◌ s rest) ≡ some (s, rest)
unfolding all_safe read_word EndsWord
safe-bare String.[] rest h e = rw (nil-append rest) e
safe-bare (String.◌∷◌ c s) rest h e =
    let (safe, more) = and-true (is_safe (code c)) _ h in
    let (a, b) = safe-plain (code c) safe in
    rw (cons-append c s rest, a, b, safe, safe-bare s rest more e) refl

-- What a shell does at the quote that ends a quoted part.
closing : (rest : String) → read_word single (String.◌++◌ "'" rest) ≡ read_word bare rest
unfolding read_word
closing rest = rw (cons-append "'" "" rest, nil-append rest) refl

-- What it does at the quote that begins one.
opening : (s : String) → read_word bare (String.◌++◌ "'" s) ≡ read_word single s
unfolding read_word
opening s = rw (cons-append "'" "" s, nil-append s) refl

empty_quotes : (rest : String) → read_word bare (String.◌++◌ "''" rest) ≡ read_word bare rest
unfolding read_word
empty_quotes rest = rw (cons-append "'" "'" rest) (closing rest)

-- A quote in the text, which is written in double quotes of its own.
quoted_quote :
    (s : String) → read_word single (String.◌++◌ "'\"'\"'" s) ≡ add_char "'" (read_word single s)
unfolding read_word is_plain
quoted_quote s =
    rw
      (
        cons-append "'" "\"'\"'" s,
        cons-append "\"" "'\"'" s,
        cons-append "'" "\"'" s,
        cons-append "\"" "'" s,
        cons-append "'" "" s,
        nil-append s,
      )
      refl

escape-single :
    (s rest : String)
    → EndsWord rest
    → read_word single (String.◌++◌ (escape s) rest) ≡ some (s, rest)
unfolding escape read_word EndsWord
escape-single String.[] rest e = closing rest ∙ e
escape-single (String.◌∷◌ c s) rest e = elim (Bool-cases (nat_eq (code c) 39)) [
  | inl q ↦
      rw
        (
          q,
          append_assoc "'\"'\"'" (escape s) rest,
          quoted_quote (String.◌++◌ (escape s) rest),
          escape-single s rest e,
        )
        (ap (λ d. some (String.◌∷◌ d s, rest))
          (sym (Char-path c "'" ((nat_eq_iff (code c) 39).0 q))))
  | inr q ↦ rw (q, cons-append c (escape s) rest, q, escape-single s rest e) refl
]

-- Before anything that ends a word, a shell reads a quoted text as one word, which is the text.
pub read_word-quote :
    (s rest : String) → EndsWord rest → read_word bare (String.◌++◌ (quote s) rest) ≡ some (s, rest)
unfolding quote EndsWord
read_word-quote s rest e = elim (Bool-cases (s == "")) [
  | inl h ↦ rw ((eq_iff s "").0 h) (empty_quotes rest ∙ e)
  | inr h ↦ elim (Bool-cases (all_safe s)) [
    | inl safe ↦ rw (h, safe) (safe-bare s rest safe e)
    | inr n ↦
        rw (h, n, append_assoc "'" (escape s) rest)
          (opening (String.◌++◌ (escape s) rest) ∙ escape-single s rest e)
  ]
]
