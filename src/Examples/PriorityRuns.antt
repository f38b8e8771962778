-- ===== src/Examples/PriorityRuns.antt =====
-- Node priorities whose numbers are written as strokes.
use media_orchard.Prelude.{ℕ, zero, suc, String, ◌≡◌, refl, ap, false, some, [], ◌∷◌, All}
use media_orchard.Prelude.Results.{ok}
use media_orchard.Prelude.Int.{ℤ, pos, negsuc}
use media_orchard.Prelude.Dicts.{Dict, lookup}
use media_orchard.Shared.Texts.{has_char}
use media_orchard.Controller.Scheduler.Priorities.{
  Numerals, format_node_priorities, parse_node_priorities,
}
use media_orchard.Controller.Scheduler.Priorities.RoundTrip.{
  ReadsBack, IsPrintable, IsFresh, parse_node_priorities_lem,
}

abbrev strokes : ℕ → String
strokes zero = ""
strokes (suc n) = String.◌∷◌ "1" (strokes n)

abbrev stroke_count : String → ℕ
stroke_count String.[] = zero
stroke_count (String.◌∷◌ c s) = suc (stroke_count s)

abbrev stroke_text : ℤ → String
stroke_text (pos n) = strokes n
stroke_text (negsuc n) = "-"

abbrev pub numerals : Numerals
numerals = record {
  strip = λ text. text;
  int_of = λ text. some (pos (stroke_count text));
  int_text = stroke_text;
}

stroke_count-strokes : (n : ℕ) → stroke_count (strokes n) ≡ n
stroke_count-strokes zero = refl
stroke_count-strokes (suc n) = ap suc (stroke_count-strokes n)

strokes-no_comma : (n : ℕ) → has_char b',' (strokes n) ≡ false
unfolding has_char
strokes-no_comma zero = refl
strokes-no_comma (suc n) = strokes-no_comma n

pub numerals-ReadsBack : ReadsBack numerals
numerals-ReadsBack = record {
  int_of-int_text = λ n. ap (λ k. some (pos k)) (stroke_count-strokes n);
  no_comma = strokes-no_comma;
}

abbrev pub priorities : Dict ℤ
priorities = ("mini", pos 3) ∷ ("studio", pos 0) ∷ []

pub printable : All (IsPrintable numerals) priorities
unfolding has_char
printable = (
  record {
    number = 3;
    value = refl;
    some_key = refl;
    key_comma = refl;
    key_equals = refl;
    key_strip = refl;
    entry_strip = refl;
  },
  (
    record {
      number = 0;
      value = refl;
      some_key = refl;
      key_comma = refl;
      key_equals = refl;
      key_strip = refl;
      entry_strip = refl;
    },
    tt,
  ),
)

pub fresh : IsFresh [] priorities
unfolding IsFresh lookup
fresh = (refl, (refl, tt))

parse_node_priorities_lem_example :
    parse_node_priorities numerals (some (format_node_priorities numerals priorities))
    ≡ ok priorities
parse_node_priorities_lem_example =
    parse_node_priorities_lem numerals numerals-ReadsBack priorities printable fresh
