-- ===== src/Worker/Srt.antt =====
-- Subtitles: format_srt_timestamp and _segments_to_srt of mediaorchard/worker/real_media_smoke.py.
pub mod Clock
use media_orchard.Prelude.{ℕ, suc, ◌-◌, String, none, some, List, [], ◌∷◌, if◌then◌else◌}
use Prim.Native.Nat.{◌/◌, ◌%◌}
use media_orchard.Prelude.Results.{Result, ok, err, ◌>>=◌}
use media_orchard.Prelude.Floats.{Floats}
use media_orchard.Prelude.Int.{ℤ, pos, negsuc}
use media_orchard.Prelude.Json.{
  Json, Items, Fields, bool, int, float, str, arr, obj, nil, cons, end, get,
}
use media_orchard.Shared.Texts.{concat, join}
use media_orchard.Worker.Execution.{is_truthy}
use media_orchard.Worker.Machine.{Machine}

-- divmod(number, divisor) for a positive divisor: the quotient is rounded down.
unfoldable pub floor_divmod : ℤ → ℕ → ℤ × ℕ
floor_divmod (pos n) divisor = (pos (n / divisor), n % divisor)
floor_divmod (negsuc n) divisor = (negsuc (n / divisor), divisor - 1 - n % divisor)

-- hours, minutes, secs and millis of a number of milliseconds
unfoldable pub srt_fields : ℤ → ℤ × ℕ × ℕ × ℕ
unfolding floor_divmod
srt_fields milliseconds =
    let (hours, remainder) = floor_divmod milliseconds 3600000 in
    (hours, remainder / 60000, remainder % 60000 / 1000, remainder % 60000 % 1000)

module _ {F S : Type 0} (fl : Floats F) (m : Machine F S) where
  -- The text of these fields.
  unfoldable pub srt_text : ℤ × ℕ × ℕ × ℕ → String
  srt_text (hours, minutes, secs, millis) = concat (
      m.pad 2 hours
      ∷ ":"
      ∷ m.pad 2 (pos minutes)
      ∷ ":"
      ∷ m.pad 2 (pos secs)
      ∷ ","
      ∷ m.pad 3 (pos millis)
      ∷ [])

  unfoldable pub format_srt_timestamp : F → Result String String
  unfolding srt_fields srt_text
  format_srt_timestamp seconds =
      m.milliseconds seconds >>= λ number. ok (srt_text (srt_fields number))

  -- float(value)
  unfoldable pub float_of : Json F → Result String F
  float_of (bool b) = ok (fl.of_int (if b then pos 1 else pos 0))
  float_of (int n) = ok (fl.of_int n)
  float_of (float x) = ok x
  float_of (str s) = elim (fl.of_text s) [ none ↦ err (m.bad_type (str s)) | some x ↦ ok x ]
  float_of value = err (m.bad_type value)

  -- segment.get(key, 0.0)
  abbrev time_of : String → Fields F → Json F
  time_of key segment = elim (get key segment) [ none ↦ float (fl.lit 0 1) | some value ↦ value ]

  -- (payload.get("text") or "").strip()
  unfoldable pub stripped_text : Fields F → Result String String
  stripped_text payload = elim (get "text" payload) [
    | none ↦ ok (m.strip "")
    | some (str s) ↦ ok (m.strip s)
    | some value ↦ if is_truthy fl value then err (m.bad_type value) else ok (m.strip "")
  ]

  -- One chunk of _segments_to_srt.
  unfoldable pub segment_chunk : ℕ → Json F → Result String String
  unfolding format_srt_timestamp float_of stripped_text
  segment_chunk index (obj segment) = do
    start_seconds ← float_of (time_of "start" segment)
    start ← format_srt_timestamp start_seconds
    end_seconds ← float_of (time_of "end" segment)
    finish ← format_srt_timestamp end_seconds
    text ← stripped_text segment
    ok (concat (m.int_text (pos index) ∷ "\n" ∷ start ∷ " --> " ∷ finish ∷ "\n" ∷ text ∷ "\n" ∷ []))
  segment_chunk index value = err (m.bad_type value)

  unfoldable pub segment_chunks : ℕ → Items F → Result String (List String)
  unfolding segment_chunk
  segment_chunks index nil = ok []
  segment_chunks index (cons segment segments) = do
    chunk ← segment_chunk index segment
    chunks ← segment_chunks (suc index) segments
    ok (chunk ∷ chunks)

  -- _segments_to_srt; anything but a list has no segments to go through.
  unfoldable pub segments_to_srt : Json F → Result String String
  unfolding segment_chunks
  segments_to_srt (arr segments) = segment_chunks 1 segments >>= λ chunks. ok (join "\n" chunks)
  segments_to_srt value = err (m.bad_type value)
