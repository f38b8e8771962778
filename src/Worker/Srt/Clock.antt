-- ===== src/Worker/Srt/Clock.antt =====
-- What the fields of a subtitle's time say.
use media_orchard.Prelude.{ℕ, ◌+◌, ◌-◌, ◌*◌, ◌<◌, ◌≡◌, ap, ◌∙◌, arith}
use Prim.Native.Nat.{◌/◌, ◌%◌}
use media_orchard.Prelude.Int.{ℤ, pos, negsuc, ◌+ℤ◌, ◌*ℤ◌}
use media_orchard.Worker.Srt.{srt_fields}

parts-sum : (r : ℕ) → r / 60000 * 60000 + r % 60000 / 1000 * 1000 + r % 60000 % 1000 ≡ r
parts-sum r = omega arith

hours-pos : (q r : ℕ) → pos q *ℤ pos 3600000 +ℤ pos r ≡ pos (q * 3600000 + r)
unfolding ◌+ℤ◌ ◌*ℤ◌
hours-pos q r = ground arith

hours-negsuc :
    (q r : ℕ)
    → r < 3600000
    → negsuc q *ℤ pos 3600000 +ℤ pos (3599999 - r) ≡ negsuc (q * 3600000 + r)
unfolding ◌+ℤ◌ ◌*ℤ◌
hours-negsuc q r h = ground arith

-- For any number of milliseconds, negative ones included: the fields add up to it, and the minutes,
-- seconds and milliseconds are in their ranges.
pub srt_fields-sum :
    (number : ℤ)
    → let (hours, minutes, secs, millis) = srt_fields number in
      (hours *ℤ pos 3600000 +ℤ pos (minutes * 60000 + secs * 1000 + millis) ≡ number)
      × (minutes < 60)
      × (secs < 60)
      × (millis < 1000)
unfolding srt_fields
srt_fields-sum (pos n) = (
  ap (λ r. pos (n / 3600000) *ℤ pos 3600000 +ℤ pos r) (parts-sum (n % 3600000))
      ∙ hours-pos (n / 3600000) (n % 3600000)
      ∙ ap pos (omega arith),
  omega arith,
  omega arith,
  omega arith,
)
srt_fields-sum (negsuc n) = (
  ap (λ r. negsuc (n / 3600000) *ℤ pos 3600000 +ℤ pos r) (parts-sum (3599999 - n % 3600000))
      ∙ hours-negsuc (n / 3600000) (n % 3600000) (omega arith)
      ∙ ap negsuc (omega arith),
  omega arith,
  omega arith,
  omega arith,
)
