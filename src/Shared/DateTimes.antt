-- ===== src/Shared/DateTimes.antt =====
-- Python's `datetime`, and the `UTCDateTime` column of mediaorchard/controller/db/models.py.
use media_orchard.Prelude.{ℕ, Option, none, some, ◌≡◌, refl, ◌⊎◌, inl, inr}

-- `naive t` is a wall-clock time with no zone, `aware t` the instant t with a zone; both count
-- microseconds. The program never looks at a zone's name or offset.
pub data DateTime : Type 0 where
  naive : ℕ → DateTime
  aware : ℕ → DateTime

-- `if value.tzinfo is None: value = value.replace(tzinfo=UTC)`, as an instant
unfoldable pub instant : DateTime → ℕ
instant (naive t) = t
instant (aware t) = t

-- process_bind_param: what the database stores
unfoldable pub bind_param : Option DateTime → Option DateTime
unfolding instant
bind_param none = none
bind_param (some t) = some (naive (instant t))

-- process_result_value: what the program reads back
unfoldable pub result_value : Option DateTime → Option DateTime
result_value none = none
result_value (some (naive t)) = some (aware t)
result_value (some (aware t)) = some (aware t)

-- What is read back is the time that was stored, with a zone; no time stays no time.
pub result_value-bind_param :
    (value : Option DateTime)
    → ((value ≡ none) × (result_value (bind_param value) ≡ none))
      ⊎ ((t : DateTime) × (value ≡ some t)
          × (result_value (bind_param value) ≡ some (aware (instant t))))
unfolding result_value bind_param
result_value-bind_param none = inl (refl, refl)
result_value-bind_param (some t) = inr (t, refl, refl)
