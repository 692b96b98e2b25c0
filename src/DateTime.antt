-- ===== src/DateTime.antt =====
-- datetime.go: the four-byte dates and times.
pub mod Laws
pub mod Text
use bacnet_go.Base.{ℕ, ◌+◌, ◌-◌, ◌%◌, ◌^◌, List, [], ◌∷◌, ◌==◌, if◌then◌else◌}
use bacnet_go.Go.{Result, ok, panic, ◌>>=◌, index}
use bacnet_go.Wire.ApplicationTag
use bacnet_go.Wire.Number.{application_tagged}

pub record Date : Type 0 where
  pub year : ℕ
  pub month : ℕ
  pub day : ℕ
  pub day_of_week : ℕ

pub record Time : Type 0 where
  pub hour : ℕ
  pub minute : ℕ
  pub second : ℕ
  pub hundredths : ℕ

abbrev pub date_wildcard_year : ℕ
date_wildcard_year = 0xFFFF

-- `payload` is indexed with no test: shorter payloads panic.
unfoldable pub decode_date : List ℕ → Result Date
decode_date payload = do
  month ← index payload 1
  day ← index payload 2
  day_of_week ← index payload 3
  first ← index payload 0
  let year = if first == 0xFF then date_wildcard_year else first + 1900
  ok (record { year = year; month = month; day = day; day_of_week = day_of_week })

-- `uint8(d.Year - 1900)`, a subtraction of uint16.
unfoldable pub encode_date : Date → List ℕ
encode_date d =
    (if d.year == date_wildcard_year then 0xFF else (d.year + 2 ^ 16 - 1900) % 2 ^ 16 % 2 ^ 8)
    ∷ d.month
    ∷ d.day
    ∷ d.day_of_week
    ∷ []

unfoldable pub encode_date_tag : Date → List ℕ
encode_date_tag d = application_tagged ApplicationTag.date (encode_date d)

unfoldable pub decode_time : List ℕ → Result Time
decode_time payload = do
  hour ← index payload 0
  minute ← index payload 1
  second ← index payload 2
  hundredths ← index payload 3
  ok (record { hour = hour; minute = minute; second = second; hundredths = hundredths })

unfoldable pub encode_time : Time → List ℕ
encode_time t = t.hour ∷ t.minute ∷ t.second ∷ t.hundredths ∷ []

unfoldable pub encode_time_tag : Time → List ℕ
encode_time_tag t = application_tagged ApplicationTag.time (encode_time t)
