-- ===== src/DateTime/Laws.antt =====
-- The round trips of dates and times, wildcards included.
use bacnet_go.Base.{ℕ, ◌+◌, ◌%◌, ◌≤◌, ◌<◌, ◌≡◌, ◌⊎◌, [], ◌∷◌, ◌==◌, if◌then◌else◌, arith}
use bacnet_go.Go.{ok, ◌>>=◌, index, IsByte}
use bacnet_go.DateTime.{
  Date, Time, date_wildcard_year, decode_date, encode_date, decode_time, encode_time,
}

-- The years that the wire format has room for, and the wildcard.
abbrev IsYear : ℕ → Type 0
IsYear year = ((1900 ≤ year) × (year ≤ 2154)) ⊎ (year ≡ date_wildcard_year)

-- A date whose year is the wildcard or within 1900 to 2154 comes back, whatever its other fields.
decode_date-encode_date : (d : Date) → IsYear d.year → decode_date (encode_date d) ≡ ok d
unfolding decode_date encode_date index
decode_date-encode_date d h = ground arith

-- Every year below 65535 comes back as the year of 1900 to 2154 that differs from it by a multiple
-- of 256, but 2155, and each year that differs from it by a multiple of 256, as the wildcard.
pub decode_date-encode_date_wraps :
    (d : Date)
    → d.year < date_wildcard_year
    → decode_date (encode_date d)
      ≡ ok (record d {
        year =
            if (d.year + 148) % 256 == 255 then date_wildcard_year else (d.year + 148) % 256 + 1900;
      })
unfolding decode_date encode_date index
decode_date-encode_date_wraps d h = ground arith

-- Four bytes, the first of them below 256, are the encoding of the date that they decode to.
encode_date-decode_date :
    (year month day day_of_week : ℕ)
    → IsByte year
    → (do d ← decode_date (year ∷ month ∷ day ∷ day_of_week ∷ []); ok (encode_date d))
      ≡ ok (year ∷ month ∷ day ∷ day_of_week ∷ [])
unfolding decode_date encode_date index
encode_date-decode_date year month day day_of_week h = ground arith

decode_time-encode_time : (t : Time) → decode_time (encode_time t) ≡ ok t
unfolding decode_time encode_time index
decode_time-encode_time t = ground arith
