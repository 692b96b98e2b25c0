-- ===== src/DateTime/Text.antt =====
-- datetime.go: the `String` methods, which print a wildcard as `?`.
use Prim.Native.Char.{Char, code}
use Prim.Native.String.{String, ◌++◌}
use bacnet_go.Base.{ℕ, ◌≡◌, ◌≢◌, refl, ap, true, ◌==◌, if◌then◌else◌, inl, inr, arith}
use bacnet_go.DateTime.{Date, Time, date_wildcard_year}
use bacnet_go.Enumeration.Decimal.{padded, padded-injective, IsNoDigit, lacks-padded}
use bacnet_go.Enumeration.Separator.{lacks, append-separated}

-- `DateWildcardField` and `TimeWildcardField`
abbrev wildcard_field : ℕ
wildcard_field = 0xFF

field_text : ℕ → ℕ → ℕ → String
field_text wildcard width n = if n == wildcard then "?" else padded width n

unfoldable pub date_text : Date → String
unfolding field_text
date_text d =
    field_text date_wildcard_year 4 d.year
    ++ String.◌∷◌ "-"
        (field_text wildcard_field 2 d.month ++ String.◌∷◌ "-" (field_text wildcard_field 2 d.day))

unfoldable pub time_text : Time → String
unfolding field_text
time_text t =
    field_text wildcard_field 2 t.hour
    ++ String.◌∷◌ ":" (
        field_text wildcard_field 2 t.minute
        ++ String.◌∷◌ ":" (
            field_text wildcard_field 2 t.second
            ++ String.◌∷◌ "." (field_text wildcard_field 2 t.hundredths)))

lacks-field_text :
    (c wildcard width n : ℕ)
    → IsNoDigit c
    → lacks c "?" ≡ true
    → lacks c (field_text wildcard width n) ≡ true
unfolding field_text
lacks-field_text c wildcard width n d h = ground (arith, h, lacks-padded c width n d)

padded_no_wildcard : (width n : ℕ) → ◌≢◌ {A = String} (padded width n) "?"
unfolding lacks
padded_no_wildcard width n e =
    ground (arith, ap (lacks b'?') e, lacks-padded b'?' width n (inr (omega arith)))

field_text-injective :
    (wildcard width a b : ℕ) → field_text wildcard width a ≡ field_text wildcard width b → a ≡ b
unfolding field_text
field_text-injective wildcard width a b e =
    ground
      (arith, e, padded-injective width a b, padded_no_wildcard width a, padded_no_wildcard width b)

-- The first of two fields, and the text behind the separator.
field_text_separated :
    (c : Char) (wildcard width a b : ℕ) (t t' : String)
    → IsNoDigit (code c)
    → lacks (code c) "?" ≡ true
    → field_text wildcard width a ++ String.◌∷◌ c t ≡ field_text wildcard width b ++ String.◌∷◌ c t'
    → (a ≡ b) × (t ≡ t')
field_text_separated c wildcard width a b t t' d h e =
    let (same, rest) =
      append-separated c _ _ t t' (lacks-field_text (code c) wildcard width a d h)
        (lacks-field_text (code c) wildcard width b d h) e in
    (field_text-injective wildcard width a b same, rest)

-- The text of a date tells its year, month and day, wildcards included; it leaves the day of the
-- week out.
date_text_lem :
    (d d' : Date)
    → date_text d ≡ date_text d'
    → (d.year ≡ d'.year) × (d.month ≡ d'.month) × (d.day ≡ d'.day)
unfolding date_text lacks
date_text_lem d d' e =
    let (years, rest) =
      field_text_separated "-" date_wildcard_year 4 d.year d'.year _ _ (inl (omega arith)) refl e in
    let (months, days) =
      field_text_separated "-" wildcard_field 2 d.month d'.month _ _ (inl (omega arith)) refl
        rest in
    (years, months, field_text-injective wildcard_field 2 d.day d'.day days)

-- The text of a time tells all its fields, wildcards included.
time_text_lem :
    (t t' : Time)
    → time_text t ≡ time_text t'
    → (t.hour ≡ t'.hour)
      × (t.minute ≡ t'.minute)
      × (t.second ≡ t'.second)
      × (t.hundredths ≡ t'.hundredths)
unfolding time_text lacks
time_text_lem t t' e =
    let (hours, rest) =
      field_text_separated ":" wildcard_field 2 t.hour t'.hour _ _ (inr (omega arith)) refl e in
    let (minutes, rest') =
      field_text_separated ":" wildcard_field 2 t.minute t'.minute _ _ (inr (omega arith)) refl
        rest in
    let (seconds, hundredths) =
      field_text_separated "." wildcard_field 2 t.second t'.second _ _ (inl (omega arith)) refl
        rest' in
    (
      hours,
      minutes,
      seconds,
      field_text-injective wildcard_field 2 t.hundredths t'.hundredths hundredths,
    )
