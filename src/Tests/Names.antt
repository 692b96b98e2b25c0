-- ===== src/Tests/Names.antt =====
-- Names, texts and latencies at concrete inputs.
use Prim.Native.String.{◌++◌}
use bacnet_go.Base.{List, inl, inr, ℕ, ◌≡◌, refl, some, [], ◌∷◌, arith}
use bacnet_go.Base.Int.{pos}
use bacnet_go.Enumeration.{parse}
use bacnet_go.Enumeration.Decimal.{decimal}
use bacnet_go.Types.Constants.ErrorCodes.{error_code_values}
use bacnet_go.Version.{get_version}
use bacnet_go.Text.Utf8.{
  IsUtf8, decode_character_string-utf16_units-IsUtf8, decode_character_string-IsUtf8,
}
use bacnet_go.Metrics.{stats}
use bacnet_go.Metrics.Latencies.{record_all, shortest, longest, stats-record_all}
use bacnet_go.Names.{object_type, name-enumeration}
use bacnet_go.Text.{ucs2, ucs4, decode_character_string}
use bacnet_go.Text.Utf16.{big_endian, utf16_units}

-- `vendor-specific(1025)`
name-enumeration_example : ◌≡◌ {A = ℕ} 1025 1025
name-enumeration_example = name-enumeration object_type 1025 1025 refl

stats-record_all_example : stats (record_all (7000000 ∷ 2000000 ∷ [])) ≡ record {
  count = 2;
  min = pos (shortest 7000000 (2000000 ∷ []));
  max = pos (longest (7000000 ∷ 2000000 ∷ []));
  avg = pos 4500000;
  buckets = (record_all (7000000 ∷ 2000000 ∷ [])).buckets;
}
stats-record_all_example = stats-record_all 7000000 (2000000 ∷ []) (omega arith) (omega arith)

decode_character_string-utf16_units-IsUtf8_example :
    IsUtf8
      (decode_character_string (ucs2 ∷ big_endian (utf16_units (0x41 ∷ 0x1F600 ∷ []))))
      (0x41 ∷ 0x1F600 ∷ [])
decode_character_string-utf16_units-IsUtf8_example =
    decode_character_string-utf16_units-IsUtf8 (0x41 ∷ 0x1F600 ∷ []) (
      record { in_range = omega arith; no_surrogate = refl },
      (record { in_range = omega arith; no_surrogate = refl }, tt),
    )

-- A surrogate alone, and a number that is no code point.
decode_character_string-IsUtf8_example :
    (runes : List ℕ) × IsUtf8
      (decode_character_string (ucs4 ∷ 0 ∷ 0 ∷ 0xD8 ∷ 0 ∷ 0xFF ∷ 0xFF ∷ 0xFF ∷ 0xFF ∷ []))
      runes
decode_character_string-IsUtf8_example =
    decode_character_string-IsUtf8 ucs4 (0 ∷ 0 ∷ 0xD8 ∷ 0 ∷ 0xFF ∷ 0xFF ∷ 0xFF ∷ 0xFF ∷ [])
      (inr (inl refl))

-- Two error codes have one number, where the tables of the other types have none twice.
error_code_51 :
    (parse error_code_values "ErrorCodeNoAlarmsOfSpecifiedType" ≡ some 51)
    × (parse error_code_values "ErrorCodeAbortBufferOverflow" ≡ some 51)
unfolding parse
error_code_51 = (refl, refl)

-- The text of the version is made of its numbers.
get_version_parts :
    get_version.version
    ≡ decimal get_version.major
      ++ ("." ++ (decimal get_version.minor ++ ("." ++ decimal get_version.patch)))
unfolding decimal
get_version_parts = refl
