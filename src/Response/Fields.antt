-- ===== src/Response/Fields.antt =====
-- client.go: `readUnsignedTag`, `decodeError`, and the tests that the two response decoders make of
-- a tagged field. An offset is a natural number here: each caller starts at 0 and only adds
-- lengths that it has found not to be negative, so `offset < 0` never holds.
pub mod Total
pub mod RoundTrip
use bacnet_go.Base.{
  ℕ, suc, ◌+◌, ◌%◌, ◌^◌, Bool, true, false, not, ◌&&◌, ◌||◌, List, ltb, leb, ◌==◌, if◌then◌else◌,
  length,
}
use bacnet_go.Base.Int.{ℤ, pos, negsuc}
use bacnet_go.Errors.{Error, Sentinel, sentinel, invalid_response, new_bacnet_error}
use bacnet_go.Go.{Result, ok, err, panic, fail, ◌>>=◌, slice_from, slice}
use bacnet_go.Wire.Number.{decode_unsigned}
use bacnet_go.Wire.Tag.{Tag, context, decode_tag_number}

-- `if err != nil { return ErrInvalidResponse }`
abbrev pub or_invalid {ℓ} : {A : Type ℓ} → Result A → Result A
or_invalid (ok a) = ok a
or_invalid (err e) = fail invalid_response
or_invalid panic = panic

-- The value and the offset behind it, for a length that is not negative.
read_unsigned_payload : List ℕ → ℕ → ℤ → Result (ℕ × ℕ)
read_unsigned_payload bytes start (negsuc n) = fail invalid_response
read_unsigned_payload bytes start (pos n) =
    if ltb (length bytes) (start + n)
    then fail invalid_response
    else do payload ← slice bytes start (start + n); ok (decode_unsigned payload, start + n)

unfoldable pub read_unsigned_tag : List ℕ → ℕ → Result (ℕ × ℕ)
unfolding read_unsigned_payload
read_unsigned_tag bytes offset = if ltb (length bytes) offset then fail invalid_response else do
  tail ← slice_from bytes offset
  t ← decode_tag_number tail
  read_unsigned_payload bytes (offset + t.header_len) t.length

-- The error that a function returns is its result: only a panic stays one.
abbrev returned : Result Error → Result Error
returned (ok e) = ok e
returned (err e) = ok e
returned panic = panic

-- `ErrorClass(classVal)` and `ErrorCode(codeVal)` keep 8 bits.
unfoldable pub decode_error : List ℕ → Result Error
decode_error bytes = returned (do
  (class, offset) ← or_invalid (read_unsigned_tag bytes 0)
  (code, _) ← or_invalid (read_unsigned_tag bytes offset)
  ok (new_bacnet_error (class % 2 ^ 8) (code % 2 ^ 8)))

-- A context field with a real length: the offset behind it.
field_end : List ℕ → ℕ → ℤ → Result ℕ
field_end bytes start (negsuc n) = fail invalid_response
field_end bytes start (pos n) =
    if ltb (length bytes) (start + n) then fail invalid_response else ok (start + n)

unfoldable pub required_field : List ℕ → ℕ → ℕ → Result ℕ
unfolding field_end
required_field bytes number offset = do
  tail ← slice_from bytes offset
  t ← or_invalid (decode_tag_number tail)
  if not (t.number == number) || not (t.class == context)
      then fail invalid_response
      else field_end bytes (offset + t.header_len) t.length

-- The length of an optional field at `offset`, if there is one: its start and its end.
abbrev pub fits : List ℕ → ℕ → ℤ → Bool
fits bytes start (negsuc n) = false
fits bytes start (pos n) = leb (start + n) (length bytes)

abbrev end_of : ℕ → ℤ → ℕ
end_of start (negsuc n) = start
end_of start (pos n) = start + n

-- The start and the end of the payload of an optional context field at `offset`.
pub data Field : Type 0 where
  absent : Field
  present : ℕ → ℕ → Field

abbrev field_of : List ℕ → ℕ → ℕ → Result Tag → Result Field
field_of bytes number offset panic = panic
field_of bytes number offset (err e) = ok absent
field_of bytes number offset (ok t) =
    if t.number == number && t.class == context && fits bytes (offset + t.header_len) t.length
    then ok (present (offset + t.header_len) (end_of (offset + t.header_len) t.length))
    else ok absent

unfoldable pub optional_field : List ℕ → ℕ → ℕ → Result Field
optional_field bytes number offset =
    if ltb offset (length bytes)
    then (do tail ← slice_from bytes offset; field_of bytes number offset (decode_tag_number tail))
    else ok absent
