-- ===== src/Response/ReadProperty.antt =====
-- client.go: `decodeReadPropertyResponse`.
pub mod Total
pub mod RoundTrip
use bacnet_go.Base.{ℕ, ◌+◌, not, ◌||◌, List, ltb, leb, ◌==◌, if◌then◌else◌, length}
use bacnet_go.Errors.{invalid_response}
use bacnet_go.Go.{Result, ok, panic, fail, ◌>>=◌, slice_from}
use bacnet_go.Value.{Value, decode_property_value}
use bacnet_go.Wire.Tag.{context, is_opening, decode_tag_number}
use bacnet_go.Response.Fields.{Field, absent, present, or_invalid, required_field, optional_field}

abbrev offset_behind : ℕ → Field → ℕ
offset_behind offset absent = offset
offset_behind offset (present start end) = end

-- The opening tag: one byte is stepped over, whatever the length of the tag's header.
unfoldable pub opening_field : List ℕ → ℕ → ℕ → Result ℕ
opening_field bytes number offset = if leb (length bytes) offset then fail invalid_response else do
  tail ← slice_from bytes offset
  t ← or_invalid (decode_tag_number tail)
  if not (t.number == number) || not (t.class == context) || not (is_opening t.length)
      then fail invalid_response
      else ok (offset + 1)

unfoldable pub decode_read_property_response : List ℕ → Result Value
decode_read_property_response bytes = if ltb (length bytes) 8 then fail invalid_response else do
  after_object ← required_field bytes 0 0
  after_property ← required_field bytes 1 after_object
  index_field ← optional_field bytes 2 after_property
  start ← opening_field bytes 3 (offset_behind after_property index_field)
  tail ← slice_from bytes start
  decode_property_value tail
