-- ===== src/Response/Multiple.antt =====
-- client.go: `decodeReadPropertyMultipleResponse`. The two loops are recursions on fuel; one turn
-- of each is a function that says whether the loop is left, and at which offset.
pub mod Total
pub mod Tagged
pub mod Content
pub mod Properties
pub mod RoundTrip
use bacnet_go.Base.{
  ℕ, zero, suc, ◌+◌, Bool, true, false, not, ◌&&◌, ◌||◌, List, [], ◌∷◌, ◌++◌, Option, none, some,
  ltb, leb, ◌==◌, if◌then◌else◌, length,
}
use bacnet_go.Base.Int.{ℤ, pos, negsuc}
use bacnet_go.Go.{Result, ok, err, panic, ◌>>=◌, slice_from, slice, uint32}
use bacnet_go.Types.ObjectId.{ObjectIdentifier, decode_object_identifier}
use bacnet_go.Value.{Value, decode_property_value, payload_of}
use bacnet_go.Value
use bacnet_go.Wire.ApplicationTag
use bacnet_go.Wire.Number.{decode_unsigned}
use bacnet_go.Wire.Tag.{Tag, application, context, is_closing, is_opening, decode_tag_number}
use bacnet_go.Response.Fields.{Field, absent, present, optional_field}
use bacnet_go.Response.Skip.{skip_to_context_closing_tag}

pub record PropertyValue : Type 0 where
  pub object_id : ObjectIdentifier
  pub property_id : ℕ
  pub array_index : Option ℕ
  pub value : Value

-- How a turn of a loop ends: the loop is left, or goes on with these results appended.
pub data Turn : Type 0 where
  leaves : ℕ → Turn
  stays : ℕ → List PropertyValue → Turn

-- The first result of `decodePropertyValue` when the second is an error: nil, but for a bit string
-- that is refused it is the zero `BitString`.
zero_of_payload : Tag → Result (List ℕ) → Value
zero_of_payload t (err e) = Value.null
zero_of_payload t panic = Value.null
zero_of_payload t (ok payload) =
    if t.class == application && t.number == ApplicationTag.bit_string
    then Value.bit_string (record { unused_bits = 0; bytes = [] })
    else Value.null

zero_of : List ℕ → Result Tag → Value
unfolding zero_of_payload
zero_of bytes (ok t) = zero_of_payload t (payload_of bytes t.header_len t.length)
zero_of bytes (err e) = Value.null
zero_of bytes panic = Value.null

-- `value, _ := c.decodePropertyValue(…)`
value_or_zero : List ℕ → Result Value → Result Value
unfolding zero_of
value_or_zero bytes (ok v) = ok v
value_or_zero bytes (err e) = ok (zero_of bytes (decode_tag_number bytes))
value_or_zero bytes panic = panic

-- The switch over the opening tag of a value [4] or an access error [5], at the offset of that tag.
property_content : List ℕ → ObjectIdentifier → ℕ → Option ℕ → ℕ → ℕ → Result Turn
unfolding value_or_zero
property_content bytes oid property_id array_index offset number =
    if number == 4
    then (do
      tail ← slice_from bytes (offset + 1)
      value ← value_or_zero tail (decode_property_value tail)
      next ← skip_to_context_closing_tag bytes (offset + 1) 4
      ok (
          stays next (
            record {
              object_id = oid;
              property_id = property_id;
              array_index = array_index;
              value = value;
            }
            ∷ [])))
    else if number == 5
    then (do next ← skip_to_context_closing_tag bytes (offset + 1) 5; ok (stays next []))
    else ok (leaves offset)

content_of_tag : List ℕ → ObjectIdentifier → ℕ → Option ℕ → ℕ → Result Tag → Result Turn
unfolding property_content
content_of_tag bytes oid property_id array_index offset panic = panic
content_of_tag bytes oid property_id array_index offset (err e) = ok (leaves offset)
content_of_tag bytes oid property_id array_index offset (ok t) =
    if not (t.class == context) || not (is_opening t.length)
    then ok (leaves offset)
    else property_content bytes oid property_id array_index offset t.number

unfoldable pub content_turn : List ℕ → ObjectIdentifier → ℕ → Option ℕ → ℕ → Result Turn
unfolding content_of_tag
content_turn bytes oid property_id array_index offset =
    if leb (length bytes) offset then ok (leaves offset) else do
      tail ← slice_from bytes offset
      content_of_tag bytes oid property_id array_index offset (decode_tag_number tail)

-- The optional array index, and the offset behind it.
index_of_field : List ℕ → ℕ → Field → Result (Option ℕ × ℕ)
index_of_field bytes offset absent = ok (none, offset)
index_of_field bytes offset (present start end) = do
  payload ← slice bytes start end
  ok (some (decode_unsigned payload), end)

unfoldable pub index_field : List ℕ → ℕ → Result (Option ℕ × ℕ)
unfolding index_of_field
index_field bytes offset = do
  field ← optional_field bytes 3 offset
  index_of_field bytes offset field

-- The part behind the test of the property identifier's tag; `start` is where its payload begins.
identified : List ℕ → ObjectIdentifier → ℕ → ℕ → ℤ → Result Turn
identified bytes oid offset start (negsuc n) = ok (leaves offset)
identified bytes oid offset start (pos n) =
    if ltb (length bytes) (start + n) then ok (leaves offset) else do
      payload ← slice bytes start (start + n)
      (array_index, next) ← index_field bytes (start + n)
      content_turn bytes oid (decode_unsigned payload) array_index next

property_tag : List ℕ → ObjectIdentifier → ℕ → Result Tag → Result Turn
unfolding identified
property_tag bytes oid offset panic = panic
property_tag bytes oid offset (err e) = ok (leaves offset)
property_tag bytes oid offset (ok t) =
    if is_closing t.length && t.number == 1
    then ok (leaves (offset + 1))
    else if not (t.number == 2) || not (t.class == context)
    then ok (leaves offset)
    else identified bytes oid offset (offset + t.header_len) t.length

-- One turn of the loop over the properties of an object.
unfoldable pub property_turn : List ℕ → ObjectIdentifier → ℕ → Result Turn
unfolding property_tag
property_turn bytes oid offset = do
  tail ← slice_from bytes offset
  property_tag bytes oid offset (decode_tag_number tail)

-- `for offset < len(data)`: with no fuel left the answer is a panic. Returns the offset and the
-- results, oldest first.
unfoldable pub property_loop :
    ℕ → List ℕ → ObjectIdentifier → ℕ → List PropertyValue → Result (ℕ × List PropertyValue)
property_loop zero bytes oid offset results =
    if ltb offset (length bytes) then panic else ok (offset, results)
property_loop (suc fuel) bytes oid offset results = elim (ltb offset (length bytes)) [
  | false ↦ ok (offset, results)
  | true ↦ do
    turn ← property_turn bytes oid offset
    elim turn [
      | leaves end ↦ ok (end, results)
      | stays next new ↦ property_loop fuel bytes oid next (results ++ new)
    ]
]

-- The head of an object's part: its identifier [0] and the opening tag [1]. `none` is the `break`
-- that ends the outer loop.
is_four : ℤ → Bool
is_four (pos n) = n == 4
is_four (negsuc n) = false

list_opens : ObjectIdentifier → ℕ → Result Tag → Result (Option (ObjectIdentifier × ℕ))
list_opens oid offset panic = panic
list_opens oid offset (err e) = ok none
list_opens oid offset (ok t) =
    if not (t.number == 1) || not (t.class == context) || not (is_opening t.length)
    then ok none
    else ok (some (oid, offset + 1))

object_tag : List ℕ → ℕ → Result Tag → Result (Option (ObjectIdentifier × ℕ))
unfolding list_opens is_four
object_tag bytes offset panic = panic
object_tag bytes offset (err e) = ok none
object_tag bytes offset (ok t) =
    if not (t.number == 0) || not (t.class == context) || not (is_four t.length)
    then ok none
    else if ltb (length bytes) (offset + t.header_len + 4)
    then ok none
    else do
      identifier ← slice bytes (offset + t.header_len) (offset + t.header_len + 4)
      value ← uint32 identifier
      tail ← slice_from bytes (offset + t.header_len + 4)
      list_opens (decode_object_identifier value) (offset + t.header_len + 4)
          (decode_tag_number tail)

unfoldable pub object_head : List ℕ → ℕ → Result (Option (ObjectIdentifier × ℕ))
unfolding object_tag
object_head bytes offset = do
  tail ← slice_from bytes offset
  object_tag bytes offset (decode_tag_number tail)

unfoldable pub object_loop : ℕ → List ℕ → ℕ → List PropertyValue → Result (List PropertyValue)
object_loop zero bytes offset results = if ltb offset (length bytes) then panic else ok results
object_loop (suc fuel) bytes offset results = elim (ltb offset (length bytes)) [
  | false ↦ ok results
  | true ↦ do
    head ← object_head bytes offset
    elim head [
      | none ↦ ok results
      | some (oid, start) ↦ do
        (next, results') ← property_loop (length bytes) bytes oid start results
        object_loop fuel bytes next results'
    ]
]

-- Each turn of a loop reads a byte at least, so `length bytes` turns are enough.
unfoldable pub decode_read_property_multiple_response : List ℕ → Result (List PropertyValue)
decode_read_property_multiple_response bytes = object_loop (length bytes) bytes 0 []
