-- ===== src/Response/Multiple/RoundTrip.antt =====
-- `decodeReadPropertyMultipleResponse` on a whole ReadPropertyMultiple-ACK.
use bacnet_go.Base.{
  ℕ, zero, suc, ◌+◌, ◌≤◌, ◌<◌, ◌≡◌, ◌∙◌, List, [], ◌∷◌, ◌++◌, some, All, length, length-append,
  append_assoc, append-nil, arith,
}
use bacnet_go.Go.{ok, uint32, put_uint32}
use bacnet_go.Types.ObjectId
use bacnet_go.Types.ObjectId.{ObjectIdentifier, IsIdentifier, decode_object_identifier}
use bacnet_go.Wire.Number.{encode_object_identifier, encode_context_object_identifier}
use bacnet_go.Wire.Tag.{encode_context_tag, encode_opening_tag, encode_closing_tag}
use bacnet_go.Wire.Tag.RoundTrip.{decode_tag_number-encode_opening_tag}
use bacnet_go.Response.Acknowledgement.{
  ObjectResult, entries_bytes, object_bytes, multiple_ack, entry_results, expected,
}
use bacnet_go.Response.Position.{
  At, At-start, At-length, At-append, slice_from-At, slice-context_field, context_field-decodes,
  length-context_tag, length-encode_opening_tag, length-encode_closing_tag,
}
use bacnet_go.Response.Multiple.{
  PropertyValue, property_loop, object_head, object_loop, decode_read_property_multiple_response,
}
use bacnet_go.Response.Multiple.Properties.{property_loop-entries}
use bacnet_go.Response.Multiple.Content.{IsEntry}

-- The head of an object: its identifier [0] and the opening tag [1].
object_head-At :
    {bytes : List ℕ} {offset : ℕ} (o : ObjectIdentifier) (rest : List ℕ)
    → IsIdentifier o
    → At bytes offset (encode_context_object_identifier 0 o ++ (encode_opening_tag 1 ++ rest))
    → object_head bytes offset
      ≡ ok (some (o, offset + length (encode_context_object_identifier 0 o) + 1))
unfolding object_head encode_context_object_identifier encode_object_identifier uint32
object_head-At {bytes} {offset} o rest h a =
    let payload = put_uint32 (ObjectId.encode o) in
    let tail = encode_opening_tag 1 ++ rest in
    let behind = At-append (encode_context_tag 0 payload) tail a in
    ground (
      arith,
      At-length a,
      slice_from-At a,
      context_field-decodes 0 payload tail (omega arith) (omega arith),
      length-append (encode_context_tag 0 payload) tail,
      length-context_tag 0 payload,
      slice-context_field 0 payload tail a,
      slice_from-At behind,
      decode_tag_number-encode_opening_tag 1 rest (omega arith),
      ObjectId.encode-lt o,
      ObjectId.decode-encode_self o h,
    )

-- One more turn of the object loop.
object_loop_turn :
    (fuel : ℕ) (bytes : List ℕ) (oid : ObjectIdentifier) (offset start next : ℕ)
    (results results' : List PropertyValue)
    → offset < length bytes
    → object_head bytes offset ≡ ok (some (oid, start))
    → property_loop (length bytes) bytes oid start results ≡ ok (next, results')
    → object_loop (suc fuel) bytes offset results ≡ object_loop fuel bytes next results'
unfolding object_loop
object_loop_turn fuel bytes oid offset start next results results' h e e' = ground arith

abbrev pub IsObjectResult : ObjectResult → Type 0
IsObjectResult o = IsIdentifier o.object_id × All IsEntry o.entries

object_size :
    (o : ObjectResult)
    → length (object_bytes o)
      ≡ length (encode_context_object_identifier 0 o.object_id)
        + 1
        + length (entries_bytes o.entries)
        + 1
object_size o = omega (
  arith,
  length-append (encode_context_object_identifier 0 o.object_id)
      (encode_opening_tag 1 ++ (entries_bytes o.entries ++ encode_closing_tag 1)),
  length-append (encode_opening_tag 1) (entries_bytes o.entries ++ encode_closing_tag 1),
  length-append (entries_bytes o.entries) (encode_closing_tag 1),
  length-encode_opening_tag 1 (omega arith),
  length-encode_closing_tag 1 (omega arith),
)

object_loop-objects :
    (fuel : ℕ) {bytes : List ℕ} {offset : ℕ} (os : List ObjectResult) (results : List PropertyValue)
    → All IsObjectResult os
    → At bytes offset (multiple_ack os)
    → length bytes ≤ offset + fuel
    → object_loop fuel bytes offset results ≡ ok (results ++ expected os)
unfolding object_loop
object_loop-objects zero [] results h a f = ground (arith, At-length a, append-nil results)
object_loop-objects (suc fuel) [] results h a f = ground (arith, At-length a, append-nil results)
object_loop-objects zero (o ∷ os) results h a f =
    absurd
      (omega (arith, At-length a, length-append (object_bytes o) (multiple_ack os), object_size o))
object_loop-objects (suc fuel) {bytes} {offset} (o ∷ os) results h a f =
    let head = encode_context_object_identifier 0 o.object_id in
    let rest = encode_closing_tag 1 ++ multiple_ack os in
    let shaped : At bytes offset
        (head ++ (encode_opening_tag 1 ++ (entries_bytes o.entries ++ rest))) =
      record { inside = a.inside; tail = a.tail ∙ simp append_assoc } in
    let one = length-encode_opening_tag 1 (omega arith) in
    let opening_at =
      At-append head (encode_opening_tag 1 ++ (entries_bytes o.entries ++ rest)) shaped in
    let entries_at : At bytes (offset + length head + 1) (entries_bytes o.entries ++ rest) =
      rw one at (At-append (encode_opening_tag 1) (entries_bytes o.entries ++ rest) opening_at) in
    let size = object_size o in
    let closing = length-encode_closing_tag 1 (omega arith) in
    let behind : At bytes (offset + length head + 1 + length (entries_bytes o.entries) + 1)
        (multiple_ack os) =
      rw closing at (
        At-append (encode_closing_tag 1) (multiple_ack os)
          (At-append (entries_bytes o.entries) rest entries_at)) in
    object_loop_turn fuel bytes o.object_id offset (offset + length head + 1)
      (offset + length head + 1 + length (entries_bytes o.entries) + 1) results
      (results ++ entry_results o.object_id o.entries)
      (omega (arith, At-length a, length-append (object_bytes o) (multiple_ack os)))
      (object_head-At o.object_id (entries_bytes o.entries ++ rest) h.0.0 shaped)
      (property_loop-entries (length bytes) o.object_id o.entries (multiple_ack os) results h.0.1
        entries_at (omega arith))
    ∙ object_loop-objects fuel os (results ++ entry_results o.object_id o.entries) h.1 behind
        (omega arith)
    ∙ ground (arith, append_assoc results (entry_results o.object_id o.entries) (expected os))

-- A ReadPropertyMultiple-ACK, of any number of objects with any number of entries each, decodes to
-- the values that it carries, in order, each with its object, its property and its array index; the
-- entries that carry an access error are passed over. The objects fit their fields, the numbers
-- their 32 bits, and the values are writable and none is the boolean true.
pub decode_read_property_multiple_response-ack :
    (os : List ObjectResult)
    → All IsObjectResult os
    → decode_read_property_multiple_response (multiple_ack os) ≡ ok (expected os)
unfolding decode_read_property_multiple_response
decode_read_property_multiple_response-ack os h =
    object_loop-objects (length (multiple_ack os)) os [] h (At-start (multiple_ack os))
      (omega arith)
