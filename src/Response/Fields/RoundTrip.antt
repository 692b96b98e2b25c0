-- ===== src/Response/Fields/RoundTrip.antt =====
-- The numbers of I-Am and Error PDUs, as a server writes them.
use bacnet_go.Base.{
  ℕ, ◌+◌, ◌%◌, ◌^◌, ◌<◌, ◌≡◌, sym, ◌∙◌, append-nil, List, [], ◌++◌, length, length-append,
  append_assoc, arith,
}
use bacnet_go.Errors.{bacnet_error, new_bacnet_error}
use bacnet_go.Go.{ok}
use bacnet_go.Response.Fields.{read_unsigned_tag, decode_error}
use bacnet_go.Response.Position.{At, At-start, At-append, At-length, slice_from-At, slice-At}
use bacnet_go.Wire.ApplicationTag
use bacnet_go.Wire.Number.{
  application_tagged, encode_unsigned, encode_enumerated, encode_enumerated_tag,
}
use bacnet_go.Wire.Number.RoundTrip.{decode_unsigned-encode_unsigned}
use bacnet_go.Wire.Tag.{application, encode_tag}
use bacnet_go.Wire.Tag.RoundTrip.{decode_tag_number-encode_tag}

-- A tagged number at an offset is read, with the offset behind it.
pub read_unsigned_tag-At :
    {bytes : List ℕ} {offset : ℕ} (number n : ℕ) (rest : List ℕ)
    → number < 15
    → n < 2 ^ 32
    → At bytes offset (application_tagged number (encode_unsigned n) ++ rest)
    → read_unsigned_tag bytes offset
      ≡ ok (n, offset + length (application_tagged number (encode_unsigned n)))
unfolding read_unsigned_tag
read_unsigned_tag-At {bytes} {offset} number n rest hn h a =
    let payload = encode_unsigned n in
    let header = encode_tag number application (length payload) in
    let (back, lo, hi, _, _) = decode_unsigned-encode_unsigned n h in
    let shaped : At bytes offset (header ++ (payload ++ rest)) = record {
      inside = a.inside;
      tail = a.tail ∙ append_assoc header payload rest;
    } in
    let payload_at = At-append header (payload ++ rest) shaped in
    ground (
      arith,
      At-length shaped,
      length-append header payload,
      length-append header (payload ++ rest),
      length-append payload rest,
      slice_from-At shaped,
      decode_tag_number-encode_tag number application (length payload) (payload ++ rest) hn
          (omega arith) (omega arith),
      slice-At payload rest payload_at,
      back,
    )

-- The error that `decodeError` makes of an Error PDU has the class and the code that the PDU names,
-- of each the low 8 bits.
pub decode_error-encode_enumerated_tag :
    (class code : ℕ)
    → class < 2 ^ 32
    → code < 2 ^ 32
    → decode_error (encode_enumerated_tag class ++ encode_enumerated_tag code)
      ≡ ok (bacnet_error (class % 2 ^ 8) (code % 2 ^ 8))
unfolding decode_error encode_enumerated_tag encode_enumerated new_bacnet_error
decode_error-encode_enumerated_tag class code hc hd =
    let first = encode_enumerated_tag class in
    let second = encode_enumerated_tag code in
    let start = At-start (first ++ second) in
    let behind = At-append first second start in
    let ended : At (first ++ second) (0 + length first) (second ++ []) = record {
      inside = behind.inside;
      tail = behind.tail ∙ sym (append-nil second);
    } in
    ground (
      arith,
      read_unsigned_tag-At ApplicationTag.enumerated class second (omega arith) hc start,
      read_unsigned_tag-At ApplicationTag.enumerated code [] (omega arith) hd ended,
    )
