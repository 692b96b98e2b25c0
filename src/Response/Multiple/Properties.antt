-- ===== src/Response/Multiple/Properties.antt =====
-- The property loop over the entries of an object.
use bacnet_go.Base.{
  ℕ, zero, suc, ◌+◌, ◌≤◌, ◌<◌, ◌≡◌, ◌∙◌, List, [], ◌∷◌, ◌++◌, All, length, length-append,
  append_assoc, append-nil, arith,
}
use bacnet_go.Go.{ok}
use bacnet_go.Types.ObjectId.{ObjectIdentifier}
use bacnet_go.Wire.Number.{encode_context_enumerated, encode_enumerated}
use bacnet_go.Wire.Tag.{context, encode_closing_tag}
use bacnet_go.Wire.Tag.RoundTrip.{encode_tag_nonempty, decode_tag_number-encode_closing_tag}
use bacnet_go.Response.Acknowledgement.{
  index_bytes, outcome_bytes, Entry, entry_bytes, entries_bytes, outcome_results, entry_results,
}
use bacnet_go.Response.Position.{
  At, At-length, At-append, At-assoc, slice_from-At, length-context_tag, length-encode_closing_tag,
}
use bacnet_go.Response.Multiple.{PropertyValue, leaves, stays, property_turn, property_loop}
use bacnet_go.Response.Multiple.Content.{IsEntry, property_turn-entry}

-- One more turn of the property loop, and its last one.
property_loop_stays :
    (fuel : ℕ) (bytes : List ℕ) (oid : ObjectIdentifier) (offset next : ℕ)
    (results new : List PropertyValue)
    → offset < length bytes
    → property_turn bytes oid offset ≡ ok (stays next new)
    → property_loop (suc fuel) bytes oid offset results
      ≡ property_loop fuel bytes oid next (results ++ new)
unfolding property_loop
property_loop_stays fuel bytes oid offset next results new h e = ground arith

property_loop_leaves :
    (fuel : ℕ) (bytes : List ℕ) (oid : ObjectIdentifier) (offset end : ℕ)
    (results : List PropertyValue)
    → offset < length bytes
    → property_turn bytes oid offset ≡ ok (leaves end)
    → property_loop (suc fuel) bytes oid offset results ≡ ok (end, results)
unfolding property_loop
property_loop_leaves fuel bytes oid offset end results h e = ground arith

-- The closing tag [1] leaves the loop.
property_turn-closing :
    {bytes : List ℕ} {offset : ℕ} (oid : ObjectIdentifier) (rest : List ℕ)
    → At bytes offset (encode_closing_tag 1 ++ rest)
    → property_turn bytes oid offset ≡ ok (leaves (offset + 1))
unfolding property_turn
property_turn-closing {bytes} {offset} oid rest a =
    ground (arith, slice_from-At a, decode_tag_number-encode_closing_tag 1 rest (omega arith))

entry_bytes_nonempty : (e : Entry) → 1 ≤ length (entry_bytes e)
unfolding encode_context_enumerated
entry_bytes_nonempty e = omega (
  arith,
  length-append (encode_context_enumerated 2 e.property_id)
      (index_bytes 3 e.array_index ++ outcome_bytes e.outcome),
  length-context_tag 2 (encode_enumerated e.property_id),
  encode_tag_nonempty 2 context (length (encode_enumerated e.property_id)),
)

pub property_loop-entries :
    (fuel : ℕ) {bytes : List ℕ} {offset : ℕ} (oid : ObjectIdentifier) (es : List Entry)
    (rest : List ℕ) (results : List PropertyValue)
    → All IsEntry es
    → At bytes offset (entries_bytes es ++ (encode_closing_tag 1 ++ rest))
    → length bytes ≤ offset + fuel
    → property_loop fuel bytes oid offset results
      ≡ ok (offset + length (entries_bytes es) + 1, results ++ entry_results oid es)
property_loop-entries zero {bytes} {offset} oid es rest results h a f = absurd (
    omega (
      arith,
      At-length a,
      length-append (entries_bytes es) (encode_closing_tag 1 ++ rest),
      length-append (encode_closing_tag 1) rest,
      length-encode_closing_tag 1 (omega arith),
    ))
property_loop-entries (suc fuel) {bytes} {offset} oid [] rest results h a f =
    property_loop_leaves fuel bytes oid offset (offset + 1) results
      (omega (
        arith,
        At-length a,
        length-append (encode_closing_tag 1) rest,
        length-encode_closing_tag 1 (omega arith),
      ))
      (property_turn-closing oid rest a)
    ∙ ground (arith, append-nil results)
property_loop-entries (suc fuel) {bytes} {offset} oid (e ∷ es) rest results h a f =
    let tail = entries_bytes es ++ (encode_closing_tag 1 ++ rest) in
    let here = At-assoc (entry_bytes e) (entries_bytes es) (encode_closing_tag 1 ++ rest) a in
    let behind = At-append (entry_bytes e) tail here in
    property_loop_stays fuel bytes oid offset (offset + length (entry_bytes e)) results
      (outcome_results oid e e.outcome)
      (omega (arith, At-length here, length-append (entry_bytes e) tail, entry_bytes_nonempty e))
      (property_turn-entry oid e tail h.0 here)
    ∙ property_loop-entries fuel oid es rest (results ++ outcome_results oid e e.outcome) h.1 behind
        (omega (arith, entry_bytes_nonempty e))
    ∙ ground (
      arith,
      length-append (entry_bytes e) (entries_bytes es),
      append_assoc results (outcome_results oid e e.outcome) (entry_results oid es),
    )
