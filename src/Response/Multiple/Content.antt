-- ===== src/Response/Multiple/Content.antt =====
-- One property of a ReadPropertyMultiple-ACK: its value or its access error, read by one turn of
-- the property loop.
use bacnet_go.Base.{
  ℕ, ◌+◌, ◌^◌, ◌<◌, ◌≡◌, ap, ◌∙◌, List, [], ◌∷◌, ◌++◌, Option, none, some, length, length-append,
  append_assoc, arith,
}
use bacnet_go.Go.{ok}
use bacnet_go.Types.ObjectId.{ObjectIdentifier}
use bacnet_go.Value.{Value}
use bacnet_go.Value.RoundTrip.{read_back}
use bacnet_go.Wire.Number.{
  encode_unsigned, encode_enumerated, encode_enumerated_tag, encode_context_enumerated,
  encode_context_unsigned,
}
use bacnet_go.Wire.Number.RoundTrip.{decode_unsigned-encode_unsigned}
use bacnet_go.Wire.Tag.{encode_context_tag, encode_opening_tag, encode_closing_tag}
use bacnet_go.Wire.Tag.RoundTrip.{decode_tag_number-encode_opening_tag}
use bacnet_go.Response.Acknowledgement.{
  Outcome, value, access_error, Entry, index_bytes, IsIndex, value_bytes, outcome_bytes,
  entry_bytes, outcome_results,
}
use bacnet_go.Response.Position.{
  At, At-length, At-append, context_field-decodes, length-context_tag, At-assoc, slice_from-At,
  slice-context_field, optional_field-At, optional_field-opening, length-encode_opening_tag,
  length-encode_closing_tag,
}
use bacnet_go.Response.Multiple.Tagged.{
  IsTagged, unsigned-Tagged, value_bytes-decodes, IsTagged-IsWritable, skip-value_bytes,
}
use bacnet_go.Response.Skip.RoundTrip.{skip-values}
use bacnet_go.Response.Multiple.{Turn, stays, content_turn, index_field, property_turn}

-- Where the turn goes on, and what it adds.
abbrev turn_of : ℕ → ObjectIdentifier → Entry → Turn
turn_of end oid e = stays end (outcome_results oid e e.outcome)

content_turn-value :
    {bytes : List ℕ} {offset : ℕ} (oid : ObjectIdentifier) (property_id : ℕ)
    (array_index : Option ℕ) (v : Value) (rest : List ℕ)
    → IsTagged v
    → At bytes offset (encode_opening_tag 4 ++ (value_bytes v ++ (encode_closing_tag 4 ++ rest)))
    → content_turn bytes oid property_id array_index offset
      ≡ ok (
          stays (offset + 1 + length (value_bytes v) + 1) (
            record {
              object_id = oid;
              property_id = property_id;
              array_index = array_index;
              value = read_back v;
            }
            ∷ []))
unfolding content_turn
content_turn-value {bytes} {offset} oid property_id array_index v rest h a =
    let inner = value_bytes v ++ (encode_closing_tag 4 ++ rest) in
    let one = length-encode_opening_tag 4 (omega arith) in
    let behind : At bytes (offset + 1) inner =
      rw one at (At-append (encode_opening_tag 4) inner a) in
    ground (
      arith,
      At-length a,
      length-append (encode_opening_tag 4) inner,
      one,
      slice_from-At a,
      decode_tag_number-encode_opening_tag 4 inner (omega arith),
      slice_from-At behind,
      value_bytes-decodes v (encode_closing_tag 4 ++ rest) (IsTagged-IsWritable v h),
      skip-value_bytes v rest h behind,
    )

content_turn-error :
    {bytes : List ℕ} {offset : ℕ} (oid : ObjectIdentifier) (property_id : ℕ)
    (array_index : Option ℕ) (class code : ℕ) (rest : List ℕ)
    → class < 2 ^ 32
    → code < 2 ^ 32
    → At bytes offset (
        encode_opening_tag 5
        ++ (encode_enumerated_tag class
            ++ (encode_enumerated_tag code ++ (encode_closing_tag 5 ++ rest))))
    → content_turn bytes oid property_id array_index offset
      ≡ ok (
          stays
            (offset
              + 1
              + length (encode_enumerated_tag class)
              + length (encode_enumerated_tag code)
              + 1)
            [])
unfolding content_turn encode_enumerated_tag encode_enumerated
content_turn-error {bytes} {offset} oid property_id array_index class code rest hc hd a =
    let inner =
      encode_enumerated_tag class
      ++ (encode_enumerated_tag code ++ (encode_closing_tag 5 ++ rest)) in
    let one = length-encode_opening_tag 5 (omega arith) in
    let behind : At bytes (offset + 1) inner =
      rw one at (At-append (encode_opening_tag 5) inner a) in
    ground (
      arith,
      At-length a,
      length-append (encode_opening_tag 5) inner,
      one,
      slice_from-At a,
      decode_tag_number-encode_opening_tag 5 inner (omega arith),
      skip-values 5 9 (encode_unsigned class) (encode_unsigned code) rest (omega arith)
          (omega arith) (unsigned-Tagged class hc) (unsigned-Tagged code hd) behind,
    )

-- The entries that the decoder reads in full.
abbrev IsOutcome : Outcome → Type 0
IsOutcome (value v) = IsTagged v
IsOutcome (access_error class code) = (class < 2 ^ 32) × (code < 2 ^ 32)

pub record IsEntry (e : Entry) : Type 0 where
  pub property : e.property_id < 2 ^ 32
  pub index : IsIndex e.array_index
  pub outcome : IsOutcome e.outcome

value-size : (v : Value) → length (outcome_bytes (value v)) ≡ 1 + length (value_bytes v) + 1
value-size v = omega (
  arith,
  length-append (encode_opening_tag 4) (value_bytes v ++ encode_closing_tag 4),
  length-append (value_bytes v) (encode_closing_tag 4),
  length-encode_opening_tag 4 (omega arith),
  length-encode_closing_tag 4 (omega arith),
)

error-size :
    (class code : ℕ)
    → length (outcome_bytes (access_error class code))
      ≡ 1 + length (encode_enumerated_tag class) + length (encode_enumerated_tag code) + 1
error-size class code = omega (
  arith,
  length-append (encode_opening_tag 5)
      (encode_enumerated_tag class ++ (encode_enumerated_tag code ++ encode_closing_tag 5)),
  length-append (encode_enumerated_tag class) (encode_enumerated_tag code ++ encode_closing_tag 5),
  length-append (encode_enumerated_tag code) (encode_closing_tag 5),
  length-encode_opening_tag 5 (omega arith),
  length-encode_closing_tag 5 (omega arith),
)

-- What the turn over the content does, in terms of the bytes that it covers.
content_turn-outcome :
    {bytes : List ℕ} {offset : ℕ} (oid : ObjectIdentifier) (e : Entry) (o : Outcome) (rest : List ℕ)
    → IsOutcome o
    → At bytes offset (outcome_bytes o ++ rest)
    → content_turn bytes oid e.property_id e.array_index offset
      ≡ ok (stays (offset + length (outcome_bytes o)) (outcome_results oid e o))
content_turn-outcome {bytes} {offset} oid e (value v) rest h a =
    let shaped : At bytes offset
        (encode_opening_tag 4 ++ (value_bytes v ++ (encode_closing_tag 4 ++ rest))) =
      record { inside = a.inside; tail = a.tail ∙ simp append_assoc } in
    content_turn-value oid e.property_id e.array_index v rest h shaped
    ∙ ap (λ n. ok (stays n (outcome_results oid e (value v)))) (omega (arith, value-size v))
content_turn-outcome {bytes} {offset} oid e (access_error class code) rest (hc, hd) a =
    let shaped : At bytes offset (
        encode_opening_tag 5
        ++ (encode_enumerated_tag class
            ++ (encode_enumerated_tag code ++ (encode_closing_tag 5 ++ rest)))) =
      record { inside = a.inside; tail = a.tail ∙ simp append_assoc } in
    content_turn-error oid e.property_id e.array_index class code rest hc hd shaped
    ∙ ap (λ n. ok (stays n [])) (omega (arith, error-size class code))

-- The optional array index [3] before the content.
index_field-At :
    {bytes : List ℕ} {offset : ℕ} (array_index : Option ℕ) (number : ℕ) (rest : List ℕ)
    → IsIndex array_index
    → number < 15
    → At bytes offset (index_bytes 3 array_index ++ (encode_opening_tag number ++ rest))
    → index_field bytes offset ≡ ok (array_index, offset + length (index_bytes 3 array_index))
unfolding index_field
index_field-At {bytes} {offset} none number rest h hn a =
    ground (arith, optional_field-opening number 3 rest (omega arith) a)
index_field-At {bytes} {offset} (some i) number rest h hn a =
    let (back, _, hi, _, _) = decode_unsigned-encode_unsigned i h in
    unfold encode_context_unsigned in
    ground (
      arith,
      optional_field-At 3 (encode_unsigned i) (encode_opening_tag number ++ rest) (omega arith)
          (omega arith) a,
      slice-context_field 3 (encode_unsigned i) (encode_opening_tag number ++ rest) a,
      back,
    )

index_field-outcome :
    {bytes : List ℕ} {offset : ℕ} (array_index : Option ℕ) (o : Outcome) (rest : List ℕ)
    → IsIndex array_index
    → At bytes offset (index_bytes 3 array_index ++ (outcome_bytes o ++ rest))
    → index_field bytes offset ≡ ok (array_index, offset + length (index_bytes 3 array_index))
index_field-outcome array_index (value v) rest h a =
    index_field-At array_index 4 ((value_bytes v ++ encode_closing_tag 4) ++ rest) h (omega arith)
      (record { inside = a.inside; tail = a.tail ∙ simp append_assoc })
index_field-outcome array_index (access_error class code) rest h a =
    index_field-At array_index 5
      ((encode_enumerated_tag class ++ (encode_enumerated_tag code ++ encode_closing_tag 5))
        ++ rest)
      h (omega arith) (record { inside = a.inside; tail = a.tail ∙ simp append_assoc })

-- One turn of the property loop reads one entry, and adds the value that it carries, if it does.
pub property_turn-entry :
    {bytes : List ℕ} {offset : ℕ} (oid : ObjectIdentifier) (e : Entry) (rest : List ℕ)
    → IsEntry e
    → At bytes offset (entry_bytes e ++ rest)
    → property_turn bytes oid offset
      ≡ ok (stays (offset + length (entry_bytes e)) (outcome_results oid e e.outcome))
unfolding property_turn encode_context_enumerated encode_enumerated
property_turn-entry {bytes} {offset} oid e rest h a =
    let payload = encode_unsigned e.property_id in
    let field = encode_context_tag 2 payload in
    let tail = index_bytes 3 e.array_index ++ outcome_bytes e.outcome in
    let (back, lo, hi, _, _) = decode_unsigned-encode_unsigned e.property_id h.property in
    let here = At-assoc field tail rest a in
    let index_at =
      At-assoc (index_bytes 3 e.array_index) (outcome_bytes e.outcome) rest
        (At-append field (tail ++ rest) here) in
    let content_at =
      At-append (index_bytes 3 e.array_index) (outcome_bytes e.outcome ++ rest) index_at in
    ground (
      arith,
      slice_from-At here,
      context_field-decodes 2 payload (tail ++ rest) (omega arith) (omega arith),
      At-length here,
      length-append field (tail ++ rest),
      length-context_tag 2 payload,
      slice-context_field 2 payload (tail ++ rest) here,
      back,
      index_field-outcome e.array_index e.outcome rest h.index index_at,
      content_turn-outcome oid e e.outcome rest h.outcome content_at,
      length-append field tail,
      length-append (index_bytes 3 e.array_index) (outcome_bytes e.outcome),
    )
