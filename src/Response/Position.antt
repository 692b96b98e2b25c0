-- ===== src/Response/Position.antt =====
-- What stands at an offset of the bytes, and what the field readers find there. A response is read
-- from left to right, so its proofs carry the rest of the bytes at the offset reached.
use bacnet_go.Base.{
  ℕ, ◌+◌, ◌^◌, ◌≤◌, ◌<◌, ◌≡◌, refl, ap, ◌∙◌, List, ◌++◌, length, drop, length-drop, length-append,
  drop-drop, drop_prefix, take_prefix, append_assoc, arith,
}
use bacnet_go.Base.Int.{pos}
use bacnet_go.Go.{ok, slice_from, slice, slice_from-ok}
use bacnet_go.Wire.Tag.{
  context, encode_tag, encode_context_tag, encode_opening_tag, encode_closing_tag,
  decode_tag_number,
}
use bacnet_go.Wire.Tag.RoundTrip.{
  decode_tag_number-encode_tag, encode_tag_nonempty, decode_tag_number-encode_opening_tag,
}
use bacnet_go.Response.Fields.{absent, present, required_field, optional_field}
use bacnet_go.Response.ReadProperty.{opening_field}

pub record At (bytes : List ℕ) (offset : ℕ) (rest : List ℕ) : Type 0 where
  pub inside : offset ≤ length bytes
  pub tail : drop offset bytes ≡ rest

pub At-length :
    {bytes rest : List ℕ} {offset : ℕ} → At bytes offset rest → length bytes ≡ offset + length rest
At-length {bytes} {rest} {offset} a =
    omega (arith, a.inside, length-drop offset bytes, ap length a.tail)

pub At-start : (bytes : List ℕ) → At bytes 0 bytes
At-start bytes = record { inside = omega arith; tail = refl }

-- Behind a piece stands the rest.
pub At-append :
    {bytes : List ℕ} {offset : ℕ} (xs rest : List ℕ)
    → At bytes offset (xs ++ rest)
    → At bytes (offset + length xs) rest
At-append {bytes} {offset} xs rest a = record {
  inside = omega (arith, At-length a, length-append xs rest);
  tail = drop-drop offset (length xs) bytes ∙ ap (drop (length xs)) a.tail ∙ drop_prefix xs rest;
}

pub slice_from-At :
    {bytes rest : List ℕ} {offset : ℕ} → At bytes offset rest → slice_from bytes offset ≡ ok rest
slice_from-At {bytes} {rest} {offset} a = slice_from-ok bytes offset a.inside ∙ ap ok a.tail

pub slice-At :
    {bytes : List ℕ} {offset : ℕ} (xs rest : List ℕ)
    → At bytes offset (xs ++ rest)
    → slice bytes offset (offset + length xs) ≡ ok xs
unfolding slice
slice-At {bytes} {offset} xs rest a =
    ground (arith, At-length a, length-append xs rest, a.tail, take_prefix xs rest)

pub At-assoc :
    {bytes : List ℕ} {offset : ℕ} (xs ys zs : List ℕ)
    → At bytes offset ((xs ++ ys) ++ zs)
    → At bytes offset (xs ++ (ys ++ zs))
At-assoc xs ys zs a = record { inside = a.inside; tail = a.tail ∙ append_assoc xs ys zs }

-- A context field of a given number, read by `required_field`.
pub required_field-At :
    {bytes : List ℕ} {offset : ℕ} (number : ℕ) (payload rest : List ℕ)
    → number < 15
    → length payload < 2 ^ 32
    → At bytes offset (encode_context_tag number payload ++ rest)
    → required_field bytes number offset ≡ ok (offset + length (encode_context_tag number payload))
unfolding required_field encode_context_tag
required_field-At {bytes} {offset} number payload rest hn hp a = ground (
  arith,
  slice_from-At a,
  append_assoc (encode_tag number context (length payload)) payload rest,
  decode_tag_number-encode_tag number context (length payload) (payload ++ rest) hn,
  At-length a,
  length-append (encode_tag number context (length payload) ++ payload) rest,
  length-append (encode_tag number context (length payload)) payload,
)

-- The same field read by `optional_field`: where its payload starts and ends.
pub optional_field-At :
    {bytes : List ℕ} {offset : ℕ} (number : ℕ) (payload rest : List ℕ)
    → number < 15
    → length payload < 2 ^ 32
    → At bytes offset (encode_context_tag number payload ++ rest)
    → optional_field bytes number offset
      ≡ ok (
          present
            (offset + length (encode_tag number context (length payload)))
            (offset + length (encode_context_tag number payload)))
unfolding optional_field encode_context_tag
optional_field-At {bytes} {offset} number payload rest hn hp a = ground (
  arith,
  slice_from-At a,
  append_assoc (encode_tag number context (length payload)) payload rest,
  decode_tag_number-encode_tag number context (length payload) (payload ++ rest) hn,
  At-length a,
  length-append (encode_tag number context (length payload) ++ payload) rest,
  length-append (encode_tag number context (length payload)) payload,
  encode_tag_nonempty number context (length payload),
)

-- An opening tag is no optional field.
pub optional_field-opening :
    {bytes : List ℕ} {offset : ℕ} (number other : ℕ) (rest : List ℕ)
    → number < 256
    → At bytes offset (encode_opening_tag number ++ rest)
    → optional_field bytes other offset ≡ ok absent
unfolding optional_field
optional_field-opening {bytes} {offset} number other rest hn a =
    ground (arith, slice_from-At a, decode_tag_number-encode_opening_tag number rest hn)

pub length-encode_opening_tag : (number : ℕ) → number < 15 → length (encode_opening_tag number) ≡ 1
unfolding encode_opening_tag
length-encode_opening_tag number h = ground arith

pub opening_field-At :
    {bytes : List ℕ} {offset : ℕ} (number : ℕ) (rest : List ℕ)
    → number < 15
    → At bytes offset (encode_opening_tag number ++ rest)
    → (opening_field bytes number offset ≡ ok (offset + 1)) × At bytes (offset + 1) rest
unfolding opening_field
opening_field-At {bytes} {offset} number rest hn a = (
  ground (
    arith,
    slice_from-At a,
    At-length a,
    length-append (encode_opening_tag number) rest,
    length-encode_opening_tag number,
    decode_tag_number-encode_opening_tag number rest,
  ),
  rw (length-encode_opening_tag number hn) at (At-append (encode_opening_tag number) rest a),
)

pub length-encode_closing_tag : (number : ℕ) → number < 15 → length (encode_closing_tag number) ≡ 1
unfolding encode_closing_tag
length-encode_closing_tag number h = ground arith

-- The payload of a context field, between the end of its header and its own end.
pub slice-context_field :
    {bytes : List ℕ} {offset : ℕ} (number : ℕ) (payload rest : List ℕ)
    → At bytes offset (encode_context_tag number payload ++ rest)
    → slice bytes
        (offset + length (encode_tag number context (length payload)))
        (offset + length (encode_context_tag number payload))
      ≡ ok payload
unfolding encode_context_tag
slice-context_field {bytes} {offset} number payload rest a =
    let header = encode_tag number context (length payload) in
    let behind = At-append header (payload ++ rest) (At-assoc header payload rest a) in
    ap (slice bytes (offset + length header)) (omega (arith, length-append header payload))
    ∙ slice-At payload rest behind

-- The header of a context field.
pub context_field-decodes :
    (number : ℕ) (payload rest : List ℕ)
    → number < 15
    → length payload < 2 ^ 32
    → decode_tag_number (encode_context_tag number payload ++ rest)
      ≡ ok (record {
        number = number;
        class = context;
        length = pos (length payload);
        header_len = length (encode_tag number context (length payload));
      })
unfolding encode_context_tag
context_field-decodes number payload rest hn hp =
    ap decode_tag_number (append_assoc (encode_tag number context (length payload)) payload rest)
    ∙ decode_tag_number-encode_tag number context (length payload) (payload ++ rest) hn
        (omega arith) hp

pub length-context_tag :
    (number : ℕ) (payload : List ℕ)
    → length (encode_context_tag number payload)
      ≡ length (encode_tag number context (length payload)) + length payload
unfolding encode_context_tag
length-context_tag number payload =
    length-append (encode_tag number context (length payload)) payload
