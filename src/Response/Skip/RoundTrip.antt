-- ===== src/Response/Skip/RoundTrip.antt =====
-- `skipToContextClosingTag` over the values that an acknowledgement encloses.
use bacnet_go.Base.{
  ℕ, zero, suc, ◌+◌, ◌^◌, ◌≤◌, ◌<◌, ◌≡◌, ap, ◌∙◌, true, List, ◌++◌, length, length-append,
  append_assoc, arith,
}
use bacnet_go.Base.Int.{pos}
use bacnet_go.Go.{ok}
use bacnet_go.Wire.Number.{application_tagged, encode_boolean_tag}
use bacnet_go.Wire.Tag.{application, encode_tag, encode_closing_tag, decode_tag_number}
use bacnet_go.Wire.Tag.RoundTrip.{
  decode_tag_number-encode_tag, decode_tag_number-encode_closing_tag, encode_tag_nonempty,
}
use bacnet_go.Response.Position.{At, At-length, At-append, slice_from-At, length-encode_closing_tag}
use bacnet_go.Response.Skip.{returns, goes_on, skip_round, skip_loop, skip_to_context_closing_tag}

-- A round over a tagged payload goes on behind it.
skip_round-tagged :
    {bytes : List ℕ} {offset : ℕ} (want number : ℕ) (payload rest : List ℕ)
    → number < 15
    → length payload < 2 ^ 32
    → At bytes offset (application_tagged number payload ++ rest)
    → skip_round bytes offset want
      ≡ ok (goes_on (offset + length (application_tagged number payload)))
unfolding skip_round
skip_round-tagged {bytes} {offset} want number payload rest hn hp a = ground (
  arith,
  slice_from-At a,
  append_assoc (encode_tag number application (length payload)) payload rest,
  decode_tag_number-encode_tag number application (length payload) (payload ++ rest) hn,
  At-length a,
  length-append (encode_tag number application (length payload) ++ payload) rest,
  length-append (encode_tag number application (length payload)) payload,
)

-- A round at the closing tag returns the offset behind it.
skip_round-closing :
    {bytes : List ℕ} {offset : ℕ} (want : ℕ) (rest : List ℕ)
    → want < 256
    → At bytes offset (encode_closing_tag want ++ rest)
    → skip_round bytes offset want ≡ ok (returns (offset + length (encode_closing_tag want)))
unfolding skip_round
skip_round-closing {bytes} {offset} want rest hw a =
    ground (arith, slice_from-At a, decode_tag_number-encode_closing_tag want rest hw)

-- One more round of the loop.
skip_loop_step :
    (fuel : ℕ) (bytes : List ℕ) (offset next want : ℕ)
    → offset < length bytes
    → skip_round bytes offset want ≡ ok (goes_on next)
    → skip_loop (suc fuel) bytes offset want ≡ skip_loop fuel bytes next want
unfolding skip_loop
skip_loop_step fuel bytes offset next want h e = ground arith

skip_loop_end :
    (fuel : ℕ) (bytes : List ℕ) (offset end want : ℕ)
    → offset < length bytes
    → skip_round bytes offset want ≡ ok (returns end)
    → skip_loop (suc fuel) bytes offset want ≡ ok end
unfolding skip_loop
skip_loop_end fuel bytes offset end want h e = ground arith

-- One tagged value and the closing tag behind it: two rounds.
skip_loop-value :
    (fuel : ℕ) {bytes : List ℕ} {offset : ℕ} (want number : ℕ) (payload rest : List ℕ)
    → 2 ≤ fuel
    → want < 15
    → number < 15
    → length payload < 2 ^ 32
    → At bytes offset (application_tagged number payload ++ (encode_closing_tag want ++ rest))
    → skip_loop fuel bytes offset want
      ≡ ok (offset + length (application_tagged number payload) + 1)
skip_loop-value zero want number payload rest hf hw hn hp a = absurd (omega arith)
skip_loop-value (suc zero) want number payload rest hf hw hn hp a = absurd (omega arith)
skip_loop-value (suc (suc fuel)) {bytes} {offset} want number payload rest hf hw hn hp a =
    let behind =
      At-append (application_tagged number payload) (encode_closing_tag want ++ rest) a in
    let one = length-encode_closing_tag want hw in
    skip_loop_step (suc fuel) bytes offset _ want
      (omega (arith, At-length behind, length-append (encode_closing_tag want) rest))
      (skip_round-tagged want number payload (encode_closing_tag want ++ rest) hn hp a)
    ∙ skip_loop_end fuel bytes _ _ want
        (omega (arith, At-length behind, length-append (encode_closing_tag want) rest))
        (skip_round-closing want rest (omega arith) behind)
    ∙ ap (λ n. ok (offset + length (application_tagged number payload) + n)) one

pub skip-value :
    {bytes : List ℕ} {offset : ℕ} (want number : ℕ) (payload rest : List ℕ)
    → want < 15
    → number < 15
    → length payload < 2 ^ 32
    → At bytes offset (application_tagged number payload ++ (encode_closing_tag want ++ rest))
    → skip_to_context_closing_tag bytes offset want
      ≡ ok (offset + length (application_tagged number payload) + 1)
unfolding skip_to_context_closing_tag
skip-value {bytes} {offset} want number payload rest hw hn hp a =
    skip_loop-value (length bytes) want number payload rest
      (omega (
        arith,
        At-length a,
        length-append (application_tagged number payload) (encode_closing_tag want ++ rest),
        length-append (encode_tag number application (length payload)) payload,
        length-append (encode_closing_tag want) rest,
        encode_tag_nonempty number application (length payload),
        length-encode_closing_tag want hw,
      ))
      hw hn hp a

-- Two tagged values in front of the closing tag: three rounds.
skip_loop-values :
    (fuel : ℕ) {bytes : List ℕ} {offset : ℕ} (want number : ℕ) (first second rest : List ℕ)
    → 3 ≤ fuel
    → want < 15
    → number < 15
    → length first < 2 ^ 32
    → length second < 2 ^ 32
    → At bytes offset (
        application_tagged number first
        ++ (application_tagged number second ++ (encode_closing_tag want ++ rest)))
    → skip_loop fuel bytes offset want
      ≡ ok (
          offset
          + length (application_tagged number first)
          + length (application_tagged number second)
          + 1)
skip_loop-values zero want number first second rest hf hw hn h1 h2 a = absurd (omega arith)
skip_loop-values (suc fuel) {bytes} {offset} want number first second rest hf hw hn h1 h2 a =
    let tail = application_tagged number second ++ (encode_closing_tag want ++ rest) in
    let behind = At-append (application_tagged number first) tail a in
    skip_loop_step fuel bytes offset _ want
      (omega (
        arith,
        At-length a,
        length-append (application_tagged number first) tail,
        length-append (encode_tag number application (length first)) first,
        encode_tag_nonempty number application (length first),
      ))
      (skip_round-tagged want number first tail hn h1 a)
    ∙ skip_loop-value fuel want number second rest (omega arith) hw hn h2 behind

pub skip-values :
    {bytes : List ℕ} {offset : ℕ} (want number : ℕ) (first second rest : List ℕ)
    → want < 15
    → number < 15
    → length first < 2 ^ 32
    → length second < 2 ^ 32
    → At bytes offset (
        application_tagged number first
        ++ (application_tagged number second ++ (encode_closing_tag want ++ rest)))
    → skip_to_context_closing_tag bytes offset want
      ≡ ok (
          offset
          + length (application_tagged number first)
          + length (application_tagged number second)
          + 1)
unfolding skip_to_context_closing_tag
skip-values {bytes} {offset} want number first second rest hw hn h1 h2 a =
    let tail = application_tagged number second ++ (encode_closing_tag want ++ rest) in
    skip_loop-values (length bytes) want number first second rest
      (omega (
        arith,
        At-length a,
        length-append (application_tagged number first) tail,
        length-append (encode_tag number application (length first)) first,
        encode_tag_nonempty number application (length first),
        length-append (application_tagged number second) (encode_closing_tag want ++ rest),
        length-append (encode_tag number application (length second)) second,
        encode_tag_nonempty number application (length second),
        length-append (encode_closing_tag want) rest,
        length-encode_closing_tag want hw,
      ))
      hw hn h1 h2 a

-- A boolean true within a [4] is stepped over together with the closing tag behind it: its header
-- is read as one of a payload of one byte, so the round goes on behind the end of the value.
pub skip_round-boolean_true :
    {bytes : List ℕ} {offset : ℕ} (rest : List ℕ)
    → At bytes offset (encode_boolean_tag true ++ (encode_closing_tag 4 ++ rest))
    → skip_round bytes offset 4 ≡ ok (goes_on (offset + 1 + 1))
unfolding skip_round encode_boolean_tag encode_tag
skip_round-boolean_true {bytes} {offset} rest a =
    let whole = encode_boolean_tag true ++ (encode_closing_tag 4 ++ rest) in
    let header : decode_tag_number whole
        ≡ ok (record { number = 1; class = application; length = pos 1; header_len = 1 }) =
      decode_tag_number-encode_tag 1 application 1 (encode_closing_tag 4 ++ rest) (omega arith)
        (omega arith) (omega arith) in
    ground (
      arith,
      slice_from-At a,
      header,
      At-length a,
      length-append (encode_boolean_tag true) (encode_closing_tag 4 ++ rest),
      length-append (encode_closing_tag 4) rest,
      length-encode_closing_tag 4 (omega arith),
    )
