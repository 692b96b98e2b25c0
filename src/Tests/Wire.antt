-- ===== src/Tests/Wire.antt =====
-- The tags, the numbers and the three headers at concrete inputs.
use bacnet_go.Base.{◌≡◌, true, [], ◌∷◌, ◌++◌, length, arith}
use bacnet_go.Base.Int.{pos}
use bacnet_go.Go.{Ensures, ok}
use bacnet_go.Wire.Npdu.{new_npdu, encode_npdu_with_dest, decode_npdu}
use bacnet_go.Wire.Npdu.RoundTrip.{decode_npdu-encode_npdu_with_dest}
use bacnet_go.Wire.Tag.{context, application, encode_tag, decode_tag_number}
use bacnet_go.Wire.Tag.RoundTrip.{
  decode_tag_number-encode_tag, decode_tag_number-encode_tag_extended,
}
use bacnet_go.Wire.Tag.Total.{IsHeader, decode_tag_number-IsHeader}

decode_tag_number-encode_tag_example :
    decode_tag_number (encode_tag 7 application 300 ++ (1 ∷ []))
    ≡ ok (record {
      number = 7;
      class = application;
      length = pos 300;
      header_len = length (encode_tag 7 application 300);
    })
decode_tag_number-encode_tag_example =
    decode_tag_number-encode_tag 7 application 300 (1 ∷ []) (omega arith) (omega arith)
      (omega arith)

decode_tag_number-encode_tag_extended_example :
    (decode_tag_number (encode_tag 20 context 100 ++ (1 ∷ 2 ∷ 3 ∷ []))
      ≡ ok (record { number = 20; class = context; length = pos 0; header_len = 2 }))
    × (length (encode_tag 20 context 100) ≡ 3)
decode_tag_number-encode_tag_extended_example =
    decode_tag_number-encode_tag_extended 20 context 100 (1 ∷ 2 ∷ 3 ∷ []) (omega arith)
      (omega arith) (omega arith)

-- A header that is cut off within its extended length.
decode_tag_number-IsHeader_example :
    Ensures (decode_tag_number (0x75 ∷ 0xFE ∷ 1 ∷ [])) (IsHeader (0x75 ∷ 0xFE ∷ 1 ∷ []))
decode_tag_number-IsHeader_example = decode_tag_number-IsHeader (0x75 ∷ 0xFE ∷ 1 ∷ [])

decode_npdu-encode_npdu_with_dest_example :
    decode_npdu (encode_npdu_with_dest 1001 (7 ∷ 8 ∷ []) 255 true 1 ++ (0x10 ∷ []))
    ≡ ok (
      record (new_npdu 1 37) {
        dest_net = 1001;
        dest_addr = 7 ∷ 8 ∷ [];
        dest_hop_count = 255;
        payload = 0x10 ∷ [];
      },
      8,
    )
decode_npdu-encode_npdu_with_dest_example =
    decode_npdu-encode_npdu_with_dest 1001 (7 ∷ 8 ∷ []) 255 true 1 (0x10 ∷ []) (omega arith)
      (omega arith) (omega arith)
