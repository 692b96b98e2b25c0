-- ===== src/Wire/Npdu/RoundTrip.antt =====
-- `DecodeNPDU` on what the two encoders write.
use bacnet_go.Base.{
  ℕ, zero, suc, ◌+◌, ◌/◌, ◌%◌, ◌^◌, ◌<◌, ◌≡◌, refl, Bool, true, false, List, [], ◌∷◌, ◌++◌, length,
  get_or_prefix, append_assoc, length-append, take_prefix, drop_skip, drop, get_or_skip, arith,
  if◌then◌else◌, bit_or,
}
use bacnet_go.Base.Bits.{bit_and_bit, bit_or_sum_right}
use bacnet_go.Go.{ok, index, slice, slice_from, uint16}
use bacnet_go.Wire.Npdu.{
  Npdu, has_flag, dest_specifier, dest_part, source_part, message_part, new_npdu, encode_npdu,
  encode_npdu_with_dest, decode_npdu,
}

-- The control byte of the unrouted header is the priority, plus 4 when a reply is expected;
-- nothing else is set, and the payload is what follows the two bytes.
pub decode_npdu-encode_npdu :
    (expecting : Bool) (priority : ℕ) (rest : List ℕ)
    → priority < 4
    → decode_npdu (encode_npdu expecting priority ++ rest)
      ≡ ok
          (record (new_npdu 1 (if expecting then priority + 4 else priority)) { payload = rest }, 2)
unfolding decode_npdu encode_npdu dest_part source_part message_part index slice_from
decode_npdu-encode_npdu true priority rest h = ground (
  arith,
  bit_or_sum_right 2 1 priority,
  bit_and_bit 5 (priority + 4),
  bit_and_bit 3 (priority + 4),
  bit_and_bit 7 (priority + 4),
)
decode_npdu-encode_npdu false priority rest h =
    ground (arith, bit_and_bit 5 priority, bit_and_bit 3 priority, bit_and_bit 7 priority)

-- The first five bytes of a routed header.
abbrev fixed_part : ℕ → ℕ → ℕ → List ℕ
fixed_part control dest_net len =
    1 ∷ control ∷ (dest_net / 2 ^ 8 % 256) ∷ (dest_net % 256) ∷ len ∷ []

abbrev routed : ℕ → ℕ → List ℕ → List ℕ → List ℕ
routed control dest_net dest_addr tail =
    fixed_part control dest_net (length dest_addr) ++ dest_addr ++ tail

dest_part-routed :
    (control dest_net hop_count : ℕ) (dest_addr rest : List ℕ) (n : Npdu)
    → dest_net < 65536
    → has_flag n.control dest_specifier ≡ true
    → dest_part (routed control dest_net dest_addr (hop_count ∷ rest)) n 2
      ≡ ok (
        record n { dest_net = dest_net; dest_addr = dest_addr; dest_hop_count = hop_count },
        length dest_addr + 6,
      )
unfolding dest_part slice_from slice index uint16
dest_part-routed control dest_net hop_count dest_addr rest n hn flag = ground (
  arith,
  length-append dest_addr (hop_count ∷ rest),
  get_or_skip (fixed_part control dest_net (length dest_addr)) (dest_addr ++ hop_count ∷ rest)
      (length dest_addr) 0,
  get_or_prefix dest_addr hop_count rest 0,
  drop_skip (fixed_part control dest_net (length dest_addr)) (dest_addr ++ hop_count ∷ rest) 0,
  take_prefix dest_addr (hop_count ∷ rest),
)

drop-routed :
    (control dest_net hop_count : ℕ) (dest_addr rest : List ℕ)
    → drop (length dest_addr + 6) (routed control dest_net dest_addr (hop_count ∷ rest)) ≡ rest
drop-routed control dest_net hop_count dest_addr rest = ground (
  arith,
  drop_skip (fixed_part control dest_net (length dest_addr)) (dest_addr ++ hop_count ∷ rest)
      (length dest_addr + 1),
  drop_skip dest_addr (hop_count ∷ rest) 1,
)

routed_reply_bits : (p : ℕ) → p < 4 → bit_or (bit_or p 0x20) 0x04 ≡ p + 36
routed_reply_bits zero h = refl
routed_reply_bits (suc zero) h = refl
routed_reply_bits (suc (suc zero)) h = refl
routed_reply_bits (suc (suc (suc zero))) h = refl
routed_reply_bits (suc (suc (suc (suc p)))) h = absurd (omega arith)

-- The routed header comes back whole, for a network of 16 bits, an address of less than 256 bytes and
-- a priority of 2 bits: network, address, hop count, the flags and the priority.
pub decode_npdu-encode_npdu_with_dest :
    (dest_net : ℕ) (dest_addr : List ℕ) (hop_count : ℕ) (expecting : Bool) (priority : ℕ)
    (rest : List ℕ)
    → dest_net < 65536
    → length dest_addr < 256
    → priority < 4
    → decode_npdu (encode_npdu_with_dest dest_net dest_addr hop_count expecting priority ++ rest)
      ≡ ok (
        record (new_npdu 1 (if expecting then priority + 36 else priority + 32)) {
          dest_net = dest_net;
          dest_addr = dest_addr;
          dest_hop_count = hop_count;
          payload = rest;
        },
        length dest_addr + 6,
      )
unfolding decode_npdu encode_npdu_with_dest dest_part source_part message_part index slice
    slice_from uint16
decode_npdu-encode_npdu_with_dest dest_net dest_addr hop_count true priority rest hn ha hp =
    ground (
      arith,
      append_assoc dest_addr (hop_count ∷ []) rest,
      routed_reply_bits priority,
      bit_and_bit 5 (priority + 36),
      bit_and_bit 3 (priority + 36),
      bit_and_bit 7 (priority + 36),
      dest_part-routed (priority + 36) dest_net hop_count dest_addr rest
          (new_npdu 1 (priority + 36)) hn,
      length-append dest_addr (hop_count ∷ rest),
      drop-routed (priority + 36) dest_net hop_count dest_addr rest,
    )
decode_npdu-encode_npdu_with_dest dest_net dest_addr hop_count false priority rest hn ha hp =
    ground (
      arith,
      append_assoc dest_addr (hop_count ∷ []) rest,
      bit_or_sum_right 5 1 priority,
      bit_and_bit 5 (priority + 32),
      bit_and_bit 3 (priority + 32),
      bit_and_bit 7 (priority + 32),
      dest_part-routed (priority + 32) dest_net hop_count dest_addr rest
          (new_npdu 1 (priority + 32)) hn,
      length-append dest_addr (hop_count ∷ rest),
      drop-routed (priority + 32) dest_net hop_count dest_addr rest,
    )
