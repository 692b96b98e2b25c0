-- ===== src/Wire/Npdu.antt =====
-- protocol.go: the network layer header.
pub mod Laws
pub mod RoundTrip
use bacnet_go.Base.{
  ℕ, ◌+◌, ◌/◌, ◌%◌, Bool, true, not, List, [], ◌∷◌, ◌++◌, ltb, leb, ◌==◌, if◌then◌else◌, length,
  bit_and, bit_or,
}
use bacnet_go.Errors.{invalid_npdu, sentinel, wrapped, unsupported_version}
use bacnet_go.Go.{Result, ok, err, panic, fail, ◌>>=◌, index, slice, slice_from, uint16, put_uint16}

-- The fields that no flag asks for are zero, as in a new Go struct.
pub record Npdu : Type 0 where
  pub version : ℕ
  pub control : ℕ
  pub dest_net : ℕ
  pub dest_addr : List ℕ
  pub dest_hop_count : ℕ
  pub src_net : ℕ
  pub src_addr : List ℕ
  pub message_type : ℕ
  pub vendor_id : ℕ
  pub payload : List ℕ

-- `NPDUControl`
abbrev pub network_layer_message : ℕ
network_layer_message = 0x80

abbrev pub dest_specifier : ℕ
dest_specifier = 0x20

abbrev pub source_specifier : ℕ
source_specifier = 0x08

abbrev pub expecting_reply : ℕ
expecting_reply = 0x04

abbrev pub priority_normal : ℕ
priority_normal = 0x00

-- `control & flag != 0`
abbrev pub has_flag : ℕ → ℕ → Bool
has_flag control flag = not (bit_and control flag == 0)

unfoldable pub encode_npdu : Bool → ℕ → List ℕ
encode_npdu expecting priority =
    0x01 ∷ (if expecting then bit_or priority expecting_reply else priority) ∷ []

unfoldable pub encode_npdu_with_dest : ℕ → List ℕ → ℕ → Bool → ℕ → List ℕ
encode_npdu_with_dest dest_net dest_addr hop_count expecting priority =
    let control = bit_or priority dest_specifier in
    0x01 ∷ (if expecting then bit_or control expecting_reply else control) ∷ put_uint16 dest_net
    ++ (length dest_addr % 256) ∷ dest_addr
    ++ hop_count ∷ []

-- The three optional parts of the header; each returns the offset behind what it read.
unfoldable pub dest_part : List ℕ → Npdu → ℕ → Result (Npdu × ℕ)
dest_part bytes n offset =
    if has_flag n.control dest_specifier
    then (if ltb (length bytes) (offset + 3) then fail invalid_npdu else do
      net_bytes ← slice_from bytes offset
      net ← uint16 net_bytes
      addr_len ← index bytes (offset + 2)
      if ltb (length bytes) (offset + 3 + addr_len + 1) then fail invalid_npdu else do
        addr ← slice bytes (offset + 3) (offset + 3 + addr_len)
        hops ← index bytes (offset + 3 + addr_len)
        ok (
          record n { dest_net = net; dest_addr = addr; dest_hop_count = hops },
          offset + 3 + addr_len + 1,
        ))
    else ok (n, offset)

unfoldable pub source_part : List ℕ → Npdu → ℕ → Result (Npdu × ℕ)
source_part bytes n offset =
    if has_flag n.control source_specifier
    then (if ltb (length bytes) (offset + 3) then fail invalid_npdu else do
      net_bytes ← slice_from bytes offset
      net ← uint16 net_bytes
      addr_len ← index bytes (offset + 2)
      if ltb (length bytes) (offset + 3 + addr_len) then fail invalid_npdu else do
        addr ← slice bytes (offset + 3) (offset + 3 + addr_len)
        ok (record n { src_net = net; src_addr = addr }, offset + 3 + addr_len))
    else ok (n, offset)

unfoldable pub message_part : List ℕ → Npdu → ℕ → Result (Npdu × ℕ)
message_part bytes n offset =
    if has_flag n.control network_layer_message
    then (if ltb (length bytes) (offset + 1) then fail invalid_npdu else do
      type ← index bytes offset
      if leb 0x80 type
          then (if ltb (length bytes) (offset + 1 + 2) then fail invalid_npdu else do
            vendor_bytes ← slice_from bytes (offset + 1)
            vendor ← uint16 vendor_bytes
            ok (record n { message_type = type; vendor_id = vendor }, offset + 1 + 2))
          else ok (record n { message_type = type }, offset + 1))
    else ok (n, offset)

abbrev pub new_npdu : ℕ → ℕ → Npdu
new_npdu version control = record {
  version = version;
  control = control;
  dest_net = 0;
  dest_addr = [];
  dest_hop_count = 0;
  src_net = 0;
  src_addr = [];
  message_type = 0;
  vendor_id = 0;
  payload = [];
}

unfoldable pub decode_npdu : List ℕ → Result (Npdu × ℕ)
decode_npdu bytes = if ltb (length bytes) 2 then fail invalid_npdu else do
  version ← index bytes 0
  control ← index bytes 1
  if not (version == 0x01)
      then err (wrapped (unsupported_version version) (sentinel invalid_npdu))
      else do
        (with_dest, after_dest) ← dest_part bytes (new_npdu version control) 2
        (with_source, after_source) ← source_part bytes with_dest after_dest
        (with_message, offset) ← message_part bytes with_source after_source
        payload ← slice_from bytes offset
        ok (record with_message { payload = payload }, offset)
