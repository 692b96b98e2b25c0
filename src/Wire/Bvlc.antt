-- ===== src/Wire/Bvlc.antt =====
-- protocol.go: the BACnet virtual link header, four bytes in front of every datagram.
use bacnet_go.Base.{ℕ, ◌+◌, ◌%◌, ◌^◌, ◌≡◌, List, ◌∷◌, ◌++◌, ltb, if◌then◌else◌, length, arith}
use bacnet_go.Errors.{invalid_bvlc}
use bacnet_go.Go.{Result, ok, fail, ◌>>=◌, index, slice, uint16, put_uint16}

pub record BvlcHeader : Type 0 where
  pub type : ℕ
  pub function : ℕ
  pub length : ℕ

-- `BVLCType` and the `BVLCFunction`s that the client sends or looks for.
abbrev pub bacnet_ip : ℕ
bacnet_ip = 0x81

abbrev pub forwarded_npdu : ℕ
forwarded_npdu = 0x04

abbrev pub register_foreign_device : ℕ
register_foreign_device = 0x05

abbrev pub original_unicast_npdu : ℕ
original_unicast_npdu = 0x0A

abbrev pub original_broadcast_npdu : ℕ
original_broadcast_npdu = 0x0B

unfoldable pub encode_bvlc : ℕ → ℕ → List ℕ
encode_bvlc function npdu_length = bacnet_ip ∷ function ∷ put_uint16 ((4 + npdu_length) % 2 ^ 16)

unfoldable pub decode_bvlc : List ℕ → Result BvlcHeader
decode_bvlc bytes = if ltb (length bytes) 4 then fail invalid_bvlc else do
  type ← index bytes 0
  function ← index bytes 1
  total ← slice bytes 2 4
  len ← uint16 total
  ok (record { type = type; function = function; length = len })

-- The header comes back, whatever follows it; the length field wraps at 65536.
pub decode_bvlc-encode_bvlc :
    (function npdu_length : ℕ) (rest : List ℕ)
    → decode_bvlc (encode_bvlc function npdu_length ++ rest)
      ≡ ok (record { type = bacnet_ip; function = function; length = (4 + npdu_length) % 2 ^ 16 })
unfolding decode_bvlc encode_bvlc index slice uint16
decode_bvlc-encode_bvlc function npdu_length rest = ground arith
