-- ===== src/Wire/Tag/Total.antt =====
-- `DecodeTagNumber` on any bytes at all.
use bacnet_go.Base.{ℕ, ◌≤◌, ◌<◌, ◌≡◌, List, length, arith}
use bacnet_go.Base.Int.{ℤ, pos, negsuc}
use bacnet_go.Go.{Ensures, index, slice_from, uint16, uint32}
use bacnet_go.Wire.Tag.{Tag, context, decode_tag_number}

-- The sentinels are -1 and -2, and only a context tag has one.
abbrev SentinelFits : ℕ → ℤ → Type 0
SentinelFits class (pos n) = Unit {0}
SentinelFits class (negsuc n) = (class ≡ context) × (n < 2)

-- What every later slice of the payload relies on.
pub record IsHeader (bytes : List ℕ) (t : Tag) : Type 0 where
  pub within : t.header_len ≤ length bytes
  pub starts : 1 ≤ t.header_len
  pub short : t.header_len ≤ 7
  pub sentinel : SentinelFits t.class t.length

-- `DecodeTagNumber` does not panic on any bytes, and the header that it reports lies within them.
pub decode_tag_number-IsHeader :
    (bytes : List ℕ) → Ensures (decode_tag_number bytes) (IsHeader bytes)
unfolding decode_tag_number index slice_from uint16 uint32
decode_tag_number-IsHeader bytes = ground arith
