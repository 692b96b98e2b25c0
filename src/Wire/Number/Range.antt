-- ===== src/Wire/Number/Range.antt =====
-- The numbers that are read from bytes lie in the ranges of their Go types.
use bacnet_go.Base.{ℕ, ◌+◌, ◌*◌, ◌^◌, ◌<◌, List, All, get_or, get_or_lem, arith}
use bacnet_go.Base.Bits.{bit_or_sum_right}
use bacnet_go.Base.Int.{IsInt32}
use bacnet_go.Go.{IsByte}
use bacnet_go.Wire.Number.{decode_signed, decode_real, decode_double}
use bacnet_go.Wire.Number.RoundTrip.{three_bytes_sum}

-- The bytes of a payload, and the zeros behind them.
get_or-lt : (bytes : List ℕ) (i : ℕ) → All IsByte bytes → get_or bytes i 0 < 256
get_or-lt bytes i h = get_or_lem IsByte bytes i 0 h (omega arith)

pub decode_signed-IsInt32 : (bytes : List ℕ) → All IsByte bytes → IsInt32 (decode_signed bytes)
unfolding decode_signed
decode_signed-IsInt32 bytes h =
    let a = get_or bytes 0 0 in
    let b = get_or bytes 1 0 in
    let c = get_or bytes 2 0 in
    ground (
      arith,
      get_or-lt bytes 0 h,
      get_or-lt bytes 1 h,
      get_or-lt bytes 2 h,
      get_or-lt bytes 3 h,
      three_bytes_sum a b c,
      bit_or_sum_right 24 255 (a * 2 ^ 16 + b * 2 ^ 8 + c),
    )

pub decode_real-lt : (bytes : List ℕ) → All IsByte bytes → decode_real bytes < 2 ^ 32
unfolding decode_real
decode_real-lt bytes h =
    ground
      (arith, get_or-lt bytes 0 h, get_or-lt bytes 1 h, get_or-lt bytes 2 h, get_or-lt bytes 3 h)

pub decode_double-lt : (bytes : List ℕ) → All IsByte bytes → decode_double bytes < 2 ^ 64
unfolding decode_double
decode_double-lt bytes h = ground (
  arith,
  get_or-lt bytes 0 h,
  get_or-lt bytes 1 h,
  get_or-lt bytes 2 h,
  get_or-lt bytes 3 h,
  get_or-lt bytes 4 h,
  get_or-lt bytes 5 h,
  get_or-lt bytes 6 h,
  get_or-lt bytes 7 h,
)
