-- ===== src/Response/Skip.antt =====
-- client.go: `skipToContextClosingTag`.
pub mod Total
pub mod RoundTrip
use bacnet_go.Base.{
  ℕ, zero, suc, ◌+◌, ◌&&◌, Bool, true, false, List, ltb, ◌==◌, if◌then◌else◌, length,
}
use bacnet_go.Base.Int.{ℤ, pos, negsuc}
use bacnet_go.Go.{Result, ok, err, panic, ◌>>=◌, slice_from}
use bacnet_go.Wire.Tag.{Tag, context, is_closing, decode_tag_number}

-- One round of the loop: where it returns, or the offset of the next round.
pub data Skip : Type 0 where
  returns : ℕ → Skip
  goes_on : ℕ → Skip

-- `if length > 0 { … }`, at the offset behind the header.
skip_payload : List ℕ → ℕ → ℤ → Skip
skip_payload bytes offset (negsuc n) = goes_on offset
skip_payload bytes offset (pos n) =
    if ltb 0 n
    then (if ltb (length bytes) (offset + n) then returns (length bytes) else goes_on (offset + n))
    else goes_on offset

skip_tag : List ℕ → ℕ → ℕ → Result Tag → Result Skip
unfolding skip_payload
skip_tag bytes offset want panic = panic
skip_tag bytes offset want (err e) = ok (returns (length bytes))
skip_tag bytes offset want (ok t) = ok (
    if is_closing t.length && t.class == context && t.number == want
    then returns (offset + t.header_len)
    else skip_payload bytes (offset + t.header_len) t.length)

unfoldable pub skip_round : List ℕ → ℕ → ℕ → Result Skip
unfolding skip_tag
skip_round bytes offset want = do
  tail ← slice_from bytes offset
  skip_tag bytes offset want (decode_tag_number tail)

-- `for offset < len(data)`. With no fuel left the answer is a panic; a round reads a byte at least,
-- so `length bytes` is enough.
unfoldable pub skip_loop : ℕ → List ℕ → ℕ → ℕ → Result ℕ
skip_loop zero bytes offset want = if ltb offset (length bytes) then panic else ok offset
skip_loop (suc fuel) bytes offset want = elim (ltb offset (length bytes)) [
  | false ↦ ok offset
  | true ↦ do
    round ← skip_round bytes offset want
    elim round [ returns end ↦ ok end | goes_on next ↦ skip_loop fuel bytes next want ]
]

unfoldable pub skip_to_context_closing_tag : List ℕ → ℕ → ℕ → Result ℕ
skip_to_context_closing_tag bytes offset want = skip_loop (length bytes) bytes offset want
