-- ===== src/Response/Skip/Total.antt =====
-- `skipToContextClosingTag` on any bytes.
use bacnet_go.Base.{ℕ, zero, suc, ◌+◌, ◌≤◌, ◌<◌, List, length, length-drop, drop, arith}
use bacnet_go.Go.{Succeeds, slice_from}
use bacnet_go.Wire.Tag.Total.{decode_tag_number-IsHeader}
use bacnet_go.Response.Skip.{
  Skip, returns, goes_on, skip_round, skip_loop, skip_to_context_closing_tag,
}

abbrev IsRound : List ℕ → ℕ → Skip → Type 0
IsRound bytes offset (returns end) = (offset ≤ end) × (end ≤ length bytes)
IsRound bytes offset (goes_on next) = (offset < next) × (next ≤ length bytes)

skip_round-IsRound :
    (bytes : List ℕ) (offset want : ℕ)
    → offset < length bytes
    → Succeeds (skip_round bytes offset want) (IsRound bytes offset)
unfolding skip_round slice_from
skip_round-IsRound bytes offset want h =
    ground (arith, length-drop offset bytes, decode_tag_number-IsHeader (drop offset bytes))

abbrev Reaches : List ℕ → ℕ → ℕ → Type 0
Reaches bytes offset end = (offset ≤ end) × (end ≤ length bytes)

skip_loop-Reaches :
    (fuel : ℕ) (bytes : List ℕ) (offset want : ℕ)
    → offset ≤ length bytes
    → length bytes ≤ offset + fuel
    → Succeeds (skip_loop fuel bytes offset want) (Reaches bytes offset)
unfolding skip_loop
skip_loop-Reaches zero bytes offset want h f = ground arith
skip_loop-Reaches (suc fuel) bytes offset want h f = grind (
  arith,
  skip_round-IsRound bytes offset want,
  λ (next : ℕ). skip_loop-Reaches fuel bytes next want,
)

-- From an offset within the bytes the loop ends, does not panic, and returns an offset from its start up to the end of the bytes.
pub skip_to_context_closing_tag-Reaches :
    (bytes : List ℕ) (offset want : ℕ)
    → offset ≤ length bytes
    → Succeeds (skip_to_context_closing_tag bytes offset want) (Reaches bytes offset)
unfolding skip_to_context_closing_tag
skip_to_context_closing_tag-Reaches bytes offset want h =
    skip_loop-Reaches (length bytes) bytes offset want h (omega arith)
