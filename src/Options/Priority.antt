-- ===== src/Options/Priority.antt =====
-- The priority of a WriteProperty request.
use bacnet_go.Base.{ℕ, ◌≤◌, List, [], ◌∷◌, Option, none, some, arith}
use bacnet_go.Options.{
  WriteOption, WriteOptions, write_array_index, write_priority, with_priority, no_write_options,
  apply_write_options,
}

abbrev IsPriority : Option ℕ → Type 0
IsPriority none = Unit {0}
IsPriority (some priority) = (1 ≤ priority) × (priority ≤ 16)

apply_write_options-IsPriority :
    (opts : List WriteOption) (o : WriteOptions)
    → IsPriority o.priority
    → IsPriority (apply_write_options opts o).priority
unfolding apply_write_options with_priority
apply_write_options-IsPriority [] o h = h
apply_write_options-IsPriority (write_array_index index ∷ opts) o h =
    apply_write_options-IsPriority opts _ h
apply_write_options-IsPriority (write_priority priority ∷ opts) o h =
    apply_write_options-IsPriority opts _ (ground arith)

-- Whatever options a caller of `WriteProperty` gives, in whatever order, the priority is absent or
-- within 1 to 16.
apply_write_options-IsPriority_all :
    (opts : List WriteOption) → IsPriority (apply_write_options opts no_write_options).priority
apply_write_options-IsPriority_all opts = apply_write_options-IsPriority opts no_write_options tt
