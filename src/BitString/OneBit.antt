-- ===== src/BitString/OneBit.antt =====
-- One bit of a byte, set by a mask and read by a mask.
use bacnet_go.Base.{
  ℕ, zero, suc, ◌/◌, ◌^◌, ◌<◌, ◌≡◌, refl, Bool, true, false, not, ◌&&◌, ◌||◌, ltb, ◌==◌,
  if◌then◌else◌, arith, bit_and, bit_or,
}

-- A table over the numbers from 0 up to a bound, read off by computation.
table : (ℕ → Bool) → ℕ → Bool
table test zero = true
table test (suc bound) = let below = table test bound in if test bound then below else false

entry_of : (test : ℕ → Bool) (i bound : ℕ) → i < bound → table test bound ≡ true → test i ≡ true
unfolding table
entry_of test i (suc bound) inside full = ground (arith, entry_of test i bound)
entry_of test i zero inside full = ground arith

abbrev pub set_in : ℕ → ℕ → Bool
set_in octet k = not (bit_and octet (0x80 / 2 ^ k) == 0)

abbrev same : Bool → Bool → Bool
same true b = b
same false b = not b

same→eq : (a b : Bool) → same a b ≡ true → a ≡ b
same→eq true b h = ground arith
same→eq false b h = ground arith

-- Setting one bit of a byte sets that bit, keeps the others, and leaves a byte.
abbrev one_bit_law : ℕ → ℕ → ℕ → Bool
one_bit_law k j octet =
    ltb (bit_or octet (0x80 / 2 ^ k)) 256
    && same (set_in (bit_or octet (0x80 / 2 ^ k)) j) (set_in octet j || k == j)

one_bit_table : table (λ k. table (λ j. table (λ octet. one_bit_law k j octet) 256) 8) 8 ≡ true
unfolding table
one_bit_table = refl

one_bit_lem : (k j octet : ℕ) → k < 8 → j < 8 → octet < 256 → one_bit_law k j octet ≡ true
one_bit_lem k j octet hk hj ho =
    entry_of (one_bit_law k j) octet 256 ho
      (entry_of (λ j'. table (one_bit_law k j') 256) j 8 hj (entry_of _ k 8 hk one_bit_table))

both : (a b : Bool) → (a && b) ≡ true → (a ≡ true) × (b ≡ true)
both a b h = ground arith

ltb→lt : (a b : ℕ) → ltb a b ≡ true → a < b
ltb→lt a b h = ground arith

pub set_in-bit_or :
    (k j octet : ℕ)
    → k < 8
    → j < 8
    → octet < 256
    → (bit_or octet (0x80 / 2 ^ k) < 256)
      × (set_in (bit_or octet (0x80 / 2 ^ k)) j ≡ (set_in octet j || k == j))
set_in-bit_or k j octet hk hj ho =
    let (small, agree) = both _ _ (one_bit_lem k j octet hk hj ho) in
    (ltb→lt _ _ small, same→eq _ _ agree)
