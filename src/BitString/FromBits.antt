-- ===== src/BitString/FromBits.antt =====
-- `NewBitStringFromBits` packs the bits so that `Bit` reads each of them back.
use bacnet_go.Base.{
  ℕ, zero, suc, ◌+◌, ◌-◌, ◌*◌, ◌/◌, ◌%◌, ◌^◌, ◌≤◌, ◌<◌, ◌≡◌, inl, refl, ap, ◌∙◌, Bool, true, false,
  ◌&&◌, ◌||◌, List, [], ◌∷◌, leb, ◌==◌, if◌then◌else◌, length, get_or, length-replicate, arith,
  bit_or,
}
use bacnet_go.Base.Bits.{zero-bit_and}
use bacnet_go.Base.Int.{pos}
use bacnet_go.Go.{ok, make_bytes}
use bacnet_go.BitString.{BitString, bit_mask, or_at, set_bits, new_bit_string_from_bits, bit, len}
use bacnet_go.BitString.OneBit.{set_in, set_in-bit_or}
use bacnet_go.BitString.Laws.{bit-bit_value, IsBitString}

-- The bit at index `j` of the bytes, counted from the high end.
abbrev bit_at : List ℕ → ℕ → Bool
bit_at bytes j = set_in (get_or bytes (j / 8) 0) (j % 8)

-- What `or_at` leaves behind: bytes again, as many, with one of them changed.
or_at_lem :
    (bytes : List ℕ) (k mask : ℕ)
    → k < length bytes
    → (out : List ℕ) × (or_at bytes k mask ≡ ok out)
      × (length out ≡ length bytes)
      × ((j : ℕ)
          → get_or out j 0 ≡ (if k == j then bit_or (get_or bytes k 0) mask else get_or bytes j 0))
unfolding or_at
or_at_lem [] k mask h = absurd (omega arith)
or_at_lem (x ∷ xs) zero mask h = (bit_or x mask ∷ xs, refl, refl, reads)
  where
    reads :
        (j : ℕ)
        → get_or (bit_or x mask ∷ xs) j 0 ≡ (if 0 == j then bit_or x mask else get_or (x ∷ xs) j 0)
    reads zero = refl
    reads (suc j) = ground arith
or_at_lem (x ∷ xs) (suc k) mask h =
    let (out, e, n, reads) = or_at_lem xs k mask (omega arith) in
    (x ∷ out, rw e, omega arith, step out reads)
  where
    step :
        (out : List ℕ)
        → ((j : ℕ)
            → get_or out j 0 ≡ (if k == j then bit_or (get_or xs k 0) mask else get_or xs j 0))
        → (j : ℕ)
        → get_or (x ∷ out) j 0
          ≡ (if suc k == j then bit_or (get_or xs k 0) mask else get_or (x ∷ xs) j 0)
    step out reads zero = ground arith
    step out reads (suc j) = ground (arith, reads j)

-- A slot of bytes: every read is below 256.
abbrev AreBytes : List ℕ → Type 0
AreBytes bytes = (j : ℕ) → get_or bytes j 0 < 256

-- Setting bit `i` sets that bit and no other.
bit_at-or_at :
    (bytes : List ℕ) (i : ℕ)
    → i < 8 * length bytes
    → AreBytes bytes
    → (out : List ℕ) × (or_at bytes (i / 8) (bit_mask i) ≡ ok out)
      × (length out ≡ length bytes)
      × AreBytes out
      × ((j : ℕ) → bit_at out j ≡ (bit_at bytes j || i == j))
bit_at-or_at bytes i h small =
    let (out, e, n, reads) = or_at_lem bytes (i / 8) (bit_mask i) (omega arith) in
    (out, e, n, bounded out reads, changed out reads)
  where
    bounded :
        (out : List ℕ)
        → ((j : ℕ)
            → get_or out j 0 ≡ (
                if i / 8 == j
                then bit_or (get_or bytes (i / 8) 0) (bit_mask i)
                else get_or bytes j 0))
        → AreBytes out
    bounded out reads j = ground (
      arith,
      reads j,
      small j,
      set_in-bit_or (i % 8) 0 (get_or bytes (i / 8) 0) (omega arith) (omega arith) (small (i / 8)),
    )

    changed :
        (out : List ℕ)
        → ((j : ℕ)
            → get_or out j 0 ≡ (
                if i / 8 == j
                then bit_or (get_or bytes (i / 8) 0) (bit_mask i)
                else get_or bytes j 0))
        → (j : ℕ) → bit_at out j ≡ (bit_at bytes j || i == j)
    changed out reads j = ground (
      arith,
      reads (j / 8),
      set_in-bit_or (i % 8) (j % 8) (get_or bytes (i / 8) 0) (omega arith) (omega arith)
          (small (i / 8)),
    )

get_or_cons :
    (v : Bool) (vs : List Bool) (n : ℕ)
    → get_or (v ∷ vs) n false ≡ (if n == 0 then v else get_or vs (n - 1) false)
get_or_cons v vs zero = refl
get_or_cons v vs (suc n) = ground arith

-- The bits of a list from index `i` on are its head at `i` and its tail from `i + 1` on.
shift :
    (v : Bool) (i j : ℕ) (vs : List Bool)
    → (v && i == j || leb (i + 1) j && get_or vs (j - (i + 1)) false)
      ≡ (leb i j && get_or (v ∷ vs) (j - i) false)
shift v i j vs = ground (arith, get_or_cons v vs (j - i))

-- The loop sets the bits of `vs` from index `i` on, and keeps the others.
set_bits_lem :
    (i : ℕ) (vs : List Bool) (bytes : List ℕ)
    → i + length vs ≤ 8 * length bytes
    → AreBytes bytes
    → (out : List ℕ) × (set_bits i vs bytes ≡ ok out)
      × (length out ≡ length bytes)
      × AreBytes out
      × ((j : ℕ) → bit_at out j ≡ (bit_at bytes j || leb i j && get_or vs (j - i) false))
unfolding set_bits
set_bits_lem i [] bytes h small = (bytes, refl, refl, small, λ j. ground arith)
set_bits_lem i (false ∷ vs) bytes h small =
    let (out, e, n, small', bits) = set_bits_lem (i + 1) vs bytes (omega arith) small in
    (out, e, n, small', λ j. bits j ∙ ap (λ b. bit_at bytes j || b) (shift false i j vs))
set_bits_lem i (true ∷ vs) bytes h small =
    let (mid, e, n, small', bits) = bit_at-or_at bytes i (omega arith) small in
    let (out, e', n', small'', bits') = set_bits_lem (i + 1) vs mid (omega arith) small' in
    (out, rw e e', n' ∙ n, small'', λ j. ground (arith, bits' j, bits j, shift true i j vs))

length-make_bytes : (n : ℕ) → length (make_bytes n) ≡ n
length-make_bytes n = length-replicate n 0

zeros : (n j : ℕ) → get_or (make_bytes n) j 0 ≡ 0
zeros zero j = refl
zeros (suc n) zero = refl
zeros (suc n) (suc j) = zeros n j

get_or_beyond : (vs : List Bool) (j : ℕ) → length vs ≤ j → get_or vs j false ≡ false
get_or_beyond [] j h = refl
get_or_beyond (v ∷ vs) zero h = absurd (omega arith)
get_or_beyond (v ∷ vs) (suc j) h = get_or_beyond vs j (omega arith)

abbrev byte_count : List Bool → ℕ
byte_count bits = (length bits + 7) / 8

abbrev packed : List Bool → List ℕ → BitString
packed bits out = record { unused_bits = (byte_count bits * 8 - length bits) % 256; bytes = out }

packed_lem :
    (bits : List Bool) (out : List ℕ)
    → 0 < length bits
    → length out ≡ byte_count bits
    → ((j : ℕ) → bit_at out j ≡ get_or bits j false)
    → IsBitString (packed bits out)
      × (len (packed bits out) ≡ pos (length bits))
      × ((j : ℕ) → bit (packed bits out) (pos j) ≡ ok (get_or bits j false))
unfolding len
packed_lem bits out h n reads = (
  (omega arith, inl (omega arith)),
  ground arith,
  λ j. rw (bit-bit_value (packed bits out) (pos j)) (ground (arith, reads j, get_or_beyond bits j)),
)

pack :
    (bits : List Bool)
    → (out : List ℕ) × (set_bits 0 bits (make_bytes (byte_count bits)) ≡ ok out)
      × (length out ≡ byte_count bits)
      × ((j : ℕ) → bit_at out j ≡ get_or bits j false)
pack bits =
    let (out, e, n, small, reads) =
      set_bits_lem 0 bits (make_bytes (byte_count bits))
        (omega (arith, length-make_bytes (byte_count bits)))
        (λ j. ground (arith, zeros (byte_count bits) j)) in
    (
      out,
      e,
      n ∙ length-make_bytes (byte_count bits),
      λ j.
          ground
            (arith, reads j, zeros (byte_count bits) (j / 8), zero-bit_and (0x80 / 2 ^ (j % 8))),
    )

-- `NewBitStringFromBits` returns a well-formed bit string with as many bits as it was given, and
-- `Bit` reads each of them back, and false from there on.
pub new_bit_string_from_bits-bit :
    (bits : List Bool)
    → (b : BitString) × (new_bit_string_from_bits bits ≡ ok b)
      × IsBitString b
      × (len b ≡ pos (length bits))
      × ((j : ℕ) → bit b (pos j) ≡ ok (get_or bits j false))
unfolding new_bit_string_from_bits len
new_bit_string_from_bits-bit [] = (
  record { unused_bits = 0; bytes = [] },
  refl,
  ground arith,
  refl,
  λ j. rw bit-bit_value (ground arith),
)
new_bit_string_from_bits-bit (v ∷ vs) =
    let (out, e, n, reads) = pack (v ∷ vs) in
    let (wf, size, bits) = packed_lem (v ∷ vs) out (omega arith) n reads in
    (packed (v ∷ vs) out, rw e (ground arith), wf, size, bits)
