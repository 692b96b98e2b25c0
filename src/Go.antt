-- ===== src/Go.antt =====
-- What the sources use of the Go language and of encoding/binary: results with an error or a
-- run-time panic, byte slices, and big-endian integers.
-- A slice is the list of its bytes. A bound is checked against the length: Go allows an upper
-- bound up to the capacity, so `panic` stands here also where Go would read stale bytes.
use bacnet_go.Base.{
  ℕ, ◌+◌, ◌-◌, ◌*◌, ◌/◌, ◌%◌, ◌^◌, ◌≤◌, ◌<◌, ◌≡◌, refl, ◌&&◌, List, [], ◌∷◌, arith, ltb, leb,
  if◌then◌else◌, length, get_or, take, drop, replicate, ◌++◌, length-append, length-take,
  length-drop, drop_prefix, take_prefix,
}
use bacnet_go.Errors.{Error, sentinel, Sentinel}

pub data Result {ℓ} (A : Type ℓ) : Type ℓ where
  ok : A → Result A
  err : Error → Result A
  panic : Result A

infixl 5 ◌>>=◌
abbrev pub ◌>>=◌ {ℓ κ} : {A : Type ℓ} {B : Type κ} → Result A → (A → Result B) → Result B
ok a >>= f = f a
err e >>= f = err e
panic >>= f = panic

abbrev pub fail {ℓ} : {A : Type ℓ} → Sentinel → Result A
fail s = err (sentinel s)

-- `make([]byte, n)`
abbrev pub make_bytes : ℕ → List ℕ
make_bytes n = replicate n 0

abbrev pub IsByte : ℕ → Type 0
IsByte b = b < 256

-- `bytes[i]`
unfoldable pub index : List ℕ → ℕ → Result ℕ
index bytes i = if ltb i (length bytes) then ok (get_or bytes i 0) else panic

-- `bytes[lo:]`
unfoldable pub slice_from : List ℕ → ℕ → Result (List ℕ)
slice_from bytes lo = if leb lo (length bytes) then ok (drop lo bytes) else panic

-- `bytes[lo:hi]`
unfoldable pub slice : List ℕ → ℕ → ℕ → Result (List ℕ)
slice bytes lo hi =
    if leb lo hi && leb hi (length bytes) then ok (take (hi - lo) (drop lo bytes)) else panic

-- `binary.BigEndian.Uint16`, `Uint32` and `Uint64`, which look at the first bytes only.
unfoldable pub uint16 : List ℕ → Result ℕ
uint16 bytes =
    if ltb (length bytes) 2 then panic else ok (get_or bytes 0 0 * 256 + get_or bytes 1 0)

unfoldable pub uint32 : List ℕ → Result ℕ
uint32 bytes =
    if ltb (length bytes) 4
    then panic
    else ok (
        get_or bytes 0 0 * 2 ^ 24
        + get_or bytes 1 0 * 2 ^ 16
        + get_or bytes 2 0 * 2 ^ 8
        + get_or bytes 3 0)

-- `binary.BigEndian.PutUint16` and the four shifts that write a uint32.
abbrev pub put_uint16 : ℕ → List ℕ
put_uint16 v = (v / 2 ^ 8 % 256) ∷ (v % 256) ∷ []

abbrev pub put_uint32 : ℕ → List ℕ
put_uint32 v = (v / 2 ^ 24 % 256) ∷ (v / 2 ^ 16 % 256) ∷ (v / 2 ^ 8 % 256) ∷ (v % 256) ∷ []

abbrev pub put_uint64 : ℕ → List ℕ
put_uint64 v =
    (v / 2 ^ 56 % 256) ∷ (v / 2 ^ 48 % 256) ∷ (v / 2 ^ 40 % 256) ∷ (v / 2 ^ 32 % 256) ∷ put_uint32 v

-- The result is not a panic, and what a success returns satisfies `P`.
abbrev pub Ensures {ℓ} : {A : Type ℓ} → Result A → (A → Type 0) → Type 0
Ensures (ok a) P = P a
Ensures (err e) P = Unit {0}
Ensures panic P = ⊥

-- Nothing is said of the value: only that there is no panic.
abbrev pub Any {ℓ} : {A : Type ℓ} → A → Type 0
Any a = Unit {0}

-- There is a value, which satisfies `P`: no panic and no error.
abbrev pub Succeeds {ℓ} : {A : Type ℓ} → Result A → (A → Type 0) → Type 0
Succeeds (ok a) P = P a
Succeeds (err e) P = ⊥
Succeeds panic P = ⊥

-- The rule for a sequence of two steps.
Ensures->>= {ℓ κ} :
    {A : Type ℓ} {B : Type κ} (m : Result A) (f : A → Result B) (P : A → Type 0) (Q : B → Type 0)
    → Ensures m P
    → ((a : A) → P a → Ensures (f a) Q)
    → Ensures (m >>= f) Q
Ensures->>= (ok a) f P Q h k = k a h
Ensures->>= (err e) f P Q h k = tt
Ensures->>= panic f P Q h k = absurd h

pub Succeeds->>= {ℓ κ} :
    {A : Type ℓ} {B : Type κ} (m : Result A) (f : A → Result B) (P : A → Type 0) (Q : B → Type 0)
    → Succeeds m P
    → ((a : A) → P a → Succeeds (f a) Q)
    → Succeeds (m >>= f) Q
Succeeds->>= (ok a) f P Q h k = k a h
Succeeds->>= (err e) f P Q h k = absurd h
Succeeds->>= panic f P Q h k = absurd h

Ensures-weaken {ℓ} :
    {A : Type ℓ} (m : Result A) (P Q : A → Type 0)
    → Ensures m P
    → ((a : A) → P a → Q a)
    → Ensures m Q
Ensures-weaken (ok a) P Q h k = k a h
Ensures-weaken (err e) P Q h k = tt
Ensures-weaken panic P Q h k = h

-- Reads within bounds succeed.
index-ok : (bytes : List ℕ) (i : ℕ) → i < length bytes → index bytes i ≡ ok (get_or bytes i 0)
unfolding index
index-ok bytes i h = ground arith

pub slice_from-ok :
    (bytes : List ℕ) (lo : ℕ) → lo ≤ length bytes → slice_from bytes lo ≡ ok (drop lo bytes)
unfolding slice_from
slice_from-ok bytes lo h = ground arith

slice-ok :
    (bytes : List ℕ) (lo hi : ℕ)
    → lo ≤ hi
    → hi ≤ length bytes
    → slice bytes lo hi ≡ ok (take (hi - lo) (drop lo bytes))
unfolding slice
slice-ok bytes lo hi h k = ground arith

-- The middle of three pieces.
pub slice_middle :
    (xs ys zs : List ℕ) → slice (xs ++ (ys ++ zs)) (length xs) (length xs + length ys) ≡ ok ys
unfolding slice
slice_middle xs ys zs = ground (
  arith,
  length-append xs (ys ++ zs),
  length-append ys zs,
  drop_prefix xs (ys ++ zs),
  take_prefix ys zs,
)

-- Four bytes are a number, and so are the four bytes of a slice within bounds.
uint32-ok : (bytes : List ℕ) → 4 ≤ length bytes → (v : ℕ) × (uint32 bytes ≡ ok v)
unfolding uint32
uint32-ok bytes h = (
  get_or bytes 0 0 * 2 ^ 24
      + get_or bytes 1 0 * 2 ^ 16
      + get_or bytes 2 0 * 2 ^ 8
      + get_or bytes 3 0,
  ground arith,
)

pub slice-uint32 :
    (bytes : List ℕ) (lo : ℕ)
    → lo + 4 ≤ length bytes
    → (payload : List ℕ) × (v : ℕ) × (slice bytes lo (lo + 4) ≡ ok payload)
      × (uint32 payload ≡ ok v)
slice-uint32 bytes lo h =
    let payload = take (lo + 4 - lo) (drop lo bytes) in
    let (v, e) =
      uint32-ok payload
        (omega (arith, length-take (lo + 4 - lo) (drop lo bytes), length-drop lo bytes)) in
    (payload, v, slice-ok bytes lo (lo + 4) (omega arith) h, e)

-- The value of a success.
pub Succeeds-ok {ℓ} :
    {A : Type ℓ} (m : Result A) (P : A → Type 0) → Succeeds m P → (a : A) × (m ≡ ok a) × P a
Succeeds-ok (ok a) P h = (a, refl, h)
Succeeds-ok (err e) P h = absurd h
Succeeds-ok panic P h = absurd h

pub Succeeds-weaken {ℓ} :
    {A : Type ℓ} (m : Result A) (P Q : A → Type 0)
    → Succeeds m P
    → ((a : A) → P a → Q a)
    → Succeeds m Q
Succeeds-weaken (ok a) P Q h k = k a h
Succeeds-weaken (err e) P Q h k = h
Succeeds-weaken panic P Q h k = h
