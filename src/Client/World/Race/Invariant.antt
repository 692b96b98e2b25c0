-- ===== src/Client/World/Race/Invariant.antt =====
-- What holds while responses are in flight, and what a delivery keeps of it.
use bacnet_go.Base.{
  ℕ, ◌<◌, ◌≡◌, refl, List, [], ◌∷◌, ◌++◌, Option, none, some, All, inl, inr, arith,
}
use bacnet_go.Base.Map.{lookup, option_cases}
use bacnet_go.Client.{Client, Channel}
use bacnet_go.Client.Invariant.{IsOpen, AllGrow, Grows-refl, Grows-IsOpen}
use bacnet_go.Client.Receive.{deliver}
use bacnet_go.Client.Receive.After.{insert-Grows}
use bacnet_go.Client.World.Invariant.{IsOrderly, Waits-Grows}
use bacnet_go.Client.World.Race.{Busy}
use bacnet_go.Go.{Succeeds}
use bacnet_go.Wire.Apdu.{Apdu}

-- The channel of a response in flight is open, and was made before `next_channel`.
abbrev pub Flies : Client → Apdu × ℕ → Type 0
Flies c (apdu, ref) = IsOpen (lookup ref c.channels) × (ref < c.next_channel)

pub record IsSafeRace (b : Busy) : Type 0 where
  pub orderly : IsOrderly b.client
  pub flies : All (Flies b.client) b.in_flight

-- What a delivery changes.
abbrev pub Keeps : Client → Client → Type 0
Keeps c c' = (c'.pending ≡ c.pending) × (c'.next_channel ≡ c.next_channel) × AllGrow c c'

pub deliver-Keeps :
    (ref : ℕ) (apdu : Apdu) (c : Client) (found : Option Channel)
    → lookup ref c.channels ≡ found
    → IsOpen found
    → Succeeds (deliver ref apdu found c) (Keeps c)
unfolding deliver
deliver-Keeps ref apdu c none e k = absurd k
deliver-Keeps ref apdu c (some ch) e k = elim (option_cases ch.buffer) [
  | inl empty ↦ rw k (rw empty (refl, refl, insert-Grows ref apdu ch c.channels e empty))
  | inr (waiting, full) ↦ rw k (rw full (refl, refl, λ other. Grows-refl (lookup other c.channels)))
]

pub Keeps-IsOrderly : (c c' : Client) → Keeps c c' → IsOrderly c → IsOrderly c'
Keeps-IsOrderly c c' (pending, counter, grows) h = record {
  waits = rw pending (Waits-Grows c.pending c.channels c'.channels grows h.waits);
  below = rw (pending, counter) h.below;
}

pub All-mono :
    (P Q : Apdu × ℕ → Type 0) (in_flight : List (Apdu × ℕ))
    → ((r : Apdu × ℕ) → P r → Q r)
    → All P in_flight
    → All Q in_flight
All-mono P Q [] f h = tt
All-mono P Q (r ∷ in_flight) f h = (f r h.0, All-mono P Q in_flight f h.1)

pub All-middle :
    (P : Apdu × ℕ → Type 0) (before after : List (Apdu × ℕ)) (r : Apdu × ℕ)
    → All P (before ++ (r ∷ after))
    → P r × All P (before ++ after)
All-middle P [] after r h = h
All-middle P (b ∷ before) after r h =
    let (p, rest) = All-middle P before after r h.1 in (p, (h.0, rest))

pub Flies-Keeps : (c c' : Client) → Keeps c c' → (r : Apdu × ℕ) → Flies c r → Flies c' r
Flies-Keeps c c' (pending, counter, grows) (apdu, ref) (is_open, fresh) =
    (Grows-IsOpen _ _ (grows ref) is_open, omega (arith, fresh, counter))
