-- ===== src/Client/Invariant.antt =====
-- The invariant of a client's pending table: a response never meets a closed channel.
use bacnet_go.Base.{ℕ, ◌<◌, ◌≡◌, refl, ◌∙◌, ◌⊎◌, inr, false, Option, none, some}
use bacnet_go.Base.Map.{lookup}
use bacnet_go.Client.{Client, Channel}

abbrev pub IsOpen : Option Channel → Type 0
IsOpen none = ⊥
IsOpen (some ch) = ch.closed ≡ false

-- Each pending request waits on an open channel, which was made before `next_channel`.
pub record IsSafe (c : Client) : Type 0 where
  pub waits_open : (id ref : ℕ) → lookup id c.pending ≡ some ref → IsOpen (lookup ref c.channels)
  pub fresh : (id ref : ℕ) → lookup id c.pending ≡ some ref → ref < c.next_channel

-- What may happen to a channel while datagrams come in: a response that it holds stays, an empty
-- buffer may be filled, and it is closed or open as before.
abbrev pub Grows : Option Channel → Option Channel → Type 0
Grows none found = Unit {0}
Grows (some ch) none = ⊥
Grows (some ch) (some ch') =
    (ch'.closed ≡ ch.closed) × ((ch.buffer ≡ none) ⊎ (ch'.buffer ≡ ch.buffer))

abbrev pub AllGrow : Client → Client → Type 0
AllGrow c c' = (ref : ℕ) → Grows (lookup ref c.channels) (lookup ref c'.channels)

pub Grows-refl : (found : Option Channel) → Grows found found
Grows-refl none = tt
Grows-refl (some ch) = (refl, inr refl)

pub Grows-IsOpen :
    (found found' : Option Channel) → Grows found found' → IsOpen found → IsOpen found'
Grows-IsOpen none found' g h = absurd h
Grows-IsOpen (some ch) none g h = absurd g
Grows-IsOpen (some ch) (some ch') g h = g.0 ∙ h
