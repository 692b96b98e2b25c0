-- ===== src/Client/World/Invariant.antt =====
-- The pending table as a list: each entry has an open channel of its own.
use bacnet_go.Base.{
  ℕ, ◌+◌, ◌<◌, ◌≡◌, ◌≢◌, true, false, List, [], ◌∷◌, some, All, arith, ==_self, ne→==_false, inl,
  inr,
}
use bacnet_go.Base.Map
use bacnet_go.Base.Map.{lookup, option_cases, delete, lookup-insert, lookup-delete}
use bacnet_go.Client.{Client, Channel}
use bacnet_go.Client.Invariant.{IsOpen, IsSafe, Grows, Grows-IsOpen}
use bacnet_go.Client.Lifecycle.{close_channels}
use bacnet_go.Go.{Any, Succeeds}

abbrev pub Channels : Type 0
Channels = List (ℕ × Channel)

abbrev Differs : ℕ → ℕ × ℕ → Type 0
Differs ref entry = entry.1 ≢ ref

abbrev Below : ℕ → ℕ × ℕ → Type 0
Below n entry = entry.1 < n

-- The channels of the entries are open, and no two entries share one.
abbrev pub Waits : List (ℕ × ℕ) → Channels → Type 0
Waits [] channels = Unit {0}
Waits ((id, ref) ∷ pending) channels =
    IsOpen (lookup ref channels) × All (Differs ref) pending × Waits pending channels

pub record IsOrderly (c : Client) : Type 0 where
  pub waits : Waits c.pending c.channels
  pub below : All (Below c.next_channel) c.pending

-- What the lookups of `IsSafe` see.
pub Waits-lookup :
    (pending : List (ℕ × ℕ)) (channels : Channels) (id ref : ℕ)
    → Waits pending channels
    → lookup id pending ≡ some ref
    → IsOpen (lookup ref channels)
unfolding lookup
Waits-lookup [] channels id ref w e = ground arith
Waits-lookup ((id', ref') ∷ pending) channels id ref w e =
    ground (arith, Waits-lookup pending channels id ref)

pub Below-lookup :
    (pending : List (ℕ × ℕ)) (n id ref : ℕ)
    → All (Below n) pending
    → lookup id pending ≡ some ref
    → ref < n
unfolding lookup
Below-lookup [] n id ref b e = ground arith
Below-lookup ((id', ref') ∷ pending) n id ref b e = ground (arith, Below-lookup pending n id ref)

pub IsOrderly-IsSafe : (c : Client) → IsOrderly c → IsSafe c
IsOrderly-IsSafe c h = record {
  waits_open = λ id ref e. Waits-lookup c.pending c.channels id ref h.waits e;
  fresh = λ id ref e. Below-lookup c.pending c.next_channel id ref h.below e;
}

-- No two ids wait on one channel.
Differs-lookup :
    (pending : List (ℕ × ℕ)) (ref id other : ℕ)
    → All (Differs ref) pending
    → lookup id pending ≡ some other
    → other ≢ ref
unfolding lookup
Differs-lookup [] ref id other d e = ground arith
Differs-lookup ((id', ref') ∷ pending) ref id other d e =
    ground (arith, Differs-lookup pending ref id other)

pub Waits-same :
    (pending : List (ℕ × ℕ)) (channels : Channels) (id id' ref : ℕ)
    → Waits pending channels
    → lookup id pending ≡ some ref
    → lookup id' pending ≡ some ref
    → id ≡ id'
unfolding lookup
Waits-same [] channels id id' ref w e e' = ground arith
Waits-same ((k, r) ∷ pending) channels id id' ref w e e' = ground (
  arith,
  Waits-same pending channels id id' ref w.2,
  Differs-lookup pending r id ref w.1,
  Differs-lookup pending r id' ref w.1,
)

-- Entries may be taken out, and open channels may stay open.
All-delete :
    (P : ℕ × ℕ → Type 0) (id : ℕ) (pending : List (ℕ × ℕ))
    → All P pending
    → All P (delete id pending)
unfolding delete
All-delete P id [] h = tt
All-delete P id ((id', ref) ∷ pending) h = ground (arith, All-delete P id pending h.1)

Waits-delete :
    (id : ℕ) (pending : List (ℕ × ℕ)) (channels : Channels)
    → Waits pending channels
    → Waits (delete id pending) channels
unfolding delete
Waits-delete id [] channels w = tt
Waits-delete id ((id', ref) ∷ pending) channels w =
    ground (arith, Waits-delete id pending channels w.2, All-delete (Differs ref) id pending w.1)

pub Waits-Grows :
    (pending : List (ℕ × ℕ)) (channels channels' : Channels)
    → ((ref : ℕ) → Grows (lookup ref channels) (lookup ref channels'))
    → Waits pending channels
    → Waits pending channels'
Waits-Grows [] channels channels' g w = tt
Waits-Grows ((id, ref) ∷ pending) channels channels' g w =
    (Grows-IsOpen _ _ (g ref) w.0, w.1, Waits-Grows pending channels channels' g w.2)

-- A change of a channel that no entry waits on.
pub Waits-insert :
    (pending : List (ℕ × ℕ)) (channels : Channels) (ref : ℕ) (ch : Channel)
    → All (Differs ref) pending
    → Waits pending channels
    → Waits pending (Map.insert ref ch channels)
Waits-insert [] channels ref ch d w = tt
Waits-insert ((id, other) ∷ pending) channels ref ch d w = (
  rw (lookup-insert other ref ch channels) (rw (ne→==_false other ref d.0) w.0),
  w.1,
  Waits-insert pending channels ref ch d.1 w.2,
)

Below-Differs : (n : ℕ) (pending : List (ℕ × ℕ)) → All (Below n) pending → All (Differs n) pending
Below-Differs n [] b = tt
Below-Differs n ((id, ref) ∷ pending) b = (ground arith, Below-Differs n pending b.1)

Below-suc : (n : ℕ) (pending : List (ℕ × ℕ)) → All (Below n) pending → All (Below (n + 1)) pending
Below-suc n [] b = tt
Below-suc n ((id, ref) ∷ pending) b = (omega (arith, b.0), Below-suc n pending b.1)

-- A new entry with a new channel, and an entry that is taken out.
pub added-IsOrderly :
    (c : Client) (id : ℕ) (ch : Channel)
    → ch.closed ≡ false
    → IsOrderly c
    → Waits (Map.insert id c.next_channel c.pending) (Map.insert c.next_channel ch c.channels)
      × All (Below (c.next_channel + 1)) (Map.insert id c.next_channel c.pending)
added-IsOrderly c id ch k h =
    let rest = delete id c.pending in
    let below = All-delete (Below c.next_channel) id c.pending h.below in
    let apart = Below-Differs c.next_channel rest below in
    (
      (
        rw (lookup-insert c.next_channel c.next_channel ch c.channels)
            (rw (==_self c.next_channel) k),
        apart,
        Waits-insert rest c.channels c.next_channel ch apart
            (Waits-delete id c.pending c.channels h.waits),
      ),
      (omega arith, Below-suc c.next_channel rest below),
    )

pub removed-IsOrderly :
    (c : Client) (id : ℕ)
    → IsOrderly c
    → Waits (delete id c.pending) c.channels × All (Below c.next_channel) (delete id c.pending)
removed-IsOrderly c id h = (
  Waits-delete id c.pending c.channels h.waits,
  All-delete (Below c.next_channel) id c.pending h.below,
)

-- Each channel is closed once, and was open.
pub close_channels-Succeeds :
    (pending : List (ℕ × ℕ)) (channels : Channels)
    → Waits pending channels
    → Succeeds (close_channels pending channels) Any
unfolding close_channels
close_channels-Succeeds [] channels w = tt
close_channels-Succeeds ((id, ref) ∷ pending) channels w =
    elim (option_cases (lookup ref channels)) [
      | inl e ↦ absurd (rw e at w.0)
      | inr (ch, e) ↦
          let k : ch.closed ≡ false = rw e at w.0 in
          rw e (
            rw k (
              close_channels-Succeeds pending
                (Map.insert ref (record ch { closed = true }) channels)
                (Waits-insert pending channels ref (record ch { closed = true }) w.1 w.2)))
    ]
