-- ===== src/Client/World/Isolation.antt =====
-- What each waiting call has of its own: an invoke id, and a channel that is pending under it or
-- closed.
pub mod Steps
pub mod Few
use bacnet_go.Base.{
  ℕ, ◌+◌, ◌%◌, ◌^◌, ◌≤◌, ◌<◌, ◌≡◌, ◌≢◌, refl, sym, ap, ◌∙◌, true, false, List, [], ◌∷◌, ◌++◌,
  Option, none, some, All, ◌⊎◌, inl, inr, arith, bit_and, eq_or_ne, ==_self, ne→==_false,
}
use bacnet_go.Base.Map
use bacnet_go.Base.Map.{lookup, option_cases, lookup-insert, lookup-delete}
use bacnet_go.Client.{Client, Channel}
use bacnet_go.Client.Invariant.{Grows, IsOpen}
use bacnet_go.Client.Lifecycle.{close_channels}
use bacnet_go.Client.Request.{Call, release}
use bacnet_go.Client.World.Invariant.{Channels, Waits, Waits-insert}
use bacnet_go.Go.{Succeeds, Succeeds-weaken}

abbrev pub IsClosed : Option Channel → Type 0
IsClosed none = ⊥
IsClosed (some ch) = ch.closed ≡ true

-- The call is pending under its invoke id, or the channel that it waits on has been closed.
abbrev pub Lives : Client → Call → Type 0
Lives c call =
    (call.channel < c.next_channel)
    × ((lookup call.invoke_id c.pending ≡ some call.channel)
        ⊎ IsClosed (lookup call.channel c.channels))

abbrev pub HasOther : ℕ → Call → Type 0
HasOther id call = call.invoke_id ≢ id

abbrev pub AllDiffer : List Call → Type 0
AllDiffer [] = Unit {0}
AllDiffer (call ∷ calls) = All (HasOther call.invoke_id) calls × AllDiffer calls

-- A call in the middle.
pub All-remove :
    (P : Call → Type 0) (before after : List Call) (call : Call)
    → All P (before ++ (call ∷ after))
    → P call × All P (before ++ after)
All-remove P [] after call h = h
All-remove P (b ∷ before) after call h =
    let (p, rest) = All-remove P before after call h.1 in (p, (h.0, rest))

pub All-map :
    (P Q : Call → Type 0) (calls : List Call)
    → ((call : Call) → P call → Q call)
    → All P calls
    → All Q calls
All-map P Q [] f h = tt
All-map P Q (call ∷ calls) f h = (f call h.0, All-map P Q calls f h.1)

pub All-map_other :
    (P Q : Call → Type 0) (id : ℕ) (calls : List Call)
    → ((call : Call) → P call → HasOther id call → Q call)
    → All P calls
    → All (HasOther id) calls
    → All Q calls
All-map_other P Q id [] f h k = tt
All-map_other P Q id (call ∷ calls) f h k = (f call h.0 k.0, All-map_other P Q id calls f h.1 k.1)

pub AllDiffer-remove :
    (before after : List Call) (call : Call)
    → AllDiffer (before ++ (call ∷ after))
    → AllDiffer (before ++ after) × All (HasOther call.invoke_id) (before ++ after)
AllDiffer-remove [] after call h = (h.1, h.0)
AllDiffer-remove (b ∷ before) after call h =
    let (differ, others) = AllDiffer-remove before after call h.1 in
    let (other, rest) = All-remove (HasOther b.invoke_id) before after call h.0 in
    ((rest, differ), (λ e. other (sym e), others))

Grows-IsClosed :
    (found found' : Option Channel) → Grows found found' → IsClosed found → IsClosed found'
Grows-IsClosed none found' g h = absurd h
Grows-IsClosed (some ch) none g h = absurd g
Grows-IsClosed (some ch) (some ch') g h = g.0 ∙ h

-- What the datagrams, a new call and the end of another call leave of a call.
pub Lives-Grows :
    (c c' : Client) (call : Call)
    → c'.pending ≡ c.pending
    → c'.next_channel ≡ c.next_channel
    → Grows (lookup call.channel c.channels) (lookup call.channel c'.channels)
    → Lives c call
    → Lives c' call
Lives-Grows c c' call e e' g (fresh, inl p) = (omega (arith, fresh, e'), inl (rw e p))
Lives-Grows c c' call e e' g (fresh, inr p) =
    (omega (arith, fresh, e'), inr (Grows-IsClosed _ _ g p))

pub Lives-release :
    (c : Client) (call ended : Call)
    → Lives c call
    → HasOther ended.invoke_id call
    → Lives (release ended c) call
unfolding release
Lives-release c call ended (fresh, inr p) other = (fresh, inr p)
Lives-release c call ended (fresh, inl p) other =
    (fresh, inl (ground (arith, lookup-delete call.invoke_id ended.invoke_id c.pending)))

-- What `Close` may do to a channel: its buffer stays, and it is not opened again.
abbrev pub Shuts : Option Channel → Option Channel → Type 0
Shuts none found = Unit {0}
Shuts (some ch) none = ⊥
Shuts (some ch) (some ch') = (ch'.buffer ≡ ch.buffer) × (ch.closed ≡ true → ch'.closed ≡ true)

Shuts-refl : (found : Option Channel) → Shuts found found
Shuts-refl none = tt
Shuts-refl (some ch) = (refl, λ k. k)

Shuts-trans :
    (found found' found'' : Option Channel)
    → Shuts found found'
    → Shuts found' found''
    → Shuts found found''
Shuts-trans none found' found'' s s' = tt
Shuts-trans (some ch) none found'' s s' = absurd s
Shuts-trans (some ch) (some ch') none s s' = absurd s'
Shuts-trans (some ch) (some ch') (some ch'') s s' = (s'.0 ∙ s.0, λ k. s'.1 (s.1 k))

Shuts-IsClosed :
    (found found' : Option Channel) → Shuts found found' → IsClosed found → IsClosed found'
Shuts-IsClosed none found' s h = absurd h
Shuts-IsClosed (some ch) none s h = absurd s
Shuts-IsClosed (some ch) (some ch') s h = s.1 h

-- `Close` closes each channel that is pending.
abbrev pub Closes : List (ℕ × ℕ) → Channels → Channels → Type 0
Closes pending channels channels' =
    ((ref : ℕ) → Shuts (lookup ref channels) (lookup ref channels'))
    × ((id ref : ℕ) → lookup id pending ≡ some ref → IsClosed (lookup ref channels'))

Closes-nil : (channels : Channels) → Closes [] channels channels
unfolding lookup
Closes-nil channels = (λ ref. Shuts-refl (lookup ref channels), λ id ref e. ground arith)

insert-Shuts :
    (ref other : ℕ) (ch : Channel) (channels : Channels)
    → lookup ref channels ≡ some ch
    → Shuts
        (lookup other channels)
        (lookup other (Map.insert ref (record ch { closed = true }) channels))
insert-Shuts ref other ch channels e =
    rw (lookup-insert other ref (record ch { closed = true }) channels) (elim (eq_or_ne other ref) [
      | inl same ↦ rw (same, e, ==_self ref) (refl, λ k. refl)
      | inr differ ↦ rw (ne→==_false other ref differ) (Shuts-refl (lookup other channels))
    ])

Closes-cons :
    (id ref : ℕ) (pending : List (ℕ × ℕ)) (ch : Channel) (channels channels' : Channels)
    → lookup ref channels ≡ some ch
    → Closes pending (Map.insert ref (record ch { closed = true }) channels) channels'
    → Closes ((id, ref) ∷ pending) channels channels'
unfolding lookup
Closes-cons id ref pending ch channels channels' found (keeps, closes) =
    let shut : Channel = record ch { closed = true } in
    let is_shut : IsClosed (lookup ref (Map.insert ref shut channels)) =
      ground (arith, lookup-insert ref ref shut channels) in
    (
      λ other. Shuts-trans _ _ _ (insert-Shuts ref other ch channels found) (keeps other),
      λ id' other e.
          ground (
            arith,
            Shuts-IsClosed _ (lookup ref channels') (keeps ref) is_shut,
            closes id' other,
            e,
          ),
    )

pub close_channels-Closes :
    (pending : List (ℕ × ℕ)) (channels : Channels)
    → Waits pending channels
    → Succeeds (close_channels pending channels) (Closes pending channels)
unfolding close_channels
close_channels-Closes [] channels w = Closes-nil channels
close_channels-Closes ((id, ref) ∷ pending) channels w = elim (option_cases (lookup ref channels)) [
  | inl e ↦ absurd (rw e at w.0)
  | inr (ch, e) ↦
      let k : ch.closed ≡ false = rw e at w.0 in
      let shut : Channel = record ch { closed = true } in
      rw e (
        rw k (
          Succeeds-weaken _ _ _
            (close_channels-Closes pending (Map.insert ref shut channels)
              (Waits-insert pending channels ref shut w.1 w.2))
            (λ channels'. Closes-cons id ref pending ch channels channels' e)))
]

-- What a new call and `Close` leave of a call.
pub Lives-insert :
    (c : Client) (call : Call) (id : ℕ) (ch : Channel)
    → Lives c call
    → HasOther id call
    → (call.channel < c.next_channel + 1)
      × ((lookup call.invoke_id (Map.insert id c.next_channel c.pending) ≡ some call.channel)
          ⊎ IsClosed (lookup call.channel (Map.insert c.next_channel ch c.channels)))
Lives-insert c call id ch (fresh, inl p) other = (
  omega (arith, fresh),
  inl (ground (arith, p, lookup-insert call.invoke_id id c.next_channel c.pending)),
)
Lives-insert c call id ch (fresh, inr p) other = (
  omega (arith, fresh),
  inr (ground (arith, fresh, p, lookup-insert call.channel c.next_channel ch c.channels)),
)

pub Lives-Closes :
    (c : Client) (call : Call) (channels : Channels)
    → Closes c.pending c.channels channels
    → Lives c call
    → (call.channel < c.next_channel)
      × ((lookup call.invoke_id [] ≡ some call.channel) ⊎ IsClosed (lookup call.channel channels))
Lives-Closes c call channels (keeps, closes) (fresh, inl p) =
    (fresh, inr (closes call.invoke_id call.channel p))
Lives-Closes c call channels (keeps, closes) (fresh, inr p) =
    (fresh, inr (Shuts-IsClosed _ _ (keeps call.channel) p))
