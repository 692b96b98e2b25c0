-- ===== src/Client/World/Room/Entries.antt =====
-- The entry of one call in the waiting room, when a response is delivered, when `Close` closes the
-- channels and when another call begins.
use bacnet_go.Base.{
  ℕ, ◌≡◌, ◌≢◌, refl, sym, Option, none, some, inl, inr, arith, eq_or_ne, ==_self, ne→==_false,
}
use bacnet_go.Base.Map
use bacnet_go.Base.Map.{lookup, option_cases, lookup-insert}
use bacnet_go.Client.{Client, Channel}
use bacnet_go.Client.Invariant.{IsOpen}
use bacnet_go.Client.Request.{Call, Wait, answer, ready}
use bacnet_go.Client.World.Invariant.{Channels, IsOrderly, IsOrderly-IsSafe, Waits-same}
use bacnet_go.Client.World.Isolation.{IsClosed, Lives, Shuts, Closes}
use bacnet_go.Client.World.Room.{answered, closed_over}
use bacnet_go.Wire.Apdu.{Apdu}

-- The entry of a call that another call's response, or none, leaves alone.
answered_other :
    (apdu : Apdu) (id : ℕ) (waits : Option Wait)
    → id ≢ apdu.invoke_id
    → answered apdu id waits ≡ waits
answered_other apdu id none h = rw (ne→==_false id apdu.invoke_id h) refl
answered_other apdu id (some wait) h = refl

answered_closed :
    (apdu : Apdu) (id : ℕ) (found : Option Channel)
    → IsClosed found
    → answered apdu id (ready found) ≡ ready found
unfolding ready
answered_closed apdu id none h = absurd h
answered_closed apdu id (some ch) h = elim (option_cases ch.buffer) [
  | inl e ↦ ground (arith, e, h)
  | inr (held, e) ↦ ground (arith, e)
]

open_or_closed : (found : Option Channel) → IsOpen found → IsClosed found → ⊥
open_or_closed none h k = absurd h
open_or_closed (some ch) h k = ground (arith, h, k)

-- The call that waits on the channel of the response.
answered_same :
    (apdu : Apdu) (id : ℕ) (found : Option Channel) (ch : Channel)
    → id ≡ apdu.invoke_id
    → IsOpen found
    → found ≡ some ch
    → ch.buffer ≡ none
    → some (answer apdu) ≡ answered apdu id (ready found)
unfolding ready
answered_same apdu id none ch e k f b = absurd k
answered_same apdu id (some found) ch e k f b = ground arith

-- A call on another channel waits under another id, or its channel is closed.
answered_elsewhere :
    (c : Client) (apdu : Apdu) (ref : ℕ) (call : Call)
    → lookup apdu.invoke_id c.pending ≡ some ref
    → call.channel ≢ ref
    → Lives c call
    → ready (lookup call.channel c.channels)
      ≡ answered apdu call.invoke_id (ready (lookup call.channel c.channels))
answered_elsewhere c apdu ref call p differ (fresh, inr k) =
    sym (answered_closed apdu call.invoke_id _ k)
answered_elsewhere c apdu ref call p differ (fresh, inl q) =
    elim (eq_or_ne call.invoke_id apdu.invoke_id) [
      | inl same ↦
          let q' : lookup apdu.invoke_id c.pending ≡ some call.channel = rw same at q in
          ground arith
      | inr other ↦ sym (answered_other apdu call.invoke_id _ other)
    ]

answered_here :
    (c : Client) (apdu : Apdu) (call : Call) (ch : Channel)
    → IsOrderly c
    → lookup apdu.invoke_id c.pending ≡ some call.channel
    → lookup call.channel c.channels ≡ some ch
    → ch.buffer ≡ none
    → Lives c call
    → some (answer apdu) ≡ answered apdu call.invoke_id (ready (lookup call.channel c.channels))
answered_here c apdu call ch h p e empty (fresh, inr k) =
    absurd (open_or_closed _ ((IsOrderly-IsSafe c h).waits_open apdu.invoke_id call.channel p) k)
answered_here c apdu call ch h p e empty (fresh, inl q) =
    answered_same apdu call.invoke_id _ ch
      (Waits-same c.pending c.channels call.invoke_id apdu.invoke_id call.channel h.waits q p)
      ((IsOrderly-IsSafe c h).waits_open apdu.invoke_id call.channel p) e empty

pub ready-delivered :
    (c : Client) (apdu : Apdu) (ref : ℕ) (ch : Channel) (call : Call)
    → IsOrderly c
    → lookup apdu.invoke_id c.pending ≡ some ref
    → lookup ref c.channels ≡ some ch
    → ch.buffer ≡ none
    → Lives c call
    → ready (lookup call.channel (Map.insert ref (record ch { buffer = some apdu }) c.channels))
      ≡ answered apdu call.invoke_id (ready (lookup call.channel c.channels))
unfolding ready
ready-delivered c apdu ref ch call h p e empty lives =
    rw (lookup-insert call.channel ref (record ch { buffer = some apdu }) c.channels)
      (elim (eq_or_ne call.channel ref) [
        | inl same ↦ rw same (
            rw (==_self ref) (
              answered_here c apdu (record call { channel = ref }) ch h p e empty
                (rw same at lives)))
        | inr differ ↦
            rw (ne→==_false call.channel ref differ)
              (answered_elsewhere c apdu ref call p differ lives)
      ])

-- `Close`.
ready-Shuts :
    (found found' : Option Channel)
    → Shuts found found'
    → IsClosed found
    → ready found' ≡ closed_over (ready found)
unfolding ready
ready-Shuts none found' s h = absurd h
ready-Shuts (some ch) none s h = absurd s
ready-Shuts (some ch) (some ch') (b, k) h = elim (option_cases ch.buffer) [
  | inl e ↦ rw (b, e, h, k h) refl
  | inr (held, e) ↦ rw (b, e) refl
]

ready-closed :
    (found found' : Option Channel)
    → Shuts found found'
    → IsOpen found
    → IsClosed found'
    → ready found' ≡ closed_over (ready found)
unfolding ready
ready-closed none found' s h k = absurd h
ready-closed (some ch) none s h k = absurd s
ready-closed (some ch) (some ch') (b, _) h k = elim (option_cases ch.buffer) [
  | inl e ↦ rw (b, e, h, k) refl
  | inr (held, e) ↦ rw (b, e) refl
]

pub ready-Closes :
    (c : Client) (channels : Channels) (call : Call)
    → IsOrderly c
    → Closes c.pending c.channels channels
    → Lives c call
    → ready (lookup call.channel channels) ≡ closed_over (ready (lookup call.channel c.channels))
ready-Closes c channels call h (keeps, closes) (fresh, inr k) =
    ready-Shuts _ _ (keeps call.channel) k
ready-Closes c channels call h (keeps, closes) (fresh, inl p) =
    ready-closed _ _ (keeps call.channel)
      ((IsOrderly-IsSafe c h).waits_open call.invoke_id call.channel p)
      (closes call.invoke_id call.channel p)

-- A new channel is not the channel of a call that waits.
pub ready-new :
    (c : Client) (ch : Channel) (call : Call)
    → Lives c call
    → ready (lookup call.channel (Map.insert c.next_channel ch c.channels))
      ≡ ready (lookup call.channel c.channels)
ready-new c ch call (fresh, _) =
    ground (arith, lookup-insert call.channel c.next_channel ch c.channels)
