-- ===== src/Client/Receive/After.antt =====
-- What a datagram leaves as it was, and that the delivery of a response does.
use bacnet_go.Base.{
  eq_or_ne, ==_self, ne→==_false, ℕ, ◌≡◌, refl, List, Option, none, some, ◌⊎◌, inl, inr, arith,
}
use bacnet_go.Base.Map
use bacnet_go.Base.Map.{lookup, option_cases, lookup-insert}
use bacnet_go.Client.{Client, Channel}
use bacnet_go.Client.Invariant.{IsOpen, IsSafe, Grows, AllGrow, Grows-refl, Grows-IsOpen}
use bacnet_go.Client.Receive.{or_drop, respond, store_device, deliver, handle_response}
use bacnet_go.Go.{Result, ok, err, panic, Ensures, Succeeds}
use bacnet_go.Metrics.{Metrics}
use bacnet_go.Types.Device.{DeviceInfo}
use bacnet_go.Wire.Apdu.{Apdu}

-- What a datagram does to the channels: nothing, or one response goes into the empty channel that is
-- pending under its invoke id.
abbrev pub Delivers : Client → Client → Type 0
Delivers c c' =
    (c'.channels ≡ c.channels)
    ⊎ ((apdu : Apdu) × (ref : ℕ) × (ch : Channel) × (lookup apdu.invoke_id c.pending ≡ some ref)
        × (lookup ref c.channels ≡ some ch)
        × (ch.buffer ≡ none)
        × (c'.channels ≡ Map.insert ref (record ch { buffer = some apdu }) c.channels))

-- What a datagram leaves alone.
abbrev pub After : Client → Client → Type 0
After c c' =
    IsSafe c'
    × (c'.state ≡ c.state)
    × (c'.invoke_id ≡ c.invoke_id)
    × (c'.pending ≡ c.pending)
    × (c'.cov_subs ≡ c.cov_subs)
    × (c'.next_channel ≡ c.next_channel)
    × (c'.metrics.active_requests ≡ c.metrics.active_requests)
    × (c'.metrics.panics_recovered ≡ c.metrics.panics_recovered)
    × AllGrow c c'
    × Delivers c c'

pub same-After : (c : Client) → IsSafe c → After c c
same-After c h = (
  h,
  refl,
  refl,
  refl,
  refl,
  refl,
  refl,
  refl,
  λ ref. Grows-refl (lookup ref c.channels),
  inl refl,
)

-- The rule for `or_drop`: what was read is right if it was read, and both ways out keep `Q`.
pub or_drop-Succeeds {ℓ} :
    {A : Type ℓ} (c : Client) (m : Result A) (f : A → Result Client) (P : A → Type 0)
    (Q : Client → Type 0)
    → Ensures m P
    → Q c
    → ((a : A) → P a → Succeeds (f a) Q)
    → Succeeds (or_drop c m f) Q
or_drop-Succeeds c (ok a) f P Q h q k = k a h
or_drop-Succeeds c (err e) f P Q h q k = q
or_drop-Succeeds c panic f P Q h q k = absurd h

-- A change of the devices and the metrics only.
pub counted-IsSafe : (m : Metrics) (c : Client) → IsSafe c → IsSafe (record c { metrics = m })
counted-IsSafe m c h = record { waits_open = h.waits_open; fresh = h.fresh }

pub counted-After :
    (m : Metrics) (c : Client)
    → IsSafe c
    → m.active_requests ≡ c.metrics.active_requests
    → m.panics_recovered ≡ c.metrics.panics_recovered
    → After c (record c { metrics = m })
counted-After m c h e e' = (
  record { waits_open = h.waits_open; fresh = h.fresh },
  refl,
  refl,
  refl,
  refl,
  refl,
  e,
  e',
  λ ref. Grows-refl (lookup ref c.channels),
  inl refl,
)

pub store_device-After : (d : DeviceInfo) (c : Client) → IsSafe c → After c (store_device d c)
unfolding store_device
store_device-After d c h = (
  record { waits_open = h.waits_open; fresh = h.fresh },
  refl,
  refl,
  refl,
  refl,
  refl,
  ground arith,
  ground arith,
  λ ref. Grows-refl (lookup ref c.channels),
  inl refl,
)

-- Filling the empty buffer of one channel.
pub insert-Grows :
    (ref : ℕ) (apdu : Apdu) (ch : Channel) (channels : List (ℕ × Channel))
    → lookup ref channels ≡ some ch
    → ch.buffer ≡ none
    → (other : ℕ)
    → Grows
        (lookup other channels)
        (lookup other (Map.insert ref (record ch { buffer = some apdu }) channels))
insert-Grows ref apdu ch channels e empty other =
    rw (lookup-insert other ref (record ch { buffer = some apdu }) channels)
      (elim (eq_or_ne other ref) [
        | inl same ↦ rw (same, e, ==_self ref) (refl, inl empty)
        | inr differ ↦ rw (ne→==_false other ref differ) (Grows-refl (lookup other channels))
      ])

filled-After :
    (ref : ℕ) (apdu : Apdu) (c : Client) (ch : Channel)
    → IsSafe c
    → lookup apdu.invoke_id c.pending ≡ some ref
    → lookup ref c.channels ≡ some ch
    → ch.buffer ≡ none
    → After c (record c { channels = Map.insert ref (record ch { buffer = some apdu }) c.channels })
filled-After ref apdu c ch h p e empty =
    let grows = insert-Grows ref apdu ch c.channels e empty in
    (
      record {
        waits_open = λ id other e'. Grows-IsOpen _ _ (grows other) (h.waits_open id other e');
        fresh = h.fresh;
      },
      refl,
      refl,
      refl,
      refl,
      refl,
      refl,
      refl,
      grows,
      inr (apdu, ref, ch, p, e, empty, refl),
    )

deliver-After :
    (ref : ℕ) (apdu : Apdu) (c : Client) (ch : Option Channel)
    → IsSafe c
    → lookup apdu.invoke_id c.pending ≡ some ref
    → lookup ref c.channels ≡ ch
    → IsOpen ch
    → Succeeds (deliver ref apdu ch c) (After c)
unfolding deliver
deliver-After ref apdu c none h p e k = absurd k
deliver-After ref apdu c (some ch) h p e k = elim (option_cases ch.buffer) [
  | inl empty ↦ rw k (rw empty (filled-After ref apdu c ch h p e empty))
  | inr (waiting, full) ↦ rw k (rw full (same-After c h))
]

respond-After :
    (apdu : Apdu) (c : Client) (found : Option ℕ)
    → IsSafe c
    → lookup apdu.invoke_id c.pending ≡ found
    → Succeeds (respond apdu c found) (After c)
unfolding respond
respond-After apdu c none h e = same-After c h
respond-After apdu c (some ref) h e =
    deliver-After ref apdu c (lookup ref c.channels) h e refl (h.waits_open apdu.invoke_id ref e)

pub handle_response-After :
    (apdu : Apdu) (c : Client) → IsSafe c → Succeeds (handle_response apdu c) (After c)
unfolding handle_response
handle_response-After apdu c h = respond-After apdu c (lookup apdu.invoke_id c.pending) h refl
