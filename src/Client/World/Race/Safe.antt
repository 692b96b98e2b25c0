-- ===== src/Client/World/Race/Safe.antt =====
-- No handler sends to a closed channel.
use bacnet_go.Base.{
  ℕ, ◌+◌, ◌%◌, ◌^◌, ◌≡◌, refl, false, List, All, ◌∷◌, ◌++◌, Option, none, some, bit_and, arith,
}
use bacnet_go.Base.Map.{lookup, lookup-insert}
use bacnet_go.Client.{Client, Channel, ConnectionState, disconnected, connecting, connected}
use bacnet_go.Client.Lifecycle.{connect, attempt, close, close_from, shut, close_channels}
use bacnet_go.Client.Receive.{deliver}
use bacnet_go.Client.Request.{open_request, next_invoke_id, release}
use bacnet_go.Client.World.Invariant.{
  IsOrderly, Waits-lookup, Below-lookup, added-IsOrderly, removed-IsOrderly,
  close_channels-Succeeds,
}
use bacnet_go.Client.World.Race.{
  Busy, idle, RaceStep, connects, begins, draws, ends, finds, delivers, closes, RaceReach, here,
  next,
}
use bacnet_go.Client.World.Race.Invariant.{
  Flies, IsSafeRace, Keeps, deliver-Keeps, Keeps-IsOrderly, All-mono, All-middle, Flies-Keeps,
}
use bacnet_go.Errors.{Error}
use bacnet_go.Go.{ok, Succeeds, Succeeds->>=, Succeeds-weaken, Any}
use bacnet_go.Wire.Apdu.{Apdu}

begins-IsSafeRace :
    (b : Busy) (service : ℕ) (payload : List ℕ)
    → IsSafeRace b
    → IsSafeRace (record b { client = (open_request service payload b.client).0 })
unfolding open_request next_invoke_id
begins-IsSafeRace b service payload h =
    let c = b.client in
    let empty : Channel = record { buffer = none; closed = false } in
    let (waits, below) =
      added-IsOrderly c (bit_and ((c.invoke_id + 1) % 2 ^ 32) 0xFF) empty refl h.orderly in
    record {
      orderly = record { waits = waits; below = below };
      flies =
          All-mono (Flies c) _ b.in_flight
            (λ r f. (
              let fresh = f.1 in
                  let is_open = f.0 in
                  ground (arith, fresh, is_open, lookup-insert r.1 c.next_channel empty c.channels),
              omega (arith, f.1),
            ))
            h.flies;
    }

delivers-IsSafeRace :
    (c c' : Client) (before after : List (Apdu × ℕ)) (apdu : Apdu) (ref : ℕ)
    → deliver ref apdu (lookup ref c.channels) c ≡ ok c'
    → IsSafeRace (record { client = c; in_flight = before ++ ((apdu, ref) ∷ after) })
    → IsSafeRace (record { client = c'; in_flight = before ++ after })
delivers-IsSafeRace c c' before after apdu ref e h =
    let (flies, rest) = All-middle (Flies c) before after (apdu, ref) h.flies in
    let keeps : Keeps c c' =
      rw e at (deliver-Keeps ref apdu c (lookup ref c.channels) refl flies.0) in
    record {
      orderly = Keeps-IsOrderly c c' keeps h.orderly;
      flies = All-mono (Flies c) (Flies c') (before ++ after) (Flies-Keeps c c' keeps) rest;
    }

shut-IsOrderly :
    (c : Client) (closed : Option Error)
    → IsOrderly c
    → Succeeds (shut closed c) (λ r. IsOrderly r.0)
unfolding shut
shut-IsOrderly c closed h =
    Succeeds->>= (close_channels c.pending c.channels) _ Any _
      (close_channels-Succeeds c.pending c.channels h.waits)
      λ channels _. record { waits = tt; below = tt }

close_from-IsOrderly :
    (s : ConnectionState) (c : Client) (closed : Option Error)
    → IsOrderly c
    → Succeeds (close_from s closed c) (λ r. IsOrderly r.0)
unfolding close_from
close_from-IsOrderly disconnected c closed h = h
close_from-IsOrderly connecting c closed h = shut-IsOrderly c closed h
close_from-IsOrderly connected c closed h = shut-IsOrderly c closed h

close-IsOrderly :
    (c : Client) (closed : Option Error)
    → IsOrderly c
    → Succeeds (close closed c) (λ r. IsOrderly r.0)
unfolding close
close-IsOrderly c closed h = close_from-IsOrderly c.state c closed h

connects-IsSafeRace :
    (s : ConnectionState) (b : Busy) (opened : Option Error)
    → IsSafeRace b
    → IsSafeRace (record b { client = (attempt s opened b.client).0 })
unfolding attempt
connects-IsSafeRace disconnected b (some e) h = record {
  orderly = record { waits = h.orderly.waits; below = h.orderly.below };
  flies = h.flies;
}
connects-IsSafeRace disconnected b none h = record {
  orderly = record { waits = h.orderly.waits; below = h.orderly.below };
  flies = h.flies;
}
connects-IsSafeRace connecting b opened h = h
connects-IsSafeRace connected b opened h = h

RaceStep-IsSafeRace : {b b' : Busy} → RaceStep b b' → IsSafeRace b → IsSafeRace b'
RaceStep-IsSafeRace (connects b opened) h =
    unfold connect in connects-IsSafeRace b.client.state b opened h
RaceStep-IsSafeRace (begins b service payload) h = begins-IsSafeRace b service payload h
RaceStep-IsSafeRace (draws b) h =
    unfold next_invoke_id in
    record {
      orderly = record { waits = h.orderly.waits; below = h.orderly.below };
      flies = h.flies;
    }
RaceStep-IsSafeRace (ends b call) h =
    let (waits, below) = removed-IsOrderly b.client call.invoke_id h.orderly in
    unfold release in record { orderly = record { waits = waits; below = below }; flies = h.flies }
RaceStep-IsSafeRace (finds b apdu ref e) h = record {
  orderly = h.orderly;
  flies = (
    (
      Waits-lookup b.client.pending b.client.channels apdu.invoke_id ref h.orderly.waits e,
      Below-lookup b.client.pending b.client.next_channel apdu.invoke_id ref h.orderly.below e,
    ),
    h.flies,
  );
}
RaceStep-IsSafeRace (delivers c c' before after apdu ref e) h =
    delivers-IsSafeRace c c' before after apdu ref e h
RaceStep-IsSafeRace (closes b closed c e none_left eq) h = record {
  orderly = rw eq at (close-IsOrderly b.client closed h.orderly);
  flies = rw none_left tt;
}

RaceReach-IsSafeRace : {b : Busy} → RaceReach idle b → IsSafeRace b
RaceReach-IsSafeRace here = record { orderly = record { waits = tt; below = tt }; flies = tt }
RaceReach-IsSafeRace (next r step) = RaceStep-IsSafeRace step (RaceReach-IsSafeRace r)

-- The handler that has found the channel of its response does not panic at its send.
abbrev pub SendsSafely : Client → Apdu × ℕ → Type 0
SendsSafely c (apdu, ref) = Succeeds (deliver ref apdu (lookup ref c.channels) c) Any

Flies-SendsSafely : (c : Client) (found : Apdu × ℕ) → Flies c found → SendsSafely c found
Flies-SendsSafely c (apdu, ref) flies =
    Succeeds-weaken _ (Keeps c) Any (deliver-Keeps ref apdu c (lookup ref c.channels) refl flies.0)
      (λ c' k. tt)

-- However requests, handlers and `Close` interleave, with `Close` after the handlers that run: no
-- handler panics at its send, although it has left the lock since it found the channel, and `Close`,
-- whether a handler runs or not, closes no channel twice.
pub RaceReach-deliver :
    (b : Busy)
    → RaceReach idle b
    → All (SendsSafely b.client) b.in_flight
      × ((closed : Option Error) → Succeeds (close closed b.client) Any)
RaceReach-deliver b r =
    let h = RaceReach-IsSafeRace r in
    (
      All-mono (Flies b.client) (SendsSafely b.client) b.in_flight (Flies-SendsSafely b.client)
          h.flies,
      λ closed.
          Succeeds-weaken _ (λ r. IsOrderly r.0) Any (close-IsOrderly b.client closed h.orderly)
            (λ r k. tt),
    )
