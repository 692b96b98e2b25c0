-- ===== src/Client/World/Reachable.antt =====
-- The invariant of every world that the steps reach from the start.
use bacnet_go.Base.{
  ℕ, ◌+◌, ◌%◌, ◌^◌, ◌≡◌, refl, ◌∙◌, false, List, ◌∷◌, ◌++◌, Option, none, some, length,
  length-append, arith, bit_and,
}
use bacnet_go.Client.{Client, ConnectionState, disconnected, connecting, connected, register_device}
use bacnet_go.Client.Invariant.{IsSafe}
use bacnet_go.Client.Lifecycle.{
  connect, attempt, close_from, shut, close, close_channels, receive_datagram,
}
use bacnet_go.Client.Receive.{handle_packet}
use bacnet_go.Client.Receive.After.{After, counted-IsSafe}
use bacnet_go.Client.Receive.Safe.{handle_packet-After}
use bacnet_go.Client.Request.{
  Call, Wait, context_done, answer, channel_closed, open_request, next_invoke_id, sent, release,
  finish_request,
}
use bacnet_go.Client.World.{
  World, new_world, Step, connects, begins, draws, sends, fails, receives, finishes, times_out,
  registers, closes, Reach, here, next,
}
use bacnet_go.Client.World.Invariant.{
  IsOrderly, IsOrderly-IsSafe, Waits-Grows, added-IsOrderly, removed-IsOrderly,
  close_channels-Succeeds,
}
use bacnet_go.Errors.{Error}
use bacnet_go.Go.{Succeeds, Succeeds->>=, Succeeds-weaken, Succeeds-ok, Any}
use bacnet_go.Metrics.{Metrics, add}

-- A datagram in `receiver` is handled without a panic, so nothing is recovered.
pub receive_datagram-After :
    (now : ℕ) (bytes sender : List ℕ) (c : Client)
    → IsSafe c
    → After c (receive_datagram now bytes sender c)
unfolding receive_datagram
receive_datagram-After now bytes sender c h =
    let m : Metrics = record c.metrics {
      bytes_received = add (length bytes) c.metrics.bytes_received;
      last_activity = now;
    } in
    let counted : Client = record c { metrics = m } in
    let (c', e, after) =
      Succeeds-ok (handle_packet bytes sender counted) (After counted)
        (handle_packet-After bytes sender counted (counted-IsSafe m c h)) in
    rw e after

-- The gauge of active requests is the number of calls that wait, and the pending table is in order.
pub record IsSound (w : World) : Type 0 where
  pub orderly : IsOrderly w.client
  pub gauge : w.client.metrics.active_requests ≡ length w.calls % 2 ^ 64

pub new_world-IsSound : IsSound new_world
new_world-IsSound = record { orderly = record { waits = tt; below = tt }; gauge = refl }

-- A call that ends.
release-IsSound :
    (c : Client) (before after : List Call) (call : Call) (m : Metrics)
    → IsSound (record { client = c; calls = before ++ (call ∷ after) })
    → m.active_requests ≡ c.metrics.active_requests
    → IsSound (record { client = release call (record c { metrics = m }); calls = before ++ after })
unfolding release
release-IsSound c before after call m h e =
    let (waits, below) = removed-IsOrderly c call.invoke_id h.orderly in
    record {
      orderly = record { waits = waits; below = below };
      gauge =
          omega
            (arith, e, h.gauge, length-append before (call ∷ after), length-append before after);
    }

-- Only the state and the metrics change.
attempt-IsSound :
    (s : ConnectionState) (w : World) (opened : Option Error)
    → IsSound w
    → IsSound (record w { client = (attempt s opened w.client).0 })
unfolding attempt
attempt-IsSound disconnected w (some e) h = record {
  orderly = record { waits = h.orderly.waits; below = h.orderly.below };
  gauge = h.gauge;
}
attempt-IsSound disconnected w none h = record {
  orderly = record { waits = h.orderly.waits; below = h.orderly.below };
  gauge = h.gauge;
}
attempt-IsSound connecting w opened h = h
attempt-IsSound connected w opened h = h

begins-IsSound :
    (w : World) (service : ℕ) (payload : List ℕ)
    → IsSound w
    → let (c, call) = open_request service payload w.client in
      IsSound (record { client = c; calls = call ∷ w.calls })
unfolding open_request next_invoke_id
begins-IsSound w service payload h =
    let (waits, below) =
      added-IsOrderly w.client (bit_and ((w.client.invoke_id + 1) % 2 ^ 32) 0xFF)
        (record { buffer = none; closed = false }) refl h.orderly in
    record { orderly = record { waits = waits; below = below }; gauge = omega (arith, h.gauge) }

receives-IsSound :
    (w : World) (now : ℕ) (bytes sender : List ℕ)
    → IsSound w
    → IsSound (record w { client = receive_datagram now bytes sender w.client })
receives-IsSound w now bytes sender h =
    let (safe, state, id, pending, subs, fresh, gauge, panics, grows, _) =
      receive_datagram-After now bytes sender w.client (IsOrderly-IsSafe w.client h.orderly) in
    record {
      orderly = record {
        waits = rw pending (Waits-Grows w.client.pending w.client.channels _ grows h.orderly.waits);
        below = rw (pending, fresh) h.orderly.below;
      };
      gauge = gauge ∙ h.gauge;
    }

-- `Close` succeeds, and no request is pending after it.
shut-IsSound :
    (w : World) (closed : Option Error)
    → IsSound w
    → Succeeds (shut closed w.client) (λ r. IsSound (record w { client = r.0 }))
unfolding shut
shut-IsSound w closed h =
    Succeeds->>= (close_channels w.client.pending w.client.channels) _ Any _
      (close_channels-Succeeds w.client.pending w.client.channels h.orderly.waits)
      λ channels _. record { orderly = record { waits = tt; below = tt }; gauge = h.gauge }

close_from-IsSound :
    (s : ConnectionState) (w : World) (closed : Option Error)
    → IsSound w
    → Succeeds (close_from s closed w.client) (λ r. IsSound (record w { client = r.0 }))
unfolding close_from
close_from-IsSound disconnected w closed h = h
close_from-IsSound connecting w closed h = shut-IsSound w closed h
close_from-IsSound connected w closed h = shut-IsSound w closed h

close-IsSound :
    (w : World) (closed : Option Error)
    → IsSound w
    → Succeeds (close closed w.client) (λ r. IsSound (record w { client = r.0 }))
unfolding close
close-IsSound w closed h = close_from-IsSound w.client.state w closed h

finish-IsSound :
    (c : Client) (before after : List Call) (call : Call) (wait : Wait) (ns : ℕ)
    → IsSound (record { client = c; calls = before ++ (call ∷ after) })
    → IsSound (record { client = (finish_request call wait ns c).0; calls = before ++ after })
unfolding finish_request
finish-IsSound c before after call context_done ns h = release-IsSound c before after call _ h refl
finish-IsSound c before after call channel_closed ns h =
    release-IsSound c before after call _ h refl
finish-IsSound c before after call (answer resp) ns h =
    release-IsSound c before after call _ h (ground arith)

-- Every step keeps the invariant.
Step-IsSound : {w v : World} → Step w v → IsSound w → IsSound v
Step-IsSound (connects w opened) h = unfold connect in attempt-IsSound w.client.state w opened h
Step-IsSound (begins w service payload) h = begins-IsSound w service payload h
Step-IsSound (draws w) h =
    unfold next_invoke_id in
    record {
      orderly = record { waits = h.orderly.waits; below = h.orderly.below };
      gauge = h.gauge;
    }
Step-IsSound (sends c before after call) h =
    unfold sent in
    record {
      orderly = record { waits = h.orderly.waits; below = h.orderly.below };
      gauge = h.gauge;
    }
Step-IsSound (fails c before after call e) h =
    unfold sent in release-IsSound c before after call _ h refl
Step-IsSound (receives w now bytes sender) h = receives-IsSound w now bytes sender h
Step-IsSound (finishes c before after call wait ns e) h =
    finish-IsSound c before after call wait ns h
Step-IsSound (times_out c before after call ns) h =
    unfold finish_request in release-IsSound c before after call _ h refl
Step-IsSound (registers w d) h =
    unfold register_device in
    record {
      orderly = record { waits = h.orderly.waits; below = h.orderly.below };
      gauge = h.gauge;
    }
Step-IsSound (closes w closed c e eq) h = rw eq at (close-IsSound w closed h)

pub Reach-IsSound : {w v : World} → IsSound w → Reach w v → IsSound v
Reach-IsSound h here = h
Reach-IsSound h (next r step) = Step-IsSound step (Reach-IsSound h r)

-- In every world that is reached from a new client, whatever requests, datagrams, timeouts,
-- failures, `Connect`s and `Close`s came in whatever order: any datagram is handled without a panic,
-- `Close` does not panic, and the gauge of active requests is the number of calls that wait,
-- modulo 2 ^ 64.
pub reachable_lem :
    (w : World)
    → Reach new_world w
    → ((bytes sender : List ℕ) → Succeeds (handle_packet bytes sender w.client) Any)
      × ((closed : Option Error) → Succeeds (close closed w.client) Any)
      × (w.client.metrics.active_requests ≡ length w.calls % 2 ^ 64)
reachable_lem w r =
    let h = Reach-IsSound new_world-IsSound r in
    (
      λ bytes sender.
          Succeeds-weaken _ _ Any
            (handle_packet-After bytes sender w.client (IsOrderly-IsSafe w.client h.orderly))
            (λ c k. tt),
      λ closed. Succeeds-weaken _ _ Any (close-IsSound w closed h) (λ r k. tt),
      h.gauge,
    )
