-- ===== src/Client/World/Isolation/Steps.antt =====
-- The steps keep the calls apart, as long as no invoke id is given out while a call waits under it.
use bacnet_go.Base.{
  ℕ, ◌+◌, ◌%◌, ◌^◌, false, List, ◌∷◌, ◌++◌, Option, none, some, All, inl, arith, bit_and,
}
use bacnet_go.Base.Map.{lookup-insert}
use bacnet_go.Client.{
  Client, Channel, ConnectionState, disconnected, connecting, connected, register_device,
}
use bacnet_go.Client.Lifecycle.{
  attempt, connect, close_channels, close_from, shut, close, receive_datagram,
}
use bacnet_go.Client.Request.{
  Call, Wait, context_done, answer, channel_closed, open_request, next_invoke_id, sent, release,
  finish_request,
}
use bacnet_go.Client.Request.Reply.{call_of}
use bacnet_go.Client.World.{
  World, new_world, Step, connects, begins, draws, sends, fails, receives, finishes, times_out,
  registers, closes, Reach, here, next,
}
use bacnet_go.Client.World.Invariant.{IsOrderly-IsSafe}
use bacnet_go.Client.World.Isolation.{
  Lives, HasOther, AllDiffer, All-remove, All-map, All-map_other, AllDiffer-remove, Lives-Grows,
  Lives-release, Lives-insert, Lives-Closes, Closes, close_channels-Closes,
}
use bacnet_go.Client.World.Reachable.{
  IsSound, new_world-IsSound, Reach-IsSound, receive_datagram-After,
}
use bacnet_go.Errors.{Error}
use bacnet_go.Go.{Succeeds, Succeeds->>=}
use bacnet_go.Metrics.{Metrics}

-- A new call gets an invoke id that no waiting call has.
abbrev pub GivesFreshId : {w v : World} → Step w v → Type 0
GivesFreshId (begins w service payload) =
    All (HasOther (call_of service payload w.client).invoke_id) w.calls
GivesFreshId (connects w opened) = Unit {0}
GivesFreshId (draws w) = Unit {0}
GivesFreshId (sends c before after call) = Unit {0}
GivesFreshId (fails c before after call e) = Unit {0}
GivesFreshId (receives w now bytes sender) = Unit {0}
GivesFreshId (finishes c before after call wait ns e) = Unit {0}
GivesFreshId (times_out c before after call ns) = Unit {0}
GivesFreshId (registers w d) = Unit {0}
GivesFreshId (closes w closed c e eq) = Unit {0}

abbrev pub GivesFreshIds : {w v : World} → Reach w v → Type 0
GivesFreshIds here = Unit {0}
GivesFreshIds (next r step) = GivesFreshIds r × GivesFreshId step

pub record IsIsolated (w : World) : Type 0 where
  pub lives : All (Lives w.client) w.calls
  pub differ : AllDiffer w.calls

attempt-IsIsolated :
    (s : ConnectionState) (w : World) (opened : Option Error)
    → IsIsolated w
    → IsIsolated (record w { client = (attempt s opened w.client).0 })
unfolding attempt
attempt-IsIsolated disconnected w (some e) h = record { lives = h.lives; differ = h.differ }
attempt-IsIsolated disconnected w none h = record { lives = h.lives; differ = h.differ }
attempt-IsIsolated connecting w opened h = h
attempt-IsIsolated connected w opened h = h

begins-IsIsolated :
    (w : World) (service : ℕ) (payload : List ℕ)
    → All (HasOther (call_of service payload w.client).invoke_id) w.calls
    → IsIsolated w
    → let (c, call) = open_request service payload w.client in
      IsIsolated (record { client = c; calls = call ∷ w.calls })
unfolding open_request next_invoke_id
begins-IsIsolated w service payload others h =
    let c = w.client in
    let id = bit_and ((c.invoke_id + 1) % 2 ^ 32) 0xFF in
    let empty : Channel = record { buffer = none; closed = false } in
    record {
      lives = (
        (omega arith, inl (ground (arith, lookup-insert id id c.next_channel c.pending))),
        All-map_other (Lives c) (Lives (open_request service payload c).0) id w.calls
            (λ call lives other. Lives-insert c call id empty lives other) h.lives others,
      );
      differ = (others, h.differ);
    }

release-IsIsolated :
    (c : Client) (before after : List Call) (call : Call) (m : Metrics)
    → IsIsolated (record { client = c; calls = before ++ (call ∷ after) })
    → IsIsolated
        (record { client = release call (record c { metrics = m }); calls = before ++ after })
release-IsIsolated c before after call m h =
    let (differ, others) = AllDiffer-remove before after call h.differ in
    let (_, rest) = All-remove (Lives c) before after call h.lives in
    record {
      lives =
          All-map_other (Lives c) (Lives (release call (record c { metrics = m }))) call.invoke_id
            (before ++ after)
            (λ other lives differs.
              Lives-release (record c { metrics = m }) other call lives differs)
            rest others;
      differ = differ;
    }

receives-IsIsolated :
    (w : World) (now : ℕ) (bytes sender : List ℕ)
    → IsSound w
    → IsIsolated w
    → IsIsolated (record w { client = receive_datagram now bytes sender w.client })
receives-IsIsolated w now bytes sender sound h =
    let (_, _, _, pending, _, fresh, _, _, grows, _) =
      receive_datagram-After now bytes sender w.client (IsOrderly-IsSafe w.client sound.orderly) in
    record {
      lives =
          All-map (Lives w.client) (Lives (receive_datagram now bytes sender w.client)) w.calls
            (λ call lives.
              Lives-Grows w.client (receive_datagram now bytes sender w.client) call pending fresh
                (grows call.channel) lives)
            h.lives;
      differ = h.differ;
    }

shut-IsIsolated :
    (w : World) (closed : Option Error)
    → IsSound w
    → IsIsolated w
    → Succeeds (shut closed w.client) (λ r. IsIsolated (record w { client = r.0 }))
unfolding shut
shut-IsIsolated w closed sound h =
    Succeeds->>= (close_channels w.client.pending w.client.channels) _
      (Closes w.client.pending w.client.channels) _
      (close_channels-Closes w.client.pending w.client.channels sound.orderly.waits)
      λ channels closing. record {
        lives =
            All-map (Lives w.client) _ w.calls
              (λ call lives. Lives-Closes w.client call channels closing lives) h.lives;
        differ = h.differ;
      }

close_from-IsIsolated :
    (s : ConnectionState) (w : World) (closed : Option Error)
    → IsSound w
    → IsIsolated w
    → Succeeds (close_from s closed w.client) (λ r. IsIsolated (record w { client = r.0 }))
unfolding close_from
close_from-IsIsolated disconnected w closed sound h = h
close_from-IsIsolated connecting w closed sound h = shut-IsIsolated w closed sound h
close_from-IsIsolated connected w closed sound h = shut-IsIsolated w closed sound h

close-IsIsolated :
    (w : World) (closed : Option Error)
    → IsSound w
    → IsIsolated w
    → Succeeds (close closed w.client) (λ r. IsIsolated (record w { client = r.0 }))
unfolding close
close-IsIsolated w closed sound h = close_from-IsIsolated w.client.state w closed sound h

finish-IsIsolated :
    (c : Client) (before after : List Call) (call : Call) (wait : Wait) (ns : ℕ)
    → IsIsolated (record { client = c; calls = before ++ (call ∷ after) })
    → IsIsolated (record { client = (finish_request call wait ns c).0; calls = before ++ after })
unfolding finish_request
finish-IsIsolated c before after call context_done ns h = release-IsIsolated c before after call _ h
finish-IsIsolated c before after call channel_closed ns h =
    release-IsIsolated c before after call _ h
finish-IsIsolated c before after call (answer resp) ns h =
    release-IsIsolated c before after call _ h

Step-IsIsolated :
    {w v : World} (step : Step w v) → GivesFreshId step → IsSound w → IsIsolated w → IsIsolated v
Step-IsIsolated (connects w opened) g sound h =
    unfold connect in attempt-IsIsolated w.client.state w opened h
Step-IsIsolated (begins w service payload) g sound h = begins-IsIsolated w service payload g h
Step-IsIsolated (draws w) g sound h =
    unfold next_invoke_id in record { lives = h.lives; differ = h.differ }
Step-IsIsolated (sends c before after call) g sound h =
    unfold sent in record { lives = h.lives; differ = h.differ }
Step-IsIsolated (fails c before after call e) g sound h =
    unfold sent in release-IsIsolated c before after call _ h
Step-IsIsolated (receives w now bytes sender) g sound h =
    receives-IsIsolated w now bytes sender sound h
Step-IsIsolated (finishes c before after call wait ns e) g sound h =
    finish-IsIsolated c before after call wait ns h
Step-IsIsolated (times_out c before after call ns) g sound h =
    finish-IsIsolated c before after call context_done ns h
Step-IsIsolated (registers w d) g sound h =
    unfold register_device in record { lives = h.lives; differ = h.differ }
Step-IsIsolated (closes w closed c e eq) g sound h = rw eq at (close-IsIsolated w closed sound h)

pub Reach-IsIsolated : {w : World} (r : Reach new_world w) → GivesFreshIds r → IsIsolated w
Reach-IsIsolated here g = record { lives = tt; differ = tt }
Reach-IsIsolated (next r step) (g, g') =
    Step-IsIsolated step g' (Reach-IsSound new_world-IsSound r) (Reach-IsIsolated r g)
