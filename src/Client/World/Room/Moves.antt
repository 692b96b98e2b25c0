-- ===== src/Client/World/Room/Moves.antt =====
-- The parts of the code, as steps of the waiting room.
use bacnet_go.Base.{
  ℕ, ◌≡◌, refl, ap, false, List, [], ◌∷◌, ◌++◌, Option, none, some, All, inl, inr, ==_self,
}
use bacnet_go.Base.Map.{lookup-insert}
use bacnet_go.Client.{Client, Channel, ConnectionState, disconnected, connecting, connected}
use bacnet_go.Client.Lifecycle.{attempt, close_channels, close_from, shut, close}
use bacnet_go.Client.Receive.After.{Delivers}
use bacnet_go.Client.Request.{
  Call, Wait, context_done, answer, channel_closed, open_request, next_invoke_id, sent, release,
  receive, ready, finish_request,
}
use bacnet_go.Client.Request.Reply.{call_of, opened}
use bacnet_go.Client.World.{World}
use bacnet_go.Client.World.Invariant.{IsOrderly}
use bacnet_go.Client.World.Isolation.{Lives, Closes, HasOther, close_channels-Closes}
use bacnet_go.Client.World.Isolation.Steps.{IsIsolated}
use bacnet_go.Client.World.Reachable.{IsSound}
use bacnet_go.Client.World.Room.{
  Returned, end_of, answer_entry, close_entry, RoomStep, idles, enters, answers, shuts, returns,
  gives_up, is_not_sent,
}
use bacnet_go.Client.World.Room.Entries.{ready-delivered, ready-Closes, ready-new}
use bacnet_go.Client.World.Room.Views.{
  view_call, view, view-append, view-All, view-same, view-channels, lookup-view,
}
use bacnet_go.Errors.{Error}
use bacnet_go.Go.{err, Succeeds, Succeeds->>=}

-- The result of `sendRequest` for a call that was not sent.
abbrev pub failure : ℕ → Option Error → Returned
failure id none = []
failure id (some e) = (id, err e) ∷ []

-- A step that leaves the channels alone.
pub same-RoomStep :
    (c c' : Client) (calls : List Call)
    → c'.channels ≡ c.channels
    → RoomStep [] (view c calls) (view c' calls)
same-RoomStep c c' calls e = rw (view-channels c c' calls e) (idles (view c calls))

pub attempt-RoomStep :
    (s : ConnectionState) (opened : Option Error) (c : Client) (calls : List Call)
    → RoomStep [] (view c calls) (view (attempt s opened c).0 calls)
unfolding attempt
attempt-RoomStep disconnected (some e) c calls = same-RoomStep c _ calls refl
attempt-RoomStep disconnected none c calls = same-RoomStep c _ calls refl
attempt-RoomStep connecting opened c calls = same-RoomStep c _ calls refl
attempt-RoomStep connected opened c calls = same-RoomStep c _ calls refl

pub begins-RoomStep :
    (w : World) (service : ℕ) (payload : List ℕ)
    → IsIsolated w
    → All (HasOther (call_of service payload w.client).invoke_id) w.calls
    → RoomStep []
        (view w.client w.calls)
        (view (opened service payload w.client) (call_of service payload w.client ∷ w.calls))
unfolding open_request next_invoke_id receive ready
begins-RoomStep w service payload h others =
    let c = w.client in
    let new : Channel = record { buffer = none; closed = false } in
    let room = view c w.calls in
    rw
      (
        lookup-insert c.next_channel c.next_channel new c.channels,
        view-same c (opened service payload c) (Lives c) w.calls
            (λ call lives. ap (λ waits. (call.invoke_id, waits)) (ready-new c new call lives))
            h.lives,
      )
      (rw (==_self c.next_channel) (
        enters room (call_of service payload c).invoke_id
          (lookup-view c (call_of service payload c).invoke_id w.calls others)))

pub Delivers-RoomStep :
    (c c' : Client) (calls : List Call)
    → IsOrderly c
    → All (Lives c) calls
    → Delivers c c'
    → RoomStep [] (view c calls) (view c' calls)
unfolding receive
Delivers-RoomStep c c' calls h lives (inl e) = same-RoomStep c c' calls e
Delivers-RoomStep c c' calls h lives (inr (apdu, ref, ch, p, e, b, filled)) =
    rw
      (view-All c c' (answer_entry apdu) (Lives c) calls
        (λ call lives.
          ap (λ waits. (call.invoke_id, waits))
            (rw filled (ready-delivered c apdu ref ch call h p e b lives)))
        lives)
      (answers (view c calls) apdu)

Closes-RoomStep :
    (c c' : Client) (calls : List Call)
    → IsOrderly c
    → All (Lives c) calls
    → Closes c.pending c.channels c'.channels
    → RoomStep [] (view c calls) (view c' calls)
unfolding receive
Closes-RoomStep c c' calls h lives closing =
    rw
      (view-All c c' close_entry (Lives c) calls
        (λ call lives.
          ap (λ waits. (call.invoke_id, waits)) (ready-Closes c c'.channels call h closing lives))
        lives)
      (shuts (view c calls))

shut-RoomStep :
    (w : World) (closed : Option Error)
    → IsSound w
    → IsIsolated w
    → Succeeds (shut closed w.client) (λ r. RoomStep [] (view w.client w.calls) (view r.0 w.calls))
unfolding shut
shut-RoomStep w closed sound h =
    Succeeds->>= (close_channels w.client.pending w.client.channels) _
      (Closes w.client.pending w.client.channels) _
      (close_channels-Closes w.client.pending w.client.channels sound.orderly.waits)
      λ channels closing. Closes-RoomStep w.client _ w.calls sound.orderly h.lives closing

close_from-RoomStep :
    (s : ConnectionState) (w : World) (closed : Option Error)
    → IsSound w
    → IsIsolated w
    → Succeeds
        (close_from s closed w.client)
        (λ r. RoomStep [] (view w.client w.calls) (view r.0 w.calls))
unfolding close_from
close_from-RoomStep disconnected w closed sound h = idles (view w.client w.calls)
close_from-RoomStep connecting w closed sound h = shut-RoomStep w closed sound h
close_from-RoomStep connected w closed sound h = shut-RoomStep w closed sound h

pub close-RoomStep :
    (w : World) (closed : Option Error)
    → IsSound w
    → IsIsolated w
    → Succeeds (close closed w.client) (λ r. RoomStep [] (view w.client w.calls) (view r.0 w.calls))
unfolding close
close-RoomStep w closed sound h = close_from-RoomStep w.client.state w closed sound h

-- A call that leaves: the channels stay as they are.
removed-RoomStep :
    (c c' : Client) (before after : List Call) (call : Call) (ended : Returned)
    → c'.channels ≡ c.channels
    → RoomStep ended
        (view c before ++ (view_call c call ∷ view c after))
        (view c before ++ view c after)
    → RoomStep ended (view c (before ++ (call ∷ after))) (view c' (before ++ after))
removed-RoomStep c c' before after call ended e step =
    rw
      (
        view-channels c c' (before ++ after) e,
        view-append c before (call ∷ after),
        view-append c before after,
      )
      step

pub times_out-RoomStep :
    (c : Client) (before after : List Call) (call : Call) (ns : ℕ)
    → let (c', result) = finish_request call context_done ns c in
      RoomStep
        ((call.invoke_id, result) ∷ [])
        (view c (before ++ (call ∷ after)))
        (view c' (before ++ after))
unfolding finish_request release
times_out-RoomStep c before after call ns =
    removed-RoomStep c _ before after call _ refl
      (gives_up (view c before) (view c after) call.invoke_id (receive call c))

pub fails-RoomStep :
    (c : Client) (before after : List Call) (call : Call) (e : Error)
    → let (c', failed) = sent call (some e) c in
      RoomStep
        (failure call.invoke_id failed)
        (view c (before ++ (call ∷ after)))
        (view c' (before ++ after))
unfolding sent release
fails-RoomStep c before after call e =
    removed-RoomStep c _ before after call _ refl
      (is_not_sent (view c before) (view c after) call.invoke_id (receive call c) e)

-- The wait is over, and the call returns what ended it.
finish_request-end_of :
    (call : Call) (wait : Wait) (ns : ℕ) (c : Client)
    → let (c', result) = finish_request call wait ns c in
      (result ≡ end_of wait) × (c'.channels ≡ c.channels)
unfolding finish_request release
finish_request-end_of call context_done ns c = (refl, refl)
finish_request-end_of call channel_closed ns c = (refl, refl)
finish_request-end_of call (answer apdu) ns c = (refl, refl)

pub finishes-RoomStep :
    (c : Client) (before after : List Call) (call : Call) (wait : Wait) (ns : ℕ)
    → receive call c ≡ some wait
    → let (c', result) = finish_request call wait ns c in
      RoomStep
        ((call.invoke_id, result) ∷ [])
        (view c (before ++ (call ∷ after)))
        (view c' (before ++ after))
finishes-RoomStep c before after call wait ns e =
    let (result, channels) = finish_request-end_of call wait ns c in
    removed-RoomStep c _ before after call _ channels
      (rw (result, e) (returns (view c before) (view c after) call.invoke_id wait))
