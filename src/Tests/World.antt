-- ===== src/Tests/World.antt =====
-- The client among its calls, and the transport, at concrete inputs.
use bacnet_go.Base.{
  ℕ, ◌%◌, ◌^◌, ◌≡◌, ◌≢◌, ◌↔◌, refl, Bool, true, false, List, [], ◌∷◌, Option, none, some, inl, inr,
  arith, All, length, if◌then◌else◌,
}
use bacnet_go.Base.Map.{lookup, delete}
use bacnet_go.Client.{Client, new_client}
use bacnet_go.Client.Invariant.{IsSafe}
use bacnet_go.Client.Lifecycle.{attempt, connect, close, receive_datagram}
use bacnet_go.Client.Receive.{
  handle_packet, handle_response, handle_npdu, handle_apdu, dispatch, respond, deliver,
}
use bacnet_go.Wire.Bvlc.{decode_bvlc}
use bacnet_go.Wire.Npdu.{decode_npdu, dest_part, source_part, message_part}
use bacnet_go.Go.{index, slice, slice_from, uint16}
use bacnet_go.Client.Request.{
  Call, next_invoke_id, answer, open_request, receive, release, finish_request, outcome,
}
use bacnet_go.Client.Request.Reply.{opened, call_of}
use bacnet_go.Client.World.{
  World, new_world, connects, begins, draws, receives, finishes, Reach, here, next,
}
use bacnet_go.Client.World.Isolation.Few.{Reach-GivesFreshIds}
use bacnet_go.Client.World.Isolation.Steps.{GivesFreshIds}
use bacnet_go.Client.World.Reachable.{reachable_lem}
use bacnet_go.Client.World.Room.{RoomReach}
use bacnet_go.Client.World.Room.Views.{view}
use bacnet_go.Client.World.Room.Refines.{all_returned, Reach-RoomReach}
use bacnet_go.Client.World.Room.Matches.{ReturnsOwn, Reach-ReturnsOwn}
use bacnet_go.Client.World.Stale.{handle_response-release}
use bacnet_go.Errors.{Error, external}
use bacnet_go.Go.{Succeeds, Any, ok}
use bacnet_go.Transport.{
  Net, UdpTransport, new_udp_transport, open_transport, close_transport, deadline_or, send,
}
use bacnet_go.Transport.Reopen.{RefusesClosed, open_transport-close_transport, send_succeeds}
use bacnet_go.Wire.Apdu.{Apdu, new_apdu, complex_ack, decode_apdu, decode_complex_ack}

-- A new client that connects and sends a request.
abbrev connected_world : World
connected_world = record new_world { client = (connect none new_world.client).0 }

abbrev waiting_world : World
waiting_world = record connected_world {
  client = (open_request 12 [] connected_world.client).0;
  calls = (open_request 12 [] connected_world.client).1 ∷ [];
}

abbrev waiting_reach : Reach new_world waiting_world
waiting_reach = next (next here (connects new_world none)) (begins connected_world 12 [])

reachable_lem_example :
    ((bytes sender : List ℕ) → Succeeds (handle_packet bytes sender waiting_world.client) Any)
    × ((closed : Option Error) → Succeeds (close closed waiting_world.client) Any)
    × (waiting_world.client.metrics.active_requests ≡ length waiting_world.calls % 2 ^ 64)
reachable_lem_example = reachable_lem waiting_world waiting_reach

-- A client in which a response has come for the call on channel 0.
abbrev early : Apdu
early = new_apdu complex_ack 1 12 []

abbrev call_one : Call
call_one = record { invoke_id = 1; channel = 0; packet = [] }

abbrev answered : Client
answered = record new_client {
  pending = (1, 0) ∷ [];
  channels = (0, record { buffer = some early; closed = false }) ∷ [];
  next_channel = 1;
}

answered-IsSafe : IsSafe answered
unfolding lookup
answered-IsSafe = record { waits_open = λ id ref e. ground arith; fresh = λ id ref e. ground arith }

-- The call of 256 requests before, and the new one under the same invoke id.
handle_response-release_example :
    let newer = call_of 12 [] new_client in
    let older : Call = record { invoke_id = newer.invoke_id; channel = 7; packet = [] } in
    let response = new_apdu complex_ack newer.invoke_id 12 [] in
    let waiting = release older (opened 12 [] new_client) in
    (handle_response response waiting ≡ ok waiting) × (receive newer waiting ≡ none)
handle_response-release_example =
    handle_response-release 12 [] new_client
      (record { invoke_id = (call_of 12 [] new_client).invoke_id; channel = 7; packet = [] })
      (new_apdu complex_ack (call_of 12 [] new_client).invoke_id 12 []) refl refl

-- A system with one socket, which is closed or not.
abbrev one_socket : Net Bool ℕ ℕ
one_socket = record {
  now = λ w. 0;
  resolve_udp_addr = λ text w. inr 0;
  listen_udp = λ addr w. (w, inr 5);
  close = λ conn w. (true, none);
  set_write_deadline = λ conn deadline w. (w, (if w then some (external 9) else none));
  set_read_deadline = λ conn deadline w. (w, (if w then some (external 9) else none));
  write_to_udp = λ conn bytes addr w. (w, inr (length bytes));
  read_from_udp = λ conn size w. (w, inl (external 11));
  broadcast_address = λ port. port;
}

one_socket-RefusesClosed : RefusesClosed one_socket
one_socket-RefusesClosed conn w deadline = (external 9, refl)

abbrev listening : UdpTransport ℕ
listening = record (new_udp_transport []) { conn = some 5 }

open_transport-close_transport_example :
    let ((w1, t1), e1) = close_transport one_socket listening false in
    let ((w2, t2), e2) = open_transport one_socket t1 w1 in
    (e2 ≡ none)
    × (t2 ≡ t1)
    × (t2.closed ≡ true)
    × ((deadline : Option ℕ) (addr : ℕ) (bytes : List ℕ)
        → (e : Error) × ((send one_socket deadline addr bytes t2 w2).1 ≡ some e))
open_transport-close_transport_example =
    open_transport-close_transport one_socket listening false 5 refl refl one_socket-RefusesClosed

send_succeeds_example :
    let (w1, refused) =
      one_socket.set_write_deadline 5 (deadline_or one_socket (some 9) 7 false) false in
    let written = one_socket.write_to_udp 5 (1 ∷ 2 ∷ []) 3 w1 in
    ((send one_socket (some 9) 3 (1 ∷ 2 ∷ []) listening false).1 ≡ none)
    ↔ ((refused ≡ none) × (written.1 ≡ inr 2))
send_succeeds_example = send_succeeds one_socket listening false 5 (some 9) 3 (1 ∷ 2 ∷ []) refl

-- A second request, under the next invoke id.
abbrev two_waiting : World
two_waiting = record waiting_world {
  client = (open_request 14 [] waiting_world.client).0;
  calls = (open_request 14 [] waiting_world.client).1 ∷ waiting_world.calls;
}

ids_differ :
    (call_of 12 [] connected_world.client).invoke_id
    ≢ (call_of 14 [] waiting_world.client).invoke_id
unfolding connect attempt open_request next_invoke_id
ids_differ = ground arith

abbrev two_reach : Reach new_world two_waiting
two_reach = next waiting_reach (begins waiting_world 14 [])

-- The same with the identifier of a subscription drawn at the end.
Reach-GivesFreshIds_example : GivesFreshIds (next two_reach (draws two_waiting))
Reach-GivesFreshIds_example =
    Reach-GivesFreshIds (record two_waiting { client = (next_invoke_id two_waiting.client).0 })
      (next two_reach (draws two_waiting)) (omega arith)

-- The response to the first of two requests comes, and its call returns.
abbrev answered_world : World
answered_world = record two_waiting {
  client =
      receive_datagram 8 (0x81 ∷ 0x0A ∷ 0 ∷ 9 ∷ 1 ∷ 0 ∷ 0x30 ∷ 1 ∷ 12 ∷ []) [] two_waiting.client;
}

abbrev first_call : Call
first_call = call_of 12 [] connected_world.client

abbrev second_call : Call
second_call = call_of 14 [] waiting_world.client

first_answer :
    receive first_call answered_world.client ≡ some (answer (new_apdu complex_ack 1 12 []))
unfolding connect attempt open_request next_invoke_id receive_datagram receive lookup delete
    handle_packet handle_npdu handle_apdu dispatch handle_response respond deliver decode_bvlc
    decode_npdu decode_apdu index slice slice_from uint16 dest_part source_part message_part
    decode_complex_ack
first_answer = refl

abbrev returned_world : World
returned_world = record {
  client =
      (finish_request first_call (answer (new_apdu complex_ack 1 12 [])) 100
        answered_world.client).0;
  calls = second_call ∷ [];
}

abbrev returned_reach : Reach new_world returned_world
returned_reach =
    next
      (next two_reach
        (receives two_waiting 8 (0x81 ∷ 0x0A ∷ 0 ∷ 9 ∷ 1 ∷ 0 ∷ 0x30 ∷ 1 ∷ 12 ∷ []) []))
      (finishes answered_world.client (second_call ∷ []) [] first_call
        (answer (new_apdu complex_ack 1 12 [])) 100 first_answer)

Reach-RoomReach_example :
    RoomReach (all_returned returned_reach) (view returned_world.client returned_world.calls)
Reach-RoomReach_example =
    Reach-RoomReach returned_world returned_reach (((((tt, tt), tt), (ids_differ, tt)), tt), tt)

Reach-ReturnsOwn_example : All ReturnsOwn (all_returned returned_reach)
Reach-ReturnsOwn_example =
    Reach-ReturnsOwn returned_world returned_reach (((((tt, tt), tt), (ids_differ, tt)), tt), tt)

-- The one call that returned did so with the response.
all_returned-returned_reach :
    all_returned returned_reach ≡ (1, ok (new_apdu complex_ack 1 12 [])) ∷ []
unfolding connect attempt open_request next_invoke_id finish_request outcome
all_returned-returned_reach = refl
