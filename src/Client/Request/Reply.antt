-- ===== src/Client/Request/Reply.antt =====
-- A request and the response that the receiver delivers to it.
use bacnet_go.Base.{
  ℕ, ◌+◌, ◌%◌, ◌^◌, ◌<◌, ◌≡◌, ◌≢◌, refl, false, List, Option, none, some, inl, inr, bit_and, arith,
}
use bacnet_go.Base.Map
use bacnet_go.Base.Map.{lookup, option_cases, lookup-insert, lookup-delete}
use bacnet_go.Client.{Client, Channel}
use bacnet_go.Client.Invariant.{IsOpen, IsSafe}
use bacnet_go.Client.Receive.{deliver, respond, handle_response}
use bacnet_go.Client.Request.{Call, answer, next_invoke_id, open_request, release, receive}
use bacnet_go.Go.{Succeeds}
use bacnet_go.Wire.Apdu.{Apdu}

-- The state and the call after `open_request`.
abbrev pub opened : ℕ → List ℕ → Client → Client
opened service payload c = (open_request service payload c).0

abbrev pub call_of : ℕ → List ℕ → Client → Call
call_of service payload c = (open_request service payload c).1

-- A new request keeps the invariant: its channel is fresh, so no other request waits on it.
open_request-IsSafe :
    (service : ℕ) (payload : List ℕ) (c : Client) → IsSafe c → IsSafe (opened service payload c)
unfolding open_request next_invoke_id
open_request-IsSafe service payload c h =
    let id = bit_and ((c.invoke_id + 1) % 2 ^ 32) 0xFF in
    let empty : Channel = record { buffer = none; closed = false } in
    record {
      waits_open = λ other ref e. ground (
        arith,
        lookup-insert other id c.next_channel c.pending,
        lookup-insert ref c.next_channel empty c.channels,
        h.waits_open other ref,
        h.fresh other ref,
      );
      fresh = λ other ref e.
          ground (arith, lookup-insert other id c.next_channel c.pending, h.fresh other ref);
    }

-- The response with the call's invoke id reaches the call that has just been opened.
receive-handle_response :
    (service : ℕ) (payload : List ℕ) (c : Client) (apdu : Apdu)
    → apdu.invoke_id ≡ (call_of service payload c).invoke_id
    → Succeeds
        (handle_response apdu (opened service payload c))
        (λ c'. receive (call_of service payload c) c' ≡ some (answer apdu))
unfolding open_request next_invoke_id handle_response respond deliver receive
receive-handle_response service payload c apdu h =
    let id = bit_and ((c.invoke_id + 1) % 2 ^ 32) 0xFF in
    let empty : Channel = record { buffer = none; closed = false } in
    let full : Channel = record { buffer = some apdu; closed = false } in
    ground (
      arith,
      lookup-insert apdu.invoke_id id c.next_channel c.pending,
      lookup-insert c.next_channel c.next_channel empty c.channels,
      lookup-insert c.next_channel c.next_channel full (Map.insert c.next_channel empty c.channels),
    )

-- A response that goes to an older channel.
deliver_elsewhere :
    (ref : ℕ) (apdu : Apdu) (ch : Option Channel) (c : Client) (call : Call)
    → IsOpen ch
    → ref < call.channel
    → receive call c ≡ none
    → Succeeds (deliver ref apdu ch c) (λ c'. receive call c' ≡ none)
unfolding deliver receive
deliver_elsewhere ref apdu none c call k lt e = absurd k
deliver_elsewhere ref apdu (some ch) c call k lt e = elim (option_cases ch.buffer) [
  | inl empty ↦ rw k (
      rw empty (
        let full : Channel = record ch { buffer = some apdu } in
        ground (arith, lookup-insert call.channel ref full c.channels)))
  | inr (waiting, full) ↦ rw k (rw full e)
]

respond_elsewhere :
    (apdu : Apdu) (c : Client) (call : Call) (found : Option ℕ)
    → ((ref : ℕ) → found ≡ some ref → IsOpen (lookup ref c.channels))
    → ((ref : ℕ) → found ≡ some ref → ref < call.channel)
    → receive call c ≡ none
    → Succeeds (respond apdu c found) (λ c'. receive call c' ≡ none)
unfolding respond
respond_elsewhere apdu c call none k lt e = e
respond_elsewhere apdu c call (some ref) k lt e =
    deliver_elsewhere ref apdu (lookup ref c.channels) c call (k ref refl) (lt ref refl) e

receive-open_request :
    (service : ℕ) (payload : List ℕ) (c : Client)
    → receive (call_of service payload c) (opened service payload c) ≡ none
unfolding open_request next_invoke_id receive
receive-open_request service payload c =
    let empty : Channel = record { buffer = none; closed = false } in
    ground (arith, lookup-insert c.next_channel c.next_channel empty c.channels)

-- What else is pending waits on an older channel.
older :
    (service : ℕ) (payload : List ℕ) (c : Client) (apdu : Apdu)
    → IsSafe c
    → apdu.invoke_id ≢ (call_of service payload c).invoke_id
    → (ref : ℕ) → lookup apdu.invoke_id (opened service payload c).pending ≡ some ref
    → ref < (call_of service payload c).channel
unfolding open_request next_invoke_id
older service payload c apdu h k ref e =
    let id = bit_and ((c.invoke_id + 1) % 2 ^ 32) 0xFF in
    ground
      (arith, lookup-insert apdu.invoke_id id c.next_channel c.pending, h.fresh apdu.invoke_id ref)

-- A response with another invoke id does not end the wait of the call that has just been opened,
-- if the invariant held before.
receive-handle_response_other :
    (service : ℕ) (payload : List ℕ) (c : Client) (apdu : Apdu)
    → IsSafe c
    → apdu.invoke_id ≢ (call_of service payload c).invoke_id
    → Succeeds
        (handle_response apdu (opened service payload c))
        (λ c'. receive (call_of service payload c) c' ≡ none)
unfolding handle_response
receive-handle_response_other service payload c apdu h k =
    let safe = open_request-IsSafe service payload c h in
    respond_elsewhere apdu (opened service payload c) (call_of service payload c)
      (lookup apdu.invoke_id (opened service payload c).pending)
      (λ ref e. safe.waits_open apdu.invoke_id ref e) (older service payload c apdu h k)
      (receive-open_request service payload c)

-- The end of a call keeps the invariant, and nothing is pending under its invoke id.
release-IsSafe :
    (call : Call) (c : Client)
    → IsSafe c
    → IsSafe (release call c) × (lookup call.invoke_id (release call c).pending ≡ none)
unfolding release
release-IsSafe call c h = (
  record {
    waits_open =
        λ id ref e. ground (arith, lookup-delete id call.invoke_id c.pending, h.waits_open id ref);
    fresh = λ id ref e. ground (arith, lookup-delete id call.invoke_id c.pending, h.fresh id ref);
  },
  ground (arith, lookup-delete call.invoke_id call.invoke_id c.pending),
)
