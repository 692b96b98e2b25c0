-- ===== src/Client/World/Race.antt =====
-- `handleResponse` as the two steps that it takes: it reads the pending table under the lock, and
-- sends to the channel without it. Other calls and handlers may run between the two, but `Close`
-- waits for the handlers to end before it closes the channels.
pub mod Invariant
pub mod Safe
pub mod Needed
use bacnet_go.Base.{ℕ, ◌≡◌, List, [], ◌∷◌, ◌++◌, Option, none, some}
use bacnet_go.Base.Map.{lookup}
use bacnet_go.Client.{Client, new_client}
use bacnet_go.Client.Lifecycle.{connect, close}
use bacnet_go.Client.Receive.{deliver}
use bacnet_go.Client.Request.{Call, next_invoke_id, open_request, release}
use bacnet_go.Errors.{Error}
use bacnet_go.Go.{ok}
use bacnet_go.Wire.Apdu.{Apdu}

-- The responses that handlers have found a channel for, and not yet sent to it.
pub record Busy : Type 0 where
  pub client : Client
  pub in_flight : List (Apdu × ℕ)

abbrev pub idle : Busy
idle = record { client = new_client; in_flight = [] }

pub data RaceStep : Busy → Busy → Type 0 where
  connects :
      (b : Busy) (opened : Option Error)
      → RaceStep b (record b { client = (connect opened b.client).0 })
  begins :
      (b : Busy) (service : ℕ) (payload : List ℕ)
      → RaceStep b (record b { client = (open_request service payload b.client).0 })
  draws : (b : Busy) → RaceStep b (record b { client = (next_invoke_id b.client).0 })
  ends : (b : Busy) (call : Call) → RaceStep b (record b { client = release call b.client })
  finds :
      (b : Busy) (apdu : Apdu) (ref : ℕ)
      → lookup apdu.invoke_id b.client.pending ≡ some ref
      → RaceStep b (record b { in_flight = (apdu, ref) ∷ b.in_flight })
  delivers :
      (c c' : Client) (before after : List (Apdu × ℕ)) (apdu : Apdu) (ref : ℕ)
      → deliver ref apdu (lookup ref c.channels) c ≡ ok c'
      → RaceStep
          (record { client = c; in_flight = before ++ ((apdu, ref) ∷ after) })
          (record { client = c'; in_flight = before ++ after })
  closes :
      (b : Busy) (closed : Option Error) (c : Client) (e : Option Error)
      → b.in_flight ≡ []
      → close closed b.client ≡ ok (c, e)
      → RaceStep b (record b { client = c })

pub data RaceReach (b : Busy) : Busy → Type 0 where
  here : RaceReach b b
  next : {v u : Busy} → RaceReach b v → RaceStep v u → RaceReach b u
