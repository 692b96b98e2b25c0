-- ===== src/Client/World.antt =====
-- A client and the calls of `sendRequest` that wait, as steps: each is a part of the code that runs
-- without waiting, and the environment chooses which step is next.
pub mod Invariant
pub mod Reachable
pub mod Stale
pub mod Room
pub mod Race
pub mod Isolation
pub mod Awaits
use bacnet_go.Base.{ℕ, ◌≡◌, true, List, [], ◌∷◌, ◌++◌, Option, none, some}
use bacnet_go.Client.{Client, new_client, register_device}
use bacnet_go.Client.Lifecycle.{connect, close, receive_datagram}
use bacnet_go.Client.Request.{
  Call, Wait, context_done, is_connected, next_invoke_id, open_request, sent, receive,
  finish_request,
}
use bacnet_go.Errors.{Error}
use bacnet_go.Go.{ok}
use bacnet_go.Types.Device.{DeviceInfo}

pub record World : Type 0 where
  pub client : Client
  pub calls : List Call

abbrev pub new_world : World
new_world = record { client = new_client; calls = [] }

-- `before` and `after` stand around the call that the step is about. A call may begin in any state of
-- the connection, since that may have changed after `sendRequest` tested it. `draws` is the identifier
-- that `SubscribeCOV` takes from the counter of invoke ids for itself, before its request begins.
pub data Step : World → World → Type 0 where
  connects :
      (w : World) (opened : Option Error)
      → Step w (record w { client = (connect opened w.client).0 })
  begins :
      (w : World) (service : ℕ) (payload : List ℕ)
      → Step w (record {
        client = (open_request service payload w.client).0;
        calls = (open_request service payload w.client).1 ∷ w.calls;
      })
  draws : (w : World) → Step w (record w { client = (next_invoke_id w.client).0 })
  sends :
      (c : Client) (before after : List Call) (call : Call)
      → Step
          (record { client = c; calls = before ++ (call ∷ after) })
          (record { client = (sent call none c).0; calls = before ++ (call ∷ after) })
  fails :
      (c : Client) (before after : List Call) (call : Call) (e : Error)
      → Step
          (record { client = c; calls = before ++ (call ∷ after) })
          (record { client = (sent call (some e) c).0; calls = before ++ after })
  receives :
      (w : World) (now : ℕ) (bytes sender : List ℕ)
      → Step w (record w { client = receive_datagram now bytes sender w.client })
  finishes :
      (c : Client) (before after : List Call) (call : Call) (wait : Wait) (ns : ℕ)
      → receive call c ≡ some wait
      → Step
          (record { client = c; calls = before ++ (call ∷ after) })
          (record { client = (finish_request call wait ns c).0; calls = before ++ after })
  times_out :
      (c : Client) (before after : List Call) (call : Call) (ns : ℕ)
      → Step
          (record { client = c; calls = before ++ (call ∷ after) })
          (record { client = (finish_request call context_done ns c).0; calls = before ++ after })
  registers :
      (w : World) (d : DeviceInfo) → Step w (record w { client = register_device d w.client })
  closes :
      (w : World) (closed : Option Error) (c : Client) (e : Option Error)
      → close closed w.client ≡ ok (c, e)
      → Step w (record w { client = c })

pub data Reach (w : World) : World → Type 0 where
  here : Reach w w
  next : {v u : World} → Reach w v → Step v u → Reach w u
