-- ===== src/Client.antt =====
-- client.go and device.go: the state of a client, and the operations on it. A lock-protected region
-- or an atomic operation is one function here; a function that blocks is the parts before and
-- behind the point where it waits.
pub mod Invariant
pub mod Receive
pub mod Request
pub mod Device
pub mod Lifecycle
pub mod World
pub mod Service
use Prim.Native.String.{String}
use bacnet_go.Base.{ℕ, Bool, true, false, List, [], Option, none, some, ◌==◌, if◌then◌else◌}
use bacnet_go.Base.Int.{ℤ, pos, negsuc}
use bacnet_go.Base.Map
use bacnet_go.Base.Map.{lookup}
use bacnet_go.Metrics.{Metrics, new_metrics}
use bacnet_go.Types.Device.{DeviceInfo}
use bacnet_go.Wire.Apdu.{Apdu}

pub data ConnectionState : Type 0 where
  disconnected connecting connected : ConnectionState

-- The int32 that stands for a state in the source; the client's own field never holds another.
abbrev state_number : ConnectionState → ℤ
state_number disconnected = pos 0
state_number connecting = pos 1
state_number connected = pos 2

-- `(ConnectionState).String`, on every int32.
abbrev pub state_text : ℤ → String
state_text (pos n) =
    if n == 0
    then "disconnected"
    else if n == 1
    then "connecting"
    else if n == 2
    then "connected"
    else "unknown"
state_text (negsuc n) = "unknown"

-- A response channel: `make(chan *APDU, 1)`.
pub record Channel : Type 0 where
  pub buffer : Option Apdu
  pub closed : Bool

-- The maps hold references to channels, which live in `channels`; a new one gets the reference
-- `next_channel`. A handler of a subscription is its number.
pub record Client : Type 0 where
  pub state : ConnectionState
  pub invoke_id : ℕ
  pub channels : List (ℕ × Channel)
  pub next_channel : ℕ
  pub pending : List (ℕ × ℕ)
  pub devices : List (ℕ × DeviceInfo)
  pub cov_subs : List (ℕ × ℕ)
  pub metrics : Metrics

-- The fields that `NewClient` fills. Its options, its logger and the transport that it makes are no
-- part of this state: the operations take the answers of the transport as arguments.
abbrev pub new_client : Client
new_client = record {
  state = disconnected;
  invoke_id = 0;
  channels = [];
  next_channel = 0;
  pending = [];
  devices = [];
  cov_subs = [];
  metrics = new_metrics;
}

-- `GetDevice`
unfoldable pub get_device : ℕ → Client → Option DeviceInfo
get_device device_id c = lookup device_id c.devices

-- `RegisterDevice`
unfoldable pub register_device : DeviceInfo → Client → Client
register_device d c = record c { devices = Map.insert d.object_id.instance_number d c.devices }
