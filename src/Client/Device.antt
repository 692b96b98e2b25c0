-- ===== src/Client/Device.antt =====
-- device.go: `NewRemoteDevice`, and client.go: `resolveDevice`. An address is `addr.IP.To4()` and
-- the port; `ip.To4()` is `none` where the source has nil.
pub mod Resolve
pub mod Discovered
use bacnet_go.Base.{
  ℕ, ◌+◌, ◌/◌, ◌%◌, List, [], ◌∷◌, ◌++◌, Option, none, some, ◌==◌, if◌then◌else◌, length,
}
use bacnet_go.Base.Map.{lookup}
use bacnet_go.Client.{Client}
use bacnet_go.Errors.{plain, invalid_device_address, device_not_found}
use bacnet_go.Go.{Result, ok, err, panic, fail, ◌>>=◌, slice, slice_from, uint16}
use bacnet_go.Types.Device.{DeviceInfo, default_port, max_apdu}
use bacnet_go.Types.ObjectId.{new_object_identifier, device_type}

-- The address: four bytes at the default port, and two more with any other port.
unfoldable pub remote_address : Option (List ℕ) → ℕ → List ℕ
remote_address none port = []
remote_address (some ip) port =
    if port == default_port then ip else ip ++ ((port / 256 % 256) ∷ (port % 256) ∷ [])

unfoldable pub new_remote_device : ℕ → Option (List ℕ) → ℕ → DeviceInfo
new_remote_device device_id ip port = record {
  object_id = new_object_identifier device_type device_id;
  address = record { net = 0; addr = remote_address ip port };
  max_apdu_length = max_apdu;
  segmentation = 0;
  vendor_id = 0;
  vendor_name = [];
  model_name = [];
  firmware_revision = [];
  application_software = [];
  description = [];
  location = [];
  object_list = [];
}

-- The end of `resolveDevice`: the address and the port to send to.
unfoldable pub udp_address : List ℕ → Result (List ℕ × ℕ)
udp_address addr =
    if length addr == 4
    then ok (addr, default_port)
    else if length addr == 6
    then (do ip ← slice addr 0 4; tail ← slice_from addr 4; port ← uint16 tail; ok (ip, port))
    else err (plain invalid_device_address)

unfoldable pub address_of : Option DeviceInfo → Result (List ℕ × ℕ)
unfolding udp_address
address_of none = fail device_not_found
address_of (some d) = udp_address d.address.addr

-- `resolveDevice`: on a miss `discover` is the `WhoIs` call, with the datagrams handled meanwhile.
resolve_found : ℕ → (Client → Result Client) → Client → Option DeviceInfo → Result (List ℕ × ℕ)
unfolding address_of
resolve_found device_id discover c (some d) = udp_address d.address.addr
resolve_found device_id discover c none = do
  c' ← discover c
  address_of (lookup device_id c'.devices)

unfoldable pub resolve_device : ℕ → (Client → Result Client) → Client → Result (List ℕ × ℕ)
unfolding resolve_found
resolve_device device_id discover c =
    resolve_found device_id discover c (lookup device_id c.devices)
