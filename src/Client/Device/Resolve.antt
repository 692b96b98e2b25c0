-- ===== src/Client/Device/Resolve.antt =====
-- A device that is registered by hand resolves to the address that it was registered with.
use bacnet_go.Base.{
  ℕ, ◌/◌, ◌%◌, ◌^◌, ◌≡◌, take, drop, List, [], ◌∷◌, ◌++◌, some, length, length-append, take_prefix,
  drop_prefix, arith,
}
use bacnet_go.Base.Map.{lookup-insert}
use bacnet_go.Client.{Client, register_device}
use bacnet_go.Client.Device.{remote_address, new_remote_device, udp_address, resolve_device}
use bacnet_go.Go.{Result, ok, slice, slice_from, uint16}

udp_address-remote_address :
    (ip : List ℕ) (port : ℕ)
    → length ip ≡ 4
    → udp_address (remote_address (some ip) port) ≡ ok (ip, port % 2 ^ 16)
unfolding udp_address remote_address slice slice_from uint16
udp_address-remote_address ip port h =
    let tail = (port / 256 % 256) ∷ (port % 256) ∷ [] in
    let whole : take 4 (ip ++ tail) ≡ ip = rw h at (take_prefix ip tail) in
    let behind : drop 4 (ip ++ tail) ≡ tail = rw h at (drop_prefix ip tail) in
    ground (arith, length-append ip tail, whole, behind)

-- `RegisterDevice` of a `NewRemoteDevice` makes `resolveDevice` return the IP and the port of that
-- device, without the Who-Is, for each four-byte IP; of the port 16 bits are kept.
resolve_device-register_device :
    (device_id : ℕ) (ip : List ℕ) (port : ℕ) (discover : Client → Result Client) (c : Client)
    → length ip ≡ 4
    → resolve_device device_id discover
        (register_device (new_remote_device device_id (some ip) port) c)
      ≡ ok (ip, port % 2 ^ 16)
unfolding resolve_device register_device new_remote_device
resolve_device-register_device device_id ip port discover c h = ground (
  arith,
  udp_address-remote_address ip port h,
  lookup-insert device_id device_id (new_remote_device device_id (some ip) port) c.devices,
)
