-- ===== src/Client/Receive/Discovery.antt =====
-- The I-Ams that come in while `WhoIs` sleeps, what it collects, and what `resolveDevice` makes of
-- them.
use bacnet_go.Base.{
  ℕ, ◌^◌, ◌<◌, ◌≡◌, refl, ap, ◌∙◌, List, [], ◌∷◌, Option, some, All, ◌==◌, if◌then◌else◌,
}
use bacnet_go.Base.Map.{lookup-insert}
use bacnet_go.Client.{Client, get_device}
use bacnet_go.Client.Receive.{handle_packet}
use bacnet_go.Client.Receive.IAm.{i_am_packet, handle_packet-Stores, Stores}
use bacnet_go.Client.Receive.IAm.Read.{announced}
use bacnet_go.Go.{Result, ok, ◌>>=◌, Succeeds, Succeeds->>=, Succeeds-weaken}
use bacnet_go.Base.Map.Values.{IsKeyed, IsKeyed-insert}
use bacnet_go.Types.Device.{DeviceInfo}

-- A device that answers: what it says in its I-Am, and the address that the datagram comes from.
pub record Announcement : Type 0 where
  pub device_id : ℕ
  pub max_apdu : ℕ
  pub segmentation : ℕ
  pub vendor_id : ℕ
  pub sender : List ℕ

pub record IsAnnouncement (a : Announcement) : Type 0 where
  pub device_fits : a.device_id < 2 ^ 22
  pub max_apdu_fits : a.max_apdu < 2 ^ 16
  pub segmentation_fits : a.segmentation < 2 ^ 8
  pub vendor_fits : a.vendor_id < 2 ^ 16

abbrev pub device_of : Announcement → DeviceInfo
device_of a = announced a.device_id a.max_apdu a.segmentation a.vendor_id a.sender

-- The datagrams of the devices, one after another.
pub hear_all : List Announcement → Client → Result Client
hear_all [] c = ok c
hear_all (a ∷ heard) c = do
  c' ← handle_packet (i_am_packet a.device_id a.max_apdu a.segmentation a.vendor_id) a.sender c
  hear_all heard c'

-- The last of them from each device, or what was known before.
unfoldable pub last_word : List Announcement → ℕ → Option DeviceInfo → Option DeviceInfo
last_word [] id known = known
last_word (a ∷ heard) id known =
    last_word heard id (if id == a.device_id then some (device_of a) else known)

-- What the cache is after them.
abbrev Heard : List Announcement → Client → Client → Type 0
Heard heard c c' =
    ((id : ℕ) → get_device id c' ≡ last_word heard id (get_device id c))
    × (IsKeyed c.devices → IsKeyed c'.devices)

Heard-cons :
    (a : Announcement) (heard : List Announcement) (c c' c'' : Client)
    → Stores a.device_id (device_of a) c c'
    → Heard heard c' c''
    → Heard (a ∷ heard) c c''
unfolding last_word get_device
Heard-cons a heard c c' c'' e (found, keyed) = (
  λ id.
      found id
      ∙ ap (last_word heard id) (rw e (lookup-insert id a.device_id (device_of a) c.devices)),
  λ k. keyed (rw e (IsKeyed-insert a.device_id (device_of a) c.devices k)),
)

hear_all-Heard :
    (heard : List Announcement) (c : Client)
    → All IsAnnouncement heard
    → Succeeds (hear_all heard c) (Heard heard c)
unfolding hear_all last_word
hear_all-Heard [] c h = (λ id. refl, λ k. k)
hear_all-Heard (a ∷ heard) c h =
    let packet = i_am_packet a.device_id a.max_apdu a.segmentation a.vendor_id in
    Succeeds->>= (handle_packet packet a.sender c) (hear_all heard)
      (Stores a.device_id (device_of a) c) _
      (handle_packet-Stores a.device_id a.max_apdu a.segmentation a.vendor_id a.sender c
        h.0.device_fits h.0.max_apdu_fits h.0.segmentation_fits h.0.vendor_fits)
      λ c' e.
        Succeeds-weaken (hear_all heard c') (Heard heard c') _ (hear_all-Heard heard c' h.1)
          λ c'' after. Heard-cons a heard c c' c'' e after

-- I-Ams of devices on the local network, in any number and order, are all handled, if their numbers
-- fit their fields. Afterwards `GetDevice` returns for each device what it said last, and for every
-- other device what it returned before.
pub get_device-hear_all :
    (heard : List Announcement) (c : Client)
    → All IsAnnouncement heard
    → Succeeds
        (hear_all heard c)
        (λ c'. (id : ℕ) → get_device id c' ≡ last_word heard id (get_device id c))
get_device-hear_all heard c h =
    Succeeds-weaken (hear_all heard c) (Heard heard c) _ (hear_all-Heard heard c h)
      λ c' after. after.0
