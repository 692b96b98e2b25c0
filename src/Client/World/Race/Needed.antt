-- ===== src/Client/World/Race/Needed.antt =====
-- Why `Close` waits for the handlers before it closes the channels.
use bacnet_go.Base.{ℕ, ◌≡◌, refl, Option, none, some}
use bacnet_go.Base.Map.{lookup}
use bacnet_go.Client.{Client, Channel}
use bacnet_go.Client.Lifecycle.{shut, close_channels}
use bacnet_go.Client.Receive.{deliver}
use bacnet_go.Client.World.Invariant.{IsOrderly}
use bacnet_go.Client.World.Isolation.{IsClosed, Closes, close_channels-Closes}
use bacnet_go.Errors.{Error}
use bacnet_go.Go.{panic, Succeeds, Succeeds->>=}
use bacnet_go.Wire.Apdu.{Apdu}

deliver-closed :
    (ref : ℕ) (apdu : Apdu) (c : Client) (found : Option Channel)
    → IsClosed found
    → deliver ref apdu found c ≡ panic
unfolding deliver
deliver-closed ref apdu c none h = absurd h
deliver-closed ref apdu c (some ch) h = rw h refl

-- Were the channels closed while a handler has found the channel of a pending request and not yet
-- sent to it, the send would panic, for any pending request and any response, in a client whose
-- pending requests wait on open channels of their own.
pub deliver-shut :
    (c : Client) (closed : Option Error) (apdu : Apdu) (ref : ℕ)
    → IsOrderly c
    → lookup apdu.invoke_id c.pending ≡ some ref
    → Succeeds (shut closed c) (λ r. deliver ref apdu (lookup ref r.0.channels) r.0 ≡ panic)
unfolding shut
deliver-shut c closed apdu ref h e =
    Succeeds->>= (close_channels c.pending c.channels) _ (Closes c.pending c.channels) _
      (close_channels-Closes c.pending c.channels h.waits)
      λ channels closing.
        deliver-closed ref apdu _ (lookup ref channels) (closing.1 apdu.invoke_id ref e)
