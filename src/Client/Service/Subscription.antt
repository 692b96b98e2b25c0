-- ===== src/Client/Service/Subscription.antt =====
-- `SubscribeCOV` and `UnsubscribeCOV` with the answer of a server.
pub mod Registration
use bacnet_go.Base.{
  ℕ, ◌≡◌, refl, sym, true, false, List, Option, none, some, ◌==◌, if◌then◌else◌, arith,
}
use bacnet_go.Base.Map.{lookup, lookup-insert, lookup-delete}
use bacnet_go.Client.{Client}
use bacnet_go.Client.Receive.{handle_packet}
use bacnet_go.Client.Request.{
  Call, Wait, context_done, answer, channel_closed, is_connected, begin_request, open_request,
  receive, release, finish_request, outcome,
}
use bacnet_go.Client.Request.Awaits.{
  Response, done, ack, refused, rejected, aborted, response_packet, response_apdu,
  open_request-Awaits,
}
use bacnet_go.Client.Service.{begin_unsubscribe_cov, end_unsubscribe_cov}
use bacnet_go.Client.Service.Exchange.{Ends, response-Ends}
use bacnet_go.Errors.{Error}
use bacnet_go.Go.{Result, ok, err, panic, ◌>>=◌, Ensures, Any, Succeeds, Succeeds-weaken}
use bacnet_go.Response.Fields.{decode_error}
use bacnet_go.Response.Fields.Total.{decode_error-Any}
use bacnet_go.Service.{unsubscribe_cov_parameters}
use bacnet_go.Types.ConfirmedServiceChoice
use bacnet_go.Types.ObjectId.{ObjectIdentifier}
use bacnet_go.Wire.Apdu.{Apdu}
use bacnet_go.Client.Service.Subscription.Registration.{
  Handlers, Removes, finish_request-cov_subs, end_unsubscribe_cov-Removes,
}

-- The end of the call, once its response is there, and what follows it.
abbrev pub Then :
    {A : Type 0} → Call → ℕ → (Result Apdu → Client → A) → (Client → A → Type 0) → Client → Type 0
Then call ns end P c =
    (wait : Wait) × (receive call c ≡ some wait)
    × (let (c', result) = finish_request call wait ns c in P c (end result c'))

Ends-Then :
    {A : Type 0} (call : Call) (ns : ℕ) (r : Response) (end : Result Apdu → Client → A)
    (P : Handlers → A → Type 0) (c : Client)
    → ((c' : Client) → P c'.cov_subs (end (outcome (response_apdu call.invoke_id r)) c'))
    → Ends call ns (outcome (response_apdu call.invoke_id r)) c
    → Then call ns end (λ before. P before.cov_subs) c
Ends-Then call ns r end P c h (wait, ready, finished) = (
  wait,
  ready,
  rw finished
      (rw (finish_request-cov_subs call wait ns c) at (h (finish_request call wait ns c).0)),
)

-- `UnsubscribeCOV` in a connected client: the request is opened, and the next answer of the server
-- from the local network ends it. If that is an acknowledgement the handler is removed and the others
-- stay; if it is an error, a reject or an abort, that is returned, and the handlers stay as they are.
unsubscribe_cov_exchange :
    (oid : ObjectIdentifier) (sub_id : ℕ) (c : Client) (r : Response) (sender : List ℕ) (ns : ℕ)
    → is_connected c.state ≡ true
    → (c' : Client) × (call : Call) × (begin_unsubscribe_cov oid sub_id c ≡ ok (c', call))
      × Succeeds
          (handle_packet (response_packet call.invoke_id r) sender c')
          (Then call ns (end_unsubscribe_cov sub_id) (λ before. Removes sub_id before.cov_subs r))
unfolding begin_unsubscribe_cov begin_request
unsubscribe_cov_exchange oid sub_id c r sender ns hc =
    let parameters = unsubscribe_cov_parameters sub_id oid in
    let (c', call) = open_request ConfirmedServiceChoice.subscribe_cov parameters c in
    (
      c',
      call,
      rw hc refl,
      Succeeds-weaken _ _ _
          (response-Ends call c' r sender ns
            (open_request-Awaits ConfirmedServiceChoice.subscribe_cov parameters c))
          (λ answered.
            Ends-Then call ns r (end_unsubscribe_cov sub_id) (λ handlers. Removes sub_id handlers r)
              answered (end_unsubscribe_cov-Removes sub_id call.invoke_id r)),
    )
