-- ===== src/Client/Service/Subscription/Registration.antt =====
-- The handlers of subscriptions, and what the ends of `SubscribeCOV` and `UnsubscribeCOV` do to them.
use bacnet_go.Base.{ℕ, ◌≡◌, refl, List, Option, none, some, ◌==◌, if◌then◌else◌}
use bacnet_go.Base.Map.{lookup, lookup-insert, lookup-delete}
use bacnet_go.Client.{Client}
use bacnet_go.Client.Request.{
  Call, Wait, context_done, answer, channel_closed, release, finish_request, outcome,
}
use bacnet_go.Client.Request.Awaits.{Response, done, ack, refused, rejected, aborted, response_apdu}
use bacnet_go.Client.Service.{end_subscribe_cov, end_unsubscribe_cov}
use bacnet_go.Errors.{Error}
use bacnet_go.Go.{Result, ok, err, panic, ◌>>=◌, Ensures, Any}
use bacnet_go.Response.Fields.{decode_error}
use bacnet_go.Response.Fields.Total.{decode_error-Any}
use bacnet_go.Wire.Apdu.{Apdu}

-- The handlers that are registered.
abbrev pub Handlers : Type 0
Handlers = List (ℕ × ℕ)

-- The handler is registered under its identifier, and the others stay.
abbrev IsRegistered : ℕ → ℕ → Handlers → Client × Result ℕ → Type 0
IsRegistered sub_id handler handlers (c, result) =
    (result ≡ ok sub_id)
    × ((id : ℕ)
        → lookup id c.cov_subs ≡ (if id == sub_id then some handler else lookup id handlers))

abbrev IsRefused : Handlers → Client × Result ℕ → Type 0
IsRefused handlers (c, result) = ((e : Error) × (result ≡ err e)) × (c.cov_subs ≡ handlers)

-- An acknowledgement registers the handler, and every other answer is an error that leaves the
-- handlers as they are.
abbrev pub Registers : ℕ → ℕ → Handlers → Response → Client × Result ℕ → Type 0
Registers sub_id handler handlers (done service) ended = IsRegistered sub_id handler handlers ended
Registers sub_id handler handlers (ack service payload) ended =
    IsRegistered sub_id handler handlers ended
Registers sub_id handler handlers (refused service payload) ended = IsRefused handlers ended
Registers sub_id handler handlers (rejected reason) ended = IsRefused handlers ended
Registers sub_id handler handlers (aborted reason) ended = IsRefused handlers ended

-- The same for the end of a subscription.
abbrev IsRemoved : ℕ → Handlers → Client × Option Error → Type 0
IsRemoved sub_id handlers (c, failed) =
    (failed ≡ none)
    × ((id : ℕ) → lookup id c.cov_subs ≡ (if id == sub_id then none else lookup id handlers))

abbrev IsKept : Handlers → Client × Option Error → Type 0
IsKept handlers (c, failed) = ((e : Error) × (failed ≡ some e)) × (c.cov_subs ≡ handlers)

abbrev pub Removes : ℕ → Handlers → Response → Client × Option Error → Type 0
Removes sub_id handlers (done service) ended = IsRemoved sub_id handlers ended
Removes sub_id handlers (ack service payload) ended = IsRemoved sub_id handlers ended
Removes sub_id handlers (refused service payload) ended = IsKept handlers ended
Removes sub_id handlers (rejected reason) ended = IsKept handlers ended
Removes sub_id handlers (aborted reason) ended = IsKept handlers ended

-- The error of a call.
abbrev failed_with : Error → Result Apdu
failed_with e = err e

-- An Error PDU is an error, whatever bytes it carries.
bind_error :
    (m : Result Error) → Ensures m Any → (e : Error) × ((m >>= failed_with) ≡ failed_with e)
bind_error (ok e) h = (e, refl)
bind_error (err e) h = (e, refl)
bind_error panic h = absurd h

refused_is_error :
    (invoke_id service : ℕ) (payload : List ℕ)
    → (e : Error) × (outcome (response_apdu invoke_id (refused service payload)) ≡ err e)
unfolding outcome
refused_is_error invoke_id service payload =
    bind_error (decode_error payload) (decode_error-Any payload)

pub finish_request-cov_subs :
    (call : Call) (wait : Wait) (ns : ℕ) (c : Client)
    → (finish_request call wait ns c).0.cov_subs ≡ c.cov_subs
unfolding finish_request release
finish_request-cov_subs call context_done ns c = refl
finish_request-cov_subs call channel_closed ns c = refl
finish_request-cov_subs call (answer apdu) ns c = refl

pub end_subscribe_cov-Registers :
    (sub_id handler invoke_id : ℕ) (r : Response) (c : Client)
    → Registers sub_id handler c.cov_subs r
        (end_subscribe_cov sub_id handler (outcome (response_apdu invoke_id r)) c)
unfolding end_subscribe_cov outcome
end_subscribe_cov-Registers sub_id handler invoke_id (done service) c =
    (refl, λ id. lookup-insert id sub_id handler c.cov_subs)
end_subscribe_cov-Registers sub_id handler invoke_id (ack service payload) c =
    (refl, λ id. lookup-insert id sub_id handler c.cov_subs)
end_subscribe_cov-Registers sub_id handler invoke_id (rejected reason) c = ((_, refl), refl)
end_subscribe_cov-Registers sub_id handler invoke_id (aborted reason) c = ((_, refl), refl)
end_subscribe_cov-Registers sub_id handler invoke_id (refused service payload) c =
    let (e, failed) = refused_is_error invoke_id service payload in rw failed ((e, refl), refl)

pub end_unsubscribe_cov-Removes :
    (sub_id invoke_id : ℕ) (r : Response) (c : Client)
    → Removes sub_id c.cov_subs r
        (end_unsubscribe_cov sub_id (outcome (response_apdu invoke_id r)) c)
unfolding end_unsubscribe_cov outcome
end_unsubscribe_cov-Removes sub_id invoke_id (done service) c =
    (refl, λ id. lookup-delete id sub_id c.cov_subs)
end_unsubscribe_cov-Removes sub_id invoke_id (ack service payload) c =
    (refl, λ id. lookup-delete id sub_id c.cov_subs)
end_unsubscribe_cov-Removes sub_id invoke_id (rejected reason) c = ((_, refl), refl)
end_unsubscribe_cov-Removes sub_id invoke_id (aborted reason) c = ((_, refl), refl)
end_unsubscribe_cov-Removes sub_id invoke_id (refused service payload) c =
    let (e, failed) = refused_is_error invoke_id service payload in rw failed ((e, refl), refl)
