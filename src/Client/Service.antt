-- ===== src/Client/Service.antt =====
-- client.go: the operations of the client that wait for a device, each as the part before the wait
-- and the part behind it; what `resolveDevice` does before them is in Client/Device.
pub mod Exchange
pub mod Write
pub mod Subscription
pub mod ObjectList
use bacnet_go.Base.{
  ℕ, ◌+◌, Bool, true, false, List, [], ◌∷◌, ◌++◌, Option, none, some, map, length, if◌then◌else◌,
}
use bacnet_go.Base.Map
use bacnet_go.Client.{Client}
use bacnet_go.Client.Request.{Call, is_connected, next_invoke_id, begin_request}
use bacnet_go.Errors.{Error, Message, wrapped, not_connected}
use bacnet_go.Go.{Result, ok, err, panic, ◌>>=◌, fail}
use bacnet_go.Metrics.{inc, add}
use bacnet_go.Options.{DiscoverOptions, WriteOptions, SubscribeOptions}
use bacnet_go.Response.Multiple.{PropertyValue, decode_read_property_multiple_response}
use bacnet_go.Response.ReadProperty.{decode_read_property_response}
use bacnet_go.Types.ConfirmedServiceChoice
use bacnet_go.Types.UnconfirmedServiceChoice
use bacnet_go.Service.{
  Groups, read_property_parameters, write_property_parameters, read_property_multiple_parameters,
  subscribe_cov_parameters, unsubscribe_cov_parameters, who_is_parameters,
}
use bacnet_go.Types.Device.{DeviceInfo}
use bacnet_go.Types.ObjectId.{ObjectIdentifier}
use bacnet_go.Value.{Value}
use bacnet_go.Wire.Apdu.{Apdu, encode_unconfirmed_request}
use bacnet_go.Wire.Bvlc.{encode_bvlc, original_unicast_npdu, original_broadcast_npdu}
use bacnet_go.Wire.Npdu.{encode_npdu, priority_normal}

-- `sendUnconfirmedRequest`: the datagram, and the state for what the transport answers.
unfoldable pub unconfirmed_packet : Bool → ℕ → List ℕ → List ℕ
unconfirmed_packet broadcast service payload =
    let apdu = encode_unconfirmed_request service payload in
    let npdu = encode_npdu false priority_normal in
    encode_bvlc (if broadcast then original_broadcast_npdu else original_unicast_npdu)
      (length npdu + length apdu)
    ++ (npdu ++ apdu)

unconfirmed_sent : List ℕ → Option Error → Client → Client × Option Error
unconfirmed_sent packet (some e) c = (
  record c { metrics = record c.metrics { requests_failed = inc c.metrics.requests_failed } },
  some (wrapped Message.send_unconfirmed_request e),
)
unconfirmed_sent packet none c = (
  record c {
    metrics = record c.metrics {
      bytes_sent = add (length packet) c.metrics.bytes_sent;
      requests_succeeded = inc c.metrics.requests_succeeded;
    };
  },
  none,
)

unfoldable pub send_unconfirmed_request :
    Bool → ℕ → List ℕ → Option Error → Client → Client × Option Error
unfolding unconfirmed_sent
send_unconfirmed_request broadcast service payload answered c =
    if is_connected c.state
    then unconfirmed_sent (unconfirmed_packet broadcast service payload) answered
        (record c { metrics = record c.metrics { requests_sent = inc c.metrics.requests_sent } })
    else (c, some (Error.sentinel not_connected))

-- `WhoIs` up to its sleep, and the devices that it collects after it.
who_is_sent : Client × Option Error → Client × Option Error
who_is_sent (c, some e) = (c, some e)
who_is_sent (c, none) =
    (record c { metrics = record c.metrics { who_is_sent = inc c.metrics.who_is_sent } }, none)

unfoldable pub begin_who_is : DiscoverOptions → Option Error → Client → Client × Option Error
unfolding who_is_sent
begin_who_is options answered c = who_is_sent (
    send_unconfirmed_request true UnconfirmedServiceChoice.who_is (who_is_parameters options)
      answered c)

unfoldable pub end_who_is : Client → List DeviceInfo
end_who_is c = map (λ (entry : ℕ × DeviceInfo). entry.1) c.devices

-- `ReadProperty` and `ReadPropertyMultiple`
unfoldable pub begin_read_property :
    ObjectIdentifier → ℕ → Option ℕ → Client → Result (Client × Call)
begin_read_property oid property_id array_index c =
    begin_request ConfirmedServiceChoice.read_property
      (read_property_parameters oid property_id array_index) c

unfoldable pub end_read_property : Result Apdu → Result Value
end_read_property answered = do resp ← answered; decode_read_property_response resp.payload

unfoldable pub begin_read_property_multiple : Groups → Client → Result (Client × Call)
begin_read_property_multiple groups c =
    begin_request ConfirmedServiceChoice.read_property_multiple
      (read_property_multiple_parameters groups) c

unfoldable pub end_read_property_multiple : Result Apdu → Result (List PropertyValue)
end_read_property_multiple answered = do
  resp ← answered
  decode_read_property_multiple_response resp.payload

-- `WriteProperty`, whose result is that of the request.
unfoldable pub begin_write_property :
    ObjectIdentifier → ℕ → WriteOptions → Value → Client → Result (Client × Call)
begin_write_property oid property_id options value c = do
  parameters ← write_property_parameters oid property_id options value
  begin_request ConfirmedServiceChoice.write_property parameters c

-- `SubscribeCOV`: the identifier of the subscription is an invoke id of its own, also when the
-- request is refused.
began : Client → ℕ → Result (Client × Call) → Client × Result (Call × ℕ)
began c sub_id (ok (c', call)) = (c', ok (call, sub_id))
began c sub_id (err e) = (c, err e)
began c sub_id panic = (c, panic)

unfoldable pub begin_subscribe_cov :
    ObjectIdentifier → SubscribeOptions → Client → Client × Result (Call × ℕ)
unfolding began
begin_subscribe_cov oid options c =
    let (counted, sub_id) = next_invoke_id c in
    began counted sub_id (
      begin_request ConfirmedServiceChoice.subscribe_cov
        (subscribe_cov_parameters sub_id oid options) counted)

unfoldable pub end_subscribe_cov : ℕ → ℕ → Result Apdu → Client → Client × Result ℕ
end_subscribe_cov sub_id handler (err e) c = (c, err e)
end_subscribe_cov sub_id handler panic c = (c, panic)
end_subscribe_cov sub_id handler (ok resp) c = (
  record c {
    cov_subs = Map.insert sub_id handler c.cov_subs;
    metrics = record c.metrics { cov_subscriptions = inc c.metrics.cov_subscriptions };
  },
  ok sub_id,
)

unfoldable pub begin_unsubscribe_cov : ObjectIdentifier → ℕ → Client → Result (Client × Call)
begin_unsubscribe_cov oid sub_id c =
    begin_request ConfirmedServiceChoice.subscribe_cov (unsubscribe_cov_parameters sub_id oid) c

unfoldable pub end_unsubscribe_cov : ℕ → Result Apdu → Client → Client × Option Error
end_unsubscribe_cov sub_id (err e) c = (c, some e)
end_unsubscribe_cov sub_id panic c = (c, none)
end_unsubscribe_cov sub_id (ok resp) c =
    (record c { cov_subs = Map.delete sub_id c.cov_subs }, none)
