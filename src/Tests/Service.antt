-- ===== src/Tests/Service.antt =====
-- The services at concrete inputs.
use bacnet_go.Base.{
  ℕ, ◌≡◌, refl, true, List, [], ◌∷◌, none, ◌⊎◌, inr, arith, ◌==◌, if◌then◌else◌, ◌^◌, ◌-◌,
}
use bacnet_go.Client.{Client, new_client, connected}
use bacnet_go.Client.Receive.{handle_packet}
use bacnet_go.Client.Request.{Call}
use bacnet_go.Client.Request.Awaits.{ack, response_packet}
use bacnet_go.Client.Service.{
  begin_read_property, end_read_property, begin_read_property_multiple, end_read_property_multiple,
}
use bacnet_go.Client.Service.Exchange.{
  Ends, Gets, read_property_exchange, read_property_multiple_exchange,
}
use bacnet_go.Client.Service.ObjectList.{get_object_list}
use bacnet_go.Client.Service.ObjectList.Ends.{
  elements, get_object_list-elements, get_object_list_forever,
}
use bacnet_go.Errors.{Error}
use bacnet_go.Go.{ok, panic, Succeeds}
use bacnet_go.Options.{no_subscribe_options}
use bacnet_go.Response.Acknowledgement.{
  ObjectResult, value, read_property_ack, multiple_ack, expected,
}
use bacnet_go.Service.{group_requests, subscribe_cov_parameters, unsubscribe_cov_parameters}
use bacnet_go.Service.Grouping.{requests_of, asked_of, requests_of-group_requests}
use bacnet_go.Service.Subscribe.{subscribe_cov_parameters-unsubscribe_cov_parameters}
use bacnet_go.Types.ConfirmedServiceChoice
use bacnet_go.Types.Device.{ReadPropertyRequest}
use bacnet_go.Types.ObjectId.{ObjectIdentifier}
use bacnet_go.Value.{Value, boolean, unsigned, object_id, encode_property_value}
use bacnet_go.Value.RoundTrip.{read_back}

abbrev online : Client
online = record new_client { state = connected }

abbrev sensor : ObjectIdentifier
sensor = record { type = 0; instance_number = 7 }

-- The device, its array of objects: a length and two elements, the second of another type.
abbrev read_element : ℕ → Unit {0} → Unit {0} × (Error ⊎ Value)
read_element i s =
    (tt, inr (if i == 0 then unsigned 2 else if i == 1 then object_id sensor else boolean true))

read_property_exchange_example :
    (c' : Client) × (call : Call) × (value : List ℕ) × (begin_read_property sensor 85 none online
      ≡ ok (c', call))
    × (encode_property_value (unsigned 300) ≡ ok value)
    × Succeeds
        (handle_packet
          (response_packet call.invoke_id
            (ack ConfirmedServiceChoice.read_property (read_property_ack sensor 85 none value)))
          (10 ∷ 0 ∷ 0 ∷ 1 ∷ [])
          c')
        (Gets call 5 end_read_property (read_back (unsigned 300)))
read_property_exchange_example =
    read_property_exchange sensor 85 none (unsigned 300) online (10 ∷ 0 ∷ 0 ∷ 1 ∷ []) 5 refl
      (omega arith) tt (omega arith)

abbrev readings : List ObjectResult
readings =
    record {
      object_id = sensor;
      entries =
          record { property_id = 85; array_index = none; outcome = value (unsigned 300) } ∷ [];
    }
    ∷ []

read_property_multiple_exchange_example :
    (c' : Client) × (call : Call) × (begin_read_property_multiple [] online ≡ ok (c', call))
    × Succeeds
        (handle_packet
          (response_packet call.invoke_id
            (ack ConfirmedServiceChoice.read_property_multiple (multiple_ack readings)))
          (10 ∷ 0 ∷ 0 ∷ 1 ∷ [])
          c')
        (Gets call 5 end_read_property_multiple (expected readings))
read_property_multiple_exchange_example =
    read_property_multiple_exchange [] readings online (10 ∷ 0 ∷ 0 ∷ 1 ∷ []) 5 refl (
      (
        (omega arith, omega arith),
        (record { property = omega arith; index = tt; outcome = omega arith }, tt),
      ),
      tt,
    )

get_object_list-elements_example :
    get_object_list read_element 2 tt
    ≡ ((elements read_element 2 1 tt).0, ok (elements read_element 2 1 tt).1)
get_object_list-elements_example =
    get_object_list-elements read_element 2 2 tt refl (omega arith) (omega arith)

-- A device that answers every read with the greatest number.
get_object_list_forever_example :
    (get_object_list {S = Unit {0}} (λ i s. (s, inr (unsigned (2 ^ 32 - 1)))) 9 tt).1 ≡ panic
get_object_list_forever_example =
    get_object_list_forever {S = Unit {0}} (λ i s. (s, inr (unsigned (2 ^ 32 - 1)))) 9 tt refl

abbrev asked : List ReadPropertyRequest
asked =
    record { object_id = sensor; property_id = 85; array_index = none }
    ∷ record {
      object_id = record { type = 8; instance_number = 1 };
      property_id = 77;
      array_index = none;
    }
    ∷ record { object_id = sensor; property_id = 111; array_index = none }
    ∷ []

requests_of-group_requests_example :
    requests_of sensor (group_requests asked) ≡ asked_of sensor asked
requests_of-group_requests_example = requests_of-group_requests sensor asked

subscribe_cov_parameters-unsubscribe_cov_parameters_example :
    subscribe_cov_parameters 3 sensor no_subscribe_options ≡ unsubscribe_cov_parameters 3 sensor
subscribe_cov_parameters-unsubscribe_cov_parameters_example =
    subscribe_cov_parameters-unsubscribe_cov_parameters 3 sensor no_subscribe_options refl refl
