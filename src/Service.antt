-- ===== src/Service.antt =====
-- client.go: the parameters of the services that the client asks for. The loops of
-- `ReadPropertyMultiple` run over a Go map, so the order of its objects is left open.
pub mod Grouping
pub mod Write
pub mod Subscribe
use bacnet_go.Base.{
  ℕ, ◌%◌, ◌^◌, Bool, true, false, ◌&&◌, List, [], ◌∷◌, ◌++◌, Option, none, some, ◌==◌,
  if◌then◌else◌,
}
use bacnet_go.Errors.{wrapped, encode_value}
use bacnet_go.Go.{Result, ok, err, panic, ◌>>=◌}
use bacnet_go.Options.{DiscoverOptions, WriteOptions, SubscribeOptions}
use bacnet_go.Types.Device.{ReadPropertyRequest}
use bacnet_go.Types.ObjectId.{ObjectIdentifier}
use bacnet_go.Value.{Value, encode_property_value}
use bacnet_go.Wire.Number.{
  encode_context_object_identifier, encode_context_enumerated, encode_context_unsigned,
  encode_context_boolean,
}
use bacnet_go.Wire.Tag.{encode_opening_tag, encode_closing_tag}

-- `if x != nil { data = append(data, EncodeContextUnsigned(tag, *x)...) }`
abbrev pub optional_unsigned : ℕ → Option ℕ → List ℕ
optional_unsigned number none = []
optional_unsigned number (some n) = encode_context_unsigned number n

unfoldable pub read_property_parameters : ObjectIdentifier → ℕ → Option ℕ → List ℕ
read_property_parameters oid property_id array_index =
    encode_context_object_identifier 0 oid
    ++ (encode_context_enumerated 1 property_id ++ optional_unsigned 2 array_index)

-- `return fmt.Errorf("encode value: %w", err)`
encoded_or : Result (List ℕ) → Result (List ℕ)
encoded_or (ok bytes) = ok bytes
encoded_or (err e) = err (wrapped encode_value e)
encoded_or panic = panic

unfoldable pub write_property_parameters :
    ObjectIdentifier → ℕ → WriteOptions → Value → Result (List ℕ)
unfolding encoded_or
write_property_parameters oid property_id options value = do
  encoded ← encoded_or (encode_property_value value)
  ok (
      encode_context_object_identifier 0 oid
      ++ (encode_context_enumerated 1 property_id
          ++ (optional_unsigned 2 options.array_index
              ++ (encode_opening_tag 3
                  ++ (encoded ++ (encode_closing_tag 3 ++ optional_unsigned 4 options.priority))))))

-- The requests by object, as `objectRequests[req.ObjectID] = append(…)` collects them.
abbrev pub same_object : ObjectIdentifier → ObjectIdentifier → Bool
same_object a b = a.type == b.type && a.instance_number == b.instance_number

abbrev pub Groups : Type 0
Groups = List (ObjectIdentifier × List ReadPropertyRequest)

unfoldable pub add_request : ReadPropertyRequest → Groups → Groups
add_request req [] = (req.object_id, req ∷ []) ∷ []
add_request req ((oid, reqs) ∷ groups) =
    let rest = add_request req groups in
    if same_object req.object_id oid then (oid, reqs ++ (req ∷ [])) ∷ groups else (oid, reqs) ∷ rest

unfoldable pub group_from : List ReadPropertyRequest → Groups → Groups
group_from [] groups = groups
group_from (req ∷ reqs) groups = group_from reqs (add_request req groups)

unfoldable pub group_requests : List ReadPropertyRequest → Groups
group_requests reqs = group_from reqs []

references : List ReadPropertyRequest → List ℕ
references [] = []
references (req ∷ reqs) =
    encode_context_enumerated 0 req.property_id
    ++ (optional_unsigned 1 req.array_index ++ references reqs)

-- The parameters for the groups in the order that the map yields them.
unfoldable pub read_property_multiple_parameters : Groups → List ℕ
unfolding references
read_property_multiple_parameters [] = []
read_property_multiple_parameters ((oid, reqs) ∷ groups) =
    encode_context_object_identifier 0 oid
    ++ (encode_opening_tag 1
        ++ (references reqs ++ (encode_closing_tag 1 ++ read_property_multiple_parameters groups)))

unfoldable pub subscribe_cov_parameters : ℕ → ObjectIdentifier → SubscribeOptions → List ℕ
subscribe_cov_parameters sub_id oid options =
    encode_context_unsigned 0 sub_id
    ++ (encode_context_object_identifier 1 oid
        ++ ((if options.confirmed then encode_context_boolean 2 true else [])
            ++ optional_unsigned 3 options.lifetime))

-- No confirmation flag and no lifetime cancel the subscription.
unfoldable pub unsubscribe_cov_parameters : ℕ → ObjectIdentifier → List ℕ
unsubscribe_cov_parameters sub_id oid =
    encode_context_unsigned 0 sub_id ++ encode_context_object_identifier 1 oid

limits : Option ℕ → Option ℕ → List ℕ
limits none high = []
limits (some low) none = []
limits (some low) (some high) = encode_context_unsigned 0 low ++ encode_context_unsigned 1 high

unfoldable pub who_is_parameters : DiscoverOptions → List ℕ
unfolding limits
who_is_parameters options = limits options.low_limit options.high_limit
