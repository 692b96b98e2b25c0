-- ===== src/Response/Acknowledgement.antt =====
-- What a server sends back, written with the encoders of protocol.go in the order that ASHRAE 135
-- gives the fields: the specification that the two response decoders are held against.
use bacnet_go.Base.{ℕ, ◌<◌, ◌^◌, List, [], ◌∷◌, ◌++◌, Option, none, some}
use bacnet_go.Go.{Result, ok, err, panic}
use bacnet_go.Types.ObjectId.{ObjectIdentifier}
use bacnet_go.Value.{Value, encode_property_value}
use bacnet_go.Value.RoundTrip.{read_back}
use bacnet_go.Response.Multiple.{PropertyValue}
use bacnet_go.Wire.Tag.{encode_opening_tag, encode_closing_tag}
use bacnet_go.Wire.Number.{
  encode_context_object_identifier, encode_context_enumerated, encode_enumerated_tag,
  encode_context_unsigned,
}

-- The optional array index, under the context tag that the service gives it.
abbrev pub index_bytes : ℕ → Option ℕ → List ℕ
index_bytes number none = []
index_bytes number (some i) = encode_context_unsigned number i

abbrev pub IsIndex : Option ℕ → Type 0
IsIndex none = Unit {0}
IsIndex (some i) = i < 2 ^ 32

-- A ReadProperty-ACK: object [0], property [1], array index [2], and the value within [3].
abbrev pub read_property_ack : ObjectIdentifier → ℕ → Option ℕ → List ℕ → List ℕ
read_property_ack oid property_id array_index value =
    encode_context_object_identifier 0 oid
    ++ (encode_context_enumerated 1 property_id
        ++ (index_bytes 2 array_index ++ (encode_opening_tag 3 ++ (value ++ encode_closing_tag 3))))

-- What a ReadPropertyMultiple-ACK says of one property: a value, or an error class and code.
pub data Outcome : Type 0 where
  value : Value → Outcome
  access_error : ℕ → ℕ → Outcome

pub record Entry : Type 0 where
  pub property_id : ℕ
  pub array_index : Option ℕ
  pub outcome : Outcome

-- The bytes of a value that `encodePropertyValue` accepts.
abbrev pub written : Result (List ℕ) → List ℕ
written (ok bytes) = bytes
written (err e) = []
written panic = []

abbrev pub value_bytes : Value → List ℕ
value_bytes v = written (encode_property_value v)

-- The value within [4], or the error within [5].
abbrev pub outcome_bytes : Outcome → List ℕ
outcome_bytes (value v) = encode_opening_tag 4 ++ (value_bytes v ++ encode_closing_tag 4)
outcome_bytes (access_error class code) =
    encode_opening_tag 5
    ++ (encode_enumerated_tag class ++ (encode_enumerated_tag code ++ encode_closing_tag 5))

-- The property [2], the array index [3] and the outcome.
abbrev pub entry_bytes : Entry → List ℕ
entry_bytes e =
    encode_context_enumerated 2 e.property_id
    ++ (index_bytes 3 e.array_index ++ outcome_bytes e.outcome)

abbrev pub entries_bytes : List Entry → List ℕ
entries_bytes [] = []
entries_bytes (e ∷ es) = entry_bytes e ++ entries_bytes es

-- The object [0] and its entries within [1].
pub record ObjectResult : Type 0 where
  pub object_id : ObjectIdentifier
  pub entries : List Entry

abbrev pub object_bytes : ObjectResult → List ℕ
object_bytes o =
    encode_context_object_identifier 0 o.object_id
    ++ (encode_opening_tag 1 ++ (entries_bytes o.entries ++ encode_closing_tag 1))

abbrev pub multiple_ack : List ObjectResult → List ℕ
multiple_ack [] = []
multiple_ack (o ∷ os) = object_bytes o ++ multiple_ack os

-- What the caller should get: the values, in order, each with its object, property and index.
abbrev pub outcome_results : ObjectIdentifier → Entry → Outcome → List PropertyValue
outcome_results oid e (value v) =
    record {
      object_id = oid;
      property_id = e.property_id;
      array_index = e.array_index;
      value = read_back v;
    }
    ∷ []
outcome_results oid e (access_error class code) = []

abbrev pub entry_results : ObjectIdentifier → List Entry → List PropertyValue
entry_results oid [] = []
entry_results oid (e ∷ es) = outcome_results oid e e.outcome ++ entry_results oid es

abbrev pub expected : List ObjectResult → List PropertyValue
expected [] = []
expected (o ∷ os) = entry_results o.object_id o.entries ++ expected os
