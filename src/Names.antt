-- ===== src/Names.antt =====
-- types.go and errors.go: the enumerations with a `String` method, together.
pub mod Identifier
pub mod ErrorText
use Prim.Native.String.{String}
use bacnet_go.Base.{ℕ, ◌≡◌, refl, true, some}
use bacnet_go.Enumeration.{Enumeration, name}
use bacnet_go.Enumeration.Distinct.{has_distinct_names, name-injective}
use bacnet_go.Enumeration.Spelling.{has_parsed_names, parse-name}
use bacnet_go.Errors.AbortReason.{abort_reasons}
use bacnet_go.Errors.ErrorClass.{error_classes}
use bacnet_go.Errors.ErrorCode.{error_codes}
use bacnet_go.Errors.RejectReason.{reject_reasons}
use bacnet_go.Types.ConfirmedServiceChoice.{confirmed_service_choices}
use bacnet_go.Types.DeviceStatus.{device_statuses}
use bacnet_go.Types.EngineeringUnits.{engineering_units}
use bacnet_go.Types.EventState.{event_states}
use bacnet_go.Types.ObjectType.Names.{object_types, object_type_texts, parse_object_type}
use bacnet_go.Types.PropertyIdentifier.{
  property_identifiers, property_identifier_texts, parse_property_identifier,
}
use bacnet_go.Types.Reliability.{reliabilities}
use bacnet_go.Types.Segmentation.{segmentations}
use bacnet_go.Types.UnconfirmedServiceChoice.{unconfirmed_service_choices}

pub data Kind : Type 0 where
  confirmed_service_choice unconfirmed_service_choice object_type property_identifier : Kind
  event_state reliability engineering_unit segmentation device_status : Kind
  error_class error_code reject_reason abort_reason : Kind

unfoldable pub enumeration : Kind → Enumeration
enumeration confirmed_service_choice = confirmed_service_choices
enumeration unconfirmed_service_choice = unconfirmed_service_choices
enumeration object_type = object_types
enumeration property_identifier = property_identifiers
enumeration event_state = event_states
enumeration reliability = reliabilities
enumeration engineering_unit = engineering_units
enumeration segmentation = segmentations
enumeration device_status = device_statuses
enumeration error_class = error_classes
enumeration error_code = error_codes
enumeration reject_reason = reject_reasons
enumeration abort_reason = abort_reasons

enumeration-has_distinct_names : (k : Kind) → has_distinct_names (enumeration k) ≡ true
unfolding enumeration has_distinct_names
enumeration-has_distinct_names confirmed_service_choice = refl
enumeration-has_distinct_names unconfirmed_service_choice = refl
enumeration-has_distinct_names object_type = refl
enumeration-has_distinct_names property_identifier = refl
enumeration-has_distinct_names event_state = refl
enumeration-has_distinct_names reliability = refl
enumeration-has_distinct_names engineering_unit = refl
enumeration-has_distinct_names segmentation = refl
enumeration-has_distinct_names device_status = refl
enumeration-has_distinct_names error_class = refl
enumeration-has_distinct_names error_code = refl
enumeration-has_distinct_names reject_reason = refl
enumeration-has_distinct_names abort_reason = refl

-- For each of the thirteen enumerations whose `String` method looks names up in a table (the
-- ConnectionState is not one of them), the method tells the values apart: two values that print alike
-- are one, those outside the table included.
pub name-enumeration :
    (k : Kind) (a b : ℕ) → name (enumeration k) a ≡ name (enumeration k) b → a ≡ b
name-enumeration k a b = name-injective (enumeration k) a b (enumeration-has_distinct_names k)

-- `ParseObjectType` reads back the name of every object type that it returns for some text: a short
-- form and the full name denote one type.
parse_object_type-name :
    (s : String) (n : ℕ)
    → parse_object_type s ≡ some n
    → parse_object_type (name (enumeration object_type) n) ≡ some n
unfolding parse_object_type enumeration has_parsed_names name
parse_object_type-name s n = parse-name object_types object_type_texts s n refl

-- `ParsePropertyIdentifier` reads back the name of every property that it returns for some text.
parse_property_identifier-name :
    (s : String) (n : ℕ)
    → parse_property_identifier s ≡ some n
    → parse_property_identifier (name (enumeration property_identifier) n) ≡ some n
unfolding parse_property_identifier enumeration has_parsed_names name
parse_property_identifier-name s n =
    parse-name property_identifiers property_identifier_texts s n refl
