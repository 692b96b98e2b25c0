-- ===== src/Errors/ErrorCode.antt =====
-- errors.go: `ErrorCode`: its constants that have a name, and its `String` method.
use bacnet_go.Base.{ℕ, [], ◌∷◌}
use bacnet_go.Enumeration.{Enumeration}

abbrev other : ℕ
other = 0

abbrev configuration_in_progress : ℕ
configuration_in_progress = 2

abbrev device_busy : ℕ
device_busy = 3

abbrev dynamic_creation_not_supported : ℕ
dynamic_creation_not_supported = 4

abbrev no_objects_of_specified_type : ℕ
no_objects_of_specified_type = 17

abbrev object_deletion_not_permitted : ℕ
object_deletion_not_permitted = 23

abbrev object_identifier_already_exists : ℕ
object_identifier_already_exists = 24

abbrev pub unknown_object : ℕ
unknown_object = 31

abbrev character_set_not_supported : ℕ
character_set_not_supported = 41

abbrev datatype_not_supported : ℕ
datatype_not_supported = 47

abbrev inconsistent_parameters : ℕ
inconsistent_parameters = 7

abbrev invalid_array_index : ℕ
invalid_array_index = 42

abbrev invalid_data_type : ℕ
invalid_data_type = 9

abbrev not_cov_property : ℕ
not_cov_property = 44

abbrev optional_functionality_not_supported : ℕ
optional_functionality_not_supported = 45

abbrev property_is_not_a_list : ℕ
property_is_not_a_list = 22

abbrev property_is_not_an_array : ℕ
property_is_not_an_array = 50

abbrev pub read_access_denied : ℕ
read_access_denied = 27

abbrev pub unknown_property : ℕ
unknown_property = 32

abbrev value_out_of_range : ℕ
value_out_of_range = 37

abbrev pub write_access_denied : ℕ
write_access_denied = 40

abbrev no_space_for_object : ℕ
no_space_for_object = 18

abbrev no_space_to_add_list_element : ℕ
no_space_to_add_list_element = 19

abbrev no_space_to_write_property : ℕ
no_space_to_write_property = 20

abbrev authentication_failed : ℕ
authentication_failed = 1

abbrev password_failure : ℕ
password_failure = 26

abbrev security_not_supported : ℕ
security_not_supported = 28

abbrev service_request_denied : ℕ
service_request_denied = 29

abbrev pub unknown_device : ℕ
unknown_device = 70

abbrev unknown_route : ℕ
unknown_route = 71

-- `(ErrorCode).String`
abbrev pub error_codes : Enumeration
error_codes = record {
  word = "error-code";
  names =
      (other, "other")
      ∷ (configuration_in_progress, "configuration-in-progress")
      ∷ (device_busy, "device-busy")
      ∷ (dynamic_creation_not_supported, "dynamic-creation-not-supported")
      ∷ (no_objects_of_specified_type, "no-objects-of-specified-type")
      ∷ (object_deletion_not_permitted, "object-deletion-not-permitted")
      ∷ (object_identifier_already_exists, "object-identifier-already-exists")
      ∷ (unknown_object, "unknown-object")
      ∷ (character_set_not_supported, "character-set-not-supported")
      ∷ (datatype_not_supported, "datatype-not-supported")
      ∷ (inconsistent_parameters, "inconsistent-parameters")
      ∷ (invalid_array_index, "invalid-array-index")
      ∷ (invalid_data_type, "invalid-data-type")
      ∷ (not_cov_property, "not-cov-property")
      ∷ (optional_functionality_not_supported, "optional-functionality-not-supported")
      ∷ (property_is_not_a_list, "property-is-not-a-list")
      ∷ (property_is_not_an_array, "property-is-not-an-array")
      ∷ (read_access_denied, "read-access-denied")
      ∷ (unknown_property, "unknown-property")
      ∷ (value_out_of_range, "value-out-of-range")
      ∷ (write_access_denied, "write-access-denied")
      ∷ (no_space_for_object, "no-space-for-object")
      ∷ (no_space_to_add_list_element, "no-space-to-add-list-element")
      ∷ (no_space_to_write_property, "no-space-to-write-property")
      ∷ (authentication_failed, "authentication-failed")
      ∷ (password_failure, "password-failure")
      ∷ (security_not_supported, "security-not-supported")
      ∷ (service_request_denied, "service-request-denied")
      ∷ (unknown_device, "unknown-device")
      ∷ (unknown_route, "unknown-route")
      ∷ [];
}
