-- ===== src/Types/PropertyIdentifier.antt =====
-- types.go: `PropertyIdentifier`: its constants that have a name, and its `String` method and parser.
use Prim.Native.String.{String}
use bacnet_go.Base.{ℕ, [], ◌∷◌, List, Option}
use bacnet_go.Enumeration.{Enumeration, parse}

abbrev all : ℕ
all = 8

abbrev application_software_version : ℕ
application_software_version = 12

abbrev cov_increment : ℕ
cov_increment = 22

abbrev deadband : ℕ
deadband = 25

abbrev description : ℕ
description = 28

abbrev device_type : ℕ
device_type = 31

abbrev event_state : ℕ
event_state = 36

abbrev firmware_revision : ℕ
firmware_revision = 44

abbrev high_limit : ℕ
high_limit = 45

abbrev low_limit : ℕ
low_limit = 59

abbrev max_apdu_length_accepted : ℕ
max_apdu_length_accepted = 62

abbrev model_name : ℕ
model_name = 70

abbrev object_identifier : ℕ
object_identifier = 75

abbrev object_list : ℕ
object_list = 76

abbrev object_name : ℕ
object_name = 77

abbrev object_type : ℕ
object_type = 79

abbrev optional : ℕ
optional = 80

abbrev out_of_service : ℕ
out_of_service = 81

abbrev present_value : ℕ
present_value = 85

abbrev priority_array : ℕ
priority_array = 87

abbrev protocol_version : ℕ
protocol_version = 98

abbrev reliability : ℕ
reliability = 103

abbrev relinquish_default : ℕ
relinquish_default = 104

abbrev required : ℕ
required = 105

abbrev segmentation_supported : ℕ
segmentation_supported = 107

abbrev status_flags : ℕ
status_flags = 111

abbrev system_status : ℕ
system_status = 112

abbrev units : ℕ
units = 117

abbrev vendor_identifier : ℕ
vendor_identifier = 120

abbrev vendor_name : ℕ
vendor_name = 121

abbrev protocol_revision : ℕ
protocol_revision = 139

abbrev database_revision : ℕ
database_revision = 155

-- `(PropertyIdentifier).String`
abbrev pub property_identifiers : Enumeration
property_identifiers = record {
  word = "property";
  names =
      (object_identifier, "object-identifier")
      ∷ (object_name, "object-name")
      ∷ (object_type, "object-type")
      ∷ (present_value, "present-value")
      ∷ (description, "description")
      ∷ (device_type, "device-type")
      ∷ (status_flags, "status-flags")
      ∷ (event_state, "event-state")
      ∷ (reliability, "reliability")
      ∷ (out_of_service, "out-of-service")
      ∷ (units, "units")
      ∷ (priority_array, "priority-array")
      ∷ (relinquish_default, "relinquish-default")
      ∷ (cov_increment, "cov-increment")
      ∷ (high_limit, "high-limit")
      ∷ (low_limit, "low-limit")
      ∷ (deadband, "deadband")
      ∷ (vendor_name, "vendor-name")
      ∷ (vendor_identifier, "vendor-identifier")
      ∷ (model_name, "model-name")
      ∷ (firmware_revision, "firmware-revision")
      ∷ (application_software_version, "application-software-version")
      ∷ (protocol_version, "protocol-version")
      ∷ (protocol_revision, "protocol-revision")
      ∷ (system_status, "system-status")
      ∷ (max_apdu_length_accepted, "max-apdu-length-accepted")
      ∷ (segmentation_supported, "segmentation-supported")
      ∷ (object_list, "object-list")
      ∷ (database_revision, "database-revision")
      ∷ (all, "all")
      ∷ (required, "required")
      ∷ (optional, "optional")
      ∷ [];
}

abbrev pub property_identifier_texts : List (String × ℕ)
property_identifier_texts =
    ("object-identifier", object_identifier)
    ∷ ("oid", object_identifier)
    ∷ ("object-name", object_name)
    ∷ ("name", object_name)
    ∷ ("object-type", object_type)
    ∷ ("type", object_type)
    ∷ ("present-value", present_value)
    ∷ ("pv", present_value)
    ∷ ("description", description)
    ∷ ("desc", description)
    ∷ ("status-flags", status_flags)
    ∷ ("sf", status_flags)
    ∷ ("event-state", event_state)
    ∷ ("reliability", reliability)
    ∷ ("out-of-service", out_of_service)
    ∷ ("oos", out_of_service)
    ∷ ("units", units)
    ∷ ("priority-array", priority_array)
    ∷ ("pa", priority_array)
    ∷ ("relinquish-default", relinquish_default)
    ∷ ("rd", relinquish_default)
    ∷ ("cov-increment", cov_increment)
    ∷ ("vendor-name", vendor_name)
    ∷ ("vendor-identifier", vendor_identifier)
    ∷ ("model-name", model_name)
    ∷ ("firmware-revision", firmware_revision)
    ∷ ("application-software-version", application_software_version)
    ∷ ("protocol-version", protocol_version)
    ∷ ("protocol-revision", protocol_revision)
    ∷ ("system-status", system_status)
    ∷ ("object-list", object_list)
    ∷ ("database-revision", database_revision)
    ∷ ("all", all)
    ∷ []

unfoldable pub parse_property_identifier : String → Option ℕ
unfolding parse
parse_property_identifier = parse property_identifier_texts
