-- ===== src/Types/ObjectType/Names.antt =====
-- types.go: `(ObjectType).String` and `ParseObjectType`.
use Prim.Native.String.{String}
use bacnet_go.Base.{ℕ, List, [], ◌∷◌, Option}
use bacnet_go.Enumeration.{Enumeration, parse}
use bacnet_go.Types.ObjectType.{
  analog_input, analog_output, analog_value, binary_input, binary_output, binary_value, calendar,
  command, device, event_enrollment, file, group, loop, multi_state_input, multi_state_output,
  notification_class, program, schedule, averaging, multi_state_value, trend_log, life_safety_point,
  life_safety_zone, accumulator, pulse_converter, event_log, global_group, trend_log_multiple,
  load_control, structured_view, access_door, timer, access_credential, access_point, access_rights,
  access_user, access_zone, credential_data_input, network_security, bit_string_value,
  character_string_value, date_pattern_value, date_value, date_time_pattern_value, date_time_value,
  integer_value, large_analog_value, octet_string_value, positive_integer_value, time_pattern_value,
  time_value, notification_forwarder, alert_enrollment, channel, lighting_output,
  binary_lighting_output, network_port, elevator_group, escalator, lift,
}

-- `(ObjectType).String`
abbrev pub object_types : Enumeration
object_types = record {
  word = "vendor-specific";
  names =
      (analog_input, "analog-input")
      ∷ (analog_output, "analog-output")
      ∷ (analog_value, "analog-value")
      ∷ (binary_input, "binary-input")
      ∷ (binary_output, "binary-output")
      ∷ (binary_value, "binary-value")
      ∷ (calendar, "calendar")
      ∷ (command, "command")
      ∷ (device, "device")
      ∷ (event_enrollment, "event-enrollment")
      ∷ (file, "file")
      ∷ (group, "group")
      ∷ (loop, "loop")
      ∷ (multi_state_input, "multi-state-input")
      ∷ (multi_state_output, "multi-state-output")
      ∷ (notification_class, "notification-class")
      ∷ (program, "program")
      ∷ (schedule, "schedule")
      ∷ (averaging, "averaging")
      ∷ (multi_state_value, "multi-state-value")
      ∷ (trend_log, "trend-log")
      ∷ (life_safety_point, "life-safety-point")
      ∷ (life_safety_zone, "life-safety-zone")
      ∷ (accumulator, "accumulator")
      ∷ (pulse_converter, "pulse-converter")
      ∷ (event_log, "event-log")
      ∷ (global_group, "global-group")
      ∷ (trend_log_multiple, "trend-log-multiple")
      ∷ (load_control, "load-control")
      ∷ (structured_view, "structured-view")
      ∷ (access_door, "access-door")
      ∷ (timer, "timer")
      ∷ (access_credential, "access-credential")
      ∷ (access_point, "access-point")
      ∷ (access_rights, "access-rights")
      ∷ (access_user, "access-user")
      ∷ (access_zone, "access-zone")
      ∷ (credential_data_input, "credential-data-input")
      ∷ (network_security, "network-security")
      ∷ (bit_string_value, "bitstring-value")
      ∷ (character_string_value, "characterstring-value")
      ∷ (date_pattern_value, "date-pattern-value")
      ∷ (date_value, "date-value")
      ∷ (date_time_pattern_value, "datetime-pattern-value")
      ∷ (date_time_value, "datetime-value")
      ∷ (integer_value, "integer-value")
      ∷ (large_analog_value, "large-analog-value")
      ∷ (octet_string_value, "octetstring-value")
      ∷ (positive_integer_value, "positive-integer-value")
      ∷ (time_pattern_value, "time-pattern-value")
      ∷ (time_value, "time-value")
      ∷ (notification_forwarder, "notification-forwarder")
      ∷ (alert_enrollment, "alert-enrollment")
      ∷ (channel, "channel")
      ∷ (lighting_output, "lighting-output")
      ∷ (binary_lighting_output, "binary-lighting-output")
      ∷ (network_port, "network-port")
      ∷ (elevator_group, "elevator-group")
      ∷ (escalator, "escalator")
      ∷ (lift, "lift")
      ∷ [];
}

abbrev pub object_type_texts : List (String × ℕ)
object_type_texts =
    ("analog-input", analog_input)
    ∷ ("ai", analog_input)
    ∷ ("analog-output", analog_output)
    ∷ ("ao", analog_output)
    ∷ ("analog-value", analog_value)
    ∷ ("av", analog_value)
    ∷ ("binary-input", binary_input)
    ∷ ("bi", binary_input)
    ∷ ("binary-output", binary_output)
    ∷ ("bo", binary_output)
    ∷ ("binary-value", binary_value)
    ∷ ("bv", binary_value)
    ∷ ("device", device)
    ∷ ("dev", device)
    ∷ ("multi-state-input", multi_state_input)
    ∷ ("msi", multi_state_input)
    ∷ ("multi-state-output", multi_state_output)
    ∷ ("mso", multi_state_output)
    ∷ ("multi-state-value", multi_state_value)
    ∷ ("msv", multi_state_value)
    ∷ ("schedule", schedule)
    ∷ ("sch", schedule)
    ∷ ("trend-log", trend_log)
    ∷ ("tl", trend_log)
    ∷ ("calendar", calendar)
    ∷ ("cal", calendar)
    ∷ ("notification-class", notification_class)
    ∷ ("nc", notification_class)
    ∷ ("file", file)
    ∷ ("loop", loop)
    ∷ ("program", program)
    ∷ ("prg", program)
    ∷ []

unfoldable pub parse_object_type : String → Option ℕ
unfolding parse
parse_object_type = parse object_type_texts
