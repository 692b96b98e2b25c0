-- ===== src/Types/ConfirmedServiceChoice.antt =====
-- types.go: `ConfirmedServiceChoice`: its constants that have a name, and its `String` method.
use bacnet_go.Base.{ℕ, [], ◌∷◌}
use bacnet_go.Enumeration.{Enumeration}

abbrev acknowledge_alarm : ℕ
acknowledge_alarm = 0

abbrev confirmed_cov_notification : ℕ
confirmed_cov_notification = 1

abbrev confirmed_event_notification : ℕ
confirmed_event_notification = 2

abbrev get_alarm_summary : ℕ
get_alarm_summary = 3

abbrev get_enrollment_summary : ℕ
get_enrollment_summary = 4

abbrev pub subscribe_cov : ℕ
subscribe_cov = 5

abbrev atomic_read_file : ℕ
atomic_read_file = 6

abbrev atomic_write_file : ℕ
atomic_write_file = 7

abbrev add_list_element : ℕ
add_list_element = 8

abbrev remove_list_element : ℕ
remove_list_element = 9

abbrev create_object : ℕ
create_object = 10

abbrev delete_object : ℕ
delete_object = 11

abbrev pub read_property : ℕ
read_property = 12

abbrev read_property_conditional : ℕ
read_property_conditional = 13

abbrev pub read_property_multiple : ℕ
read_property_multiple = 14

abbrev pub write_property : ℕ
write_property = 15

abbrev write_property_multiple : ℕ
write_property_multiple = 16

abbrev device_communication_control : ℕ
device_communication_control = 17

abbrev confirmed_private_transfer : ℕ
confirmed_private_transfer = 18

abbrev confirmed_text_message : ℕ
confirmed_text_message = 19

abbrev reinitialize_device : ℕ
reinitialize_device = 20

abbrev vt_open : ℕ
vt_open = 21

abbrev vt_close : ℕ
vt_close = 22

abbrev vt_data : ℕ
vt_data = 23

abbrev authenticate : ℕ
authenticate = 24

abbrev request_key : ℕ
request_key = 25

abbrev read_range : ℕ
read_range = 26

abbrev life_safety_operation : ℕ
life_safety_operation = 27

abbrev subscribe_cov_property : ℕ
subscribe_cov_property = 28

abbrev get_event_information : ℕ
get_event_information = 29

-- `(ConfirmedServiceChoice).String`
abbrev pub confirmed_service_choices : Enumeration
confirmed_service_choices = record {
  word = "Unknown";
  names =
      (acknowledge_alarm, "AcknowledgeAlarm")
      ∷ (confirmed_cov_notification, "ConfirmedCOVNotification")
      ∷ (confirmed_event_notification, "ConfirmedEventNotification")
      ∷ (get_alarm_summary, "GetAlarmSummary")
      ∷ (get_enrollment_summary, "GetEnrollmentSummary")
      ∷ (subscribe_cov, "SubscribeCOV")
      ∷ (atomic_read_file, "AtomicReadFile")
      ∷ (atomic_write_file, "AtomicWriteFile")
      ∷ (add_list_element, "AddListElement")
      ∷ (remove_list_element, "RemoveListElement")
      ∷ (create_object, "CreateObject")
      ∷ (delete_object, "DeleteObject")
      ∷ (read_property, "ReadProperty")
      ∷ (read_property_conditional, "ReadPropertyConditional")
      ∷ (read_property_multiple, "ReadPropertyMultiple")
      ∷ (write_property, "WriteProperty")
      ∷ (write_property_multiple, "WritePropertyMultiple")
      ∷ (device_communication_control, "DeviceCommunicationControl")
      ∷ (confirmed_private_transfer, "ConfirmedPrivateTransfer")
      ∷ (confirmed_text_message, "ConfirmedTextMessage")
      ∷ (reinitialize_device, "ReinitializeDevice")
      ∷ (vt_open, "VTOpen")
      ∷ (vt_close, "VTClose")
      ∷ (vt_data, "VTData")
      ∷ (authenticate, "Authenticate")
      ∷ (request_key, "RequestKey")
      ∷ (read_range, "ReadRange")
      ∷ (life_safety_operation, "LifeSafetyOperation")
      ∷ (subscribe_cov_property, "SubscribeCOVProperty")
      ∷ (get_event_information, "GetEventInformation")
      ∷ [];
}
