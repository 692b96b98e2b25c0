-- ===== src/Types/UnconfirmedServiceChoice.antt =====
-- types.go: `UnconfirmedServiceChoice`: its constants that have a name, and its `String` method.
use bacnet_go.Base.{ℕ, [], ◌∷◌}
use bacnet_go.Enumeration.{Enumeration}

abbrev i_am : ℕ
i_am = 0

abbrev i_have : ℕ
i_have = 1

abbrev unconfirmed_cov_notification : ℕ
unconfirmed_cov_notification = 2

abbrev unconfirmed_event_notification : ℕ
unconfirmed_event_notification = 3

abbrev unconfirmed_private_transfer : ℕ
unconfirmed_private_transfer = 4

abbrev unconfirmed_text_message : ℕ
unconfirmed_text_message = 5

abbrev time_synchronization : ℕ
time_synchronization = 6

abbrev who_has : ℕ
who_has = 7

abbrev pub who_is : ℕ
who_is = 8

abbrev utc_time_synchronization : ℕ
utc_time_synchronization = 9

abbrev write_group : ℕ
write_group = 10

-- `(UnconfirmedServiceChoice).String`
abbrev pub unconfirmed_service_choices : Enumeration
unconfirmed_service_choices = record {
  word = "Unknown";
  names =
      (i_am, "I-Am")
      ∷ (i_have, "I-Have")
      ∷ (unconfirmed_cov_notification, "UnconfirmedCOVNotification")
      ∷ (unconfirmed_event_notification, "UnconfirmedEventNotification")
      ∷ (unconfirmed_private_transfer, "UnconfirmedPrivateTransfer")
      ∷ (unconfirmed_text_message, "UnconfirmedTextMessage")
      ∷ (time_synchronization, "TimeSynchronization")
      ∷ (who_has, "Who-Has")
      ∷ (who_is, "Who-Is")
      ∷ (utc_time_synchronization, "UTCTimeSynchronization")
      ∷ (write_group, "WriteGroup")
      ∷ [];
}
