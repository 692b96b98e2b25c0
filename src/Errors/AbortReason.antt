-- ===== src/Errors/AbortReason.antt =====
-- errors.go: `AbortReason`: its constants that have a name, and its `String` method.
use bacnet_go.Base.{ℕ, [], ◌∷◌}
use bacnet_go.Enumeration.{Enumeration}

abbrev other : ℕ
other = 0

abbrev buffer_overflow : ℕ
buffer_overflow = 1

abbrev invalid_apdu_in_this_state : ℕ
invalid_apdu_in_this_state = 2

abbrev preempted_by_higher_priority_task : ℕ
preempted_by_higher_priority_task = 3

abbrev segmentation_not_supported : ℕ
segmentation_not_supported = 4

abbrev security_error : ℕ
security_error = 5

abbrev insufficient_security : ℕ
insufficient_security = 6

abbrev window_size_out_of_range : ℕ
window_size_out_of_range = 7

abbrev application_exceeded_reply_time : ℕ
application_exceeded_reply_time = 8

abbrev out_of_resources : ℕ
out_of_resources = 9

abbrev tsm_timeout : ℕ
tsm_timeout = 10

abbrev apdu_too_long : ℕ
apdu_too_long = 11

-- `(AbortReason).String`
abbrev pub abort_reasons : Enumeration
abort_reasons = record {
  word = "abort-reason";
  names =
      (other, "other")
      ∷ (buffer_overflow, "buffer-overflow")
      ∷ (invalid_apdu_in_this_state, "invalid-apdu-in-this-state")
      ∷ (preempted_by_higher_priority_task, "preempted-by-higher-priority-task")
      ∷ (segmentation_not_supported, "segmentation-not-supported")
      ∷ (security_error, "security-error")
      ∷ (insufficient_security, "insufficient-security")
      ∷ (window_size_out_of_range, "window-size-out-of-range")
      ∷ (application_exceeded_reply_time, "application-exceeded-reply-time")
      ∷ (out_of_resources, "out-of-resources")
      ∷ (tsm_timeout, "tsm-timeout")
      ∷ (apdu_too_long, "apdu-too-long")
      ∷ [];
}
