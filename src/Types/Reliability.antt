-- ===== src/Types/Reliability.antt =====
-- types.go: `Reliability`: its constants that have a name, and its `String` method.
use bacnet_go.Base.{ℕ, [], ◌∷◌}
use bacnet_go.Enumeration.{Enumeration}

abbrev no_fault_detected : ℕ
no_fault_detected = 0

abbrev no_sensor : ℕ
no_sensor = 1

abbrev over_range : ℕ
over_range = 2

abbrev under_range : ℕ
under_range = 3

abbrev open_loop : ℕ
open_loop = 4

abbrev shorted_loop : ℕ
shorted_loop = 5

abbrev no_output : ℕ
no_output = 6

abbrev unreliable_other : ℕ
unreliable_other = 7

abbrev process_error : ℕ
process_error = 8

abbrev multi_state_fault : ℕ
multi_state_fault = 9

abbrev configuration_error : ℕ
configuration_error = 10

abbrev communication_failure : ℕ
communication_failure = 12

-- `(Reliability).String`
abbrev pub reliabilities : Enumeration
reliabilities = record {
  word = "reliability";
  names =
      (no_fault_detected, "no-fault-detected")
      ∷ (no_sensor, "no-sensor")
      ∷ (over_range, "over-range")
      ∷ (under_range, "under-range")
      ∷ (open_loop, "open-loop")
      ∷ (shorted_loop, "shorted-loop")
      ∷ (no_output, "no-output")
      ∷ (unreliable_other, "unreliable-other")
      ∷ (process_error, "process-error")
      ∷ (multi_state_fault, "multi-state-fault")
      ∷ (configuration_error, "configuration-error")
      ∷ (communication_failure, "communication-failure")
      ∷ [];
}
