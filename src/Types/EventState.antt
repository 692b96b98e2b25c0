-- ===== src/Types/EventState.antt =====
-- types.go: `EventState`: its constants that have a name, and its `String` method.
use bacnet_go.Base.{ℕ, [], ◌∷◌}
use bacnet_go.Enumeration.{Enumeration}

abbrev normal : ℕ
normal = 0

abbrev fault : ℕ
fault = 1

abbrev off_normal : ℕ
off_normal = 2

abbrev high_limit : ℕ
high_limit = 3

abbrev low_limit : ℕ
low_limit = 4

abbrev life_safety_alarm : ℕ
life_safety_alarm = 5

-- `(EventState).String`
abbrev pub event_states : Enumeration
event_states = record {
  word = "event-state";
  names =
      (normal, "normal")
      ∷ (fault, "fault")
      ∷ (off_normal, "off-normal")
      ∷ (high_limit, "high-limit")
      ∷ (low_limit, "low-limit")
      ∷ (life_safety_alarm, "life-safety-alarm")
      ∷ [];
}
