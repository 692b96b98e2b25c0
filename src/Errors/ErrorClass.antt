-- ===== src/Errors/ErrorClass.antt =====
-- errors.go: `ErrorClass`: its constants that have a name, and its `String` method.
use bacnet_go.Base.{ℕ, [], ◌∷◌}
use bacnet_go.Enumeration.{Enumeration}

abbrev device : ℕ
device = 0

abbrev object : ℕ
object = 1

abbrev property : ℕ
property = 2

abbrev resources : ℕ
resources = 3

abbrev security : ℕ
security = 4

abbrev services : ℕ
services = 5

abbrev vt : ℕ
vt = 6

abbrev communication : ℕ
communication = 7

-- `(ErrorClass).String`
abbrev pub error_classes : Enumeration
error_classes = record {
  word = "error-class";
  names =
      (device, "device")
      ∷ (object, "object")
      ∷ (property, "property")
      ∷ (resources, "resources")
      ∷ (security, "security")
      ∷ (services, "services")
      ∷ (vt, "vt")
      ∷ (communication, "communication")
      ∷ [];
}
