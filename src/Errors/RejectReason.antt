-- ===== src/Errors/RejectReason.antt =====
-- errors.go: `RejectReason`: its constants that have a name, and its `String` method.
use bacnet_go.Base.{ℕ, [], ◌∷◌}
use bacnet_go.Enumeration.{Enumeration}

abbrev other : ℕ
other = 0

abbrev buffer_overflow : ℕ
buffer_overflow = 1

abbrev inconsistent_parameters : ℕ
inconsistent_parameters = 2

abbrev invalid_parameter_data_type : ℕ
invalid_parameter_data_type = 3

abbrev invalid_tag : ℕ
invalid_tag = 4

abbrev missing_required_parameter : ℕ
missing_required_parameter = 5

abbrev parameter_out_of_range : ℕ
parameter_out_of_range = 6

abbrev too_many_arguments : ℕ
too_many_arguments = 7

abbrev undefined_enumeration : ℕ
undefined_enumeration = 8

abbrev unrecognized_service : ℕ
unrecognized_service = 9

-- `(RejectReason).String`
abbrev pub reject_reasons : Enumeration
reject_reasons = record {
  word = "reject-reason";
  names =
      (other, "other")
      ∷ (buffer_overflow, "buffer-overflow")
      ∷ (inconsistent_parameters, "inconsistent-parameters")
      ∷ (invalid_parameter_data_type, "invalid-parameter-data-type")
      ∷ (invalid_tag, "invalid-tag")
      ∷ (missing_required_parameter, "missing-required-parameter")
      ∷ (parameter_out_of_range, "parameter-out-of-range")
      ∷ (too_many_arguments, "too-many-arguments")
      ∷ (undefined_enumeration, "undefined-enumeration")
      ∷ (unrecognized_service, "unrecognized-service")
      ∷ [];
}
