-- ===== src/Types/Constants.antt =====
-- types.go and errors.go: the constants of the enumerated types as tables, from the name of a
-- constant to its value.
pub mod Headers
pub mod Units
pub mod ErrorCodes
use Prim.Native.String.{String}
use text.Mathlib.Text as Text
use text.Mathlib.TextEquality.{eq_iff}
use bacnet_go.Base.{
  ℕ, ◌≡◌, ◌≢◌, refl, Bool, true, false, not, ◌&&◌, List, [], ◌∷◌, some, ◌==◌, if◌then◌else◌, arith,
}
use bacnet_go.Enumeration.{parse}
use bacnet_go.Types.Constants.Headers.{
  bvlc_function_values, npdu_control_values, network_message_type_values, pdu_type_values,
  confirmed_service_values, unconfirmed_service_values,
}
use bacnet_go.Types.Constants.Units.{reliability_values, engineering_unit_values}

-- The types whose constants are told apart.
pub data Group : Type 0 where
  bvlc_function npdu_control network_message_type pdu_type : Group
  confirmed_service unconfirmed_service reliability engineering_unit : Group

abbrev constants : Group → List (String × ℕ)
constants bvlc_function = bvlc_function_values
constants npdu_control = npdu_control_values
constants network_message_type = network_message_type_values
constants pdu_type = pdu_type_values
constants confirmed_service = confirmed_service_values
constants unconfirmed_service = unconfirmed_service_values
constants reliability = reliability_values
constants engineering_unit = engineering_unit_values

has_no_value : ℕ → List (String × ℕ) → Bool
has_no_value n [] = true
has_no_value n ((s, m) ∷ table) = not (n == m) && has_no_value n table

values_differ : List (String × ℕ) → Bool
values_differ [] = true
values_differ ((s, n) ∷ table) = has_no_value n table && values_differ table

parse-has_no_value :
    (s : String) (n : ℕ) (table : List (String × ℕ))
    → has_no_value n table ≡ true
    → parse table s ≢ some n
unfolding parse has_no_value
parse-has_no_value s n [] h e = ground arith
parse-has_no_value s n ((t, m) ∷ table) h e = ground (arith, parse-has_no_value s n table)

parse-values_differ :
    (s t : String) (n : ℕ) (table : List (String × ℕ))
    → values_differ table ≡ true
    → parse table s ≡ some n
    → parse table t ≡ some n
    → s ≡ t
unfolding parse values_differ
parse-values_differ s t n [] h e e' = ground arith
parse-values_differ s t n ((u, m) ∷ table) h e e' = ground (
  arith,
  eq_iff s u,
  eq_iff t u,
  parse-has_no_value s n table,
  parse-has_no_value t n table,
  parse-values_differ s t n table,
)

constants-values_differ : (g : Group) → values_differ (constants g) ≡ true
unfolding values_differ has_no_value
constants-values_differ bvlc_function = refl
constants-values_differ npdu_control = refl
constants-values_differ network_message_type = refl
constants-values_differ pdu_type = refl
constants-values_differ confirmed_service = refl
constants-values_differ unconfirmed_service = refl
constants-values_differ reliability = refl
constants-values_differ engineering_unit = refl

-- Of the functions, control flags, message types, PDU types, services, reliability_values and units, two
-- constants of one type with the same value are one constant.
constants_lem :
    (g : Group) (s t : String) (n : ℕ)
    → parse (constants g) s ≡ some n
    → parse (constants g) t ≡ some n
    → s ≡ t
constants_lem g s t n = parse-values_differ s t n (constants g) (constants-values_differ g)
