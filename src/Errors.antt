-- ===== src/Errors.antt =====
-- errors.go: the errors that the library returns, and the tests that callers make of them.
-- An error is a value here: the sentinels, the three error types of the protocol, and what
-- `fmt.Errorf` builds, with `%w` (`wrapped`) or without (`plain`).
pub mod ErrorClass
pub mod ErrorCode
pub mod RejectReason
pub mod AbortReason
use bacnet_go.Base.{ℕ, Bool, true, false, ◌&&◌, ◌||◌, Option, none, some, ◌==◌, if◌then◌else◌}
use bacnet_go.Errors.ErrorCode.{
  unknown_object, unknown_property, read_access_denied, write_access_denied, unknown_device,
}

pub data Sentinel : Type 0 where
  timeout connection_closed invalid_response invalid_apdu : Sentinel
  invalid_npdu invalid_bvlc segmentation_not_supported device_not_found : Sentinel
  property_not_found write_failed not_connected already_connected : Sentinel

-- Each sentinel is a value of `errors.New` of its own, so two are equal when they are the same.
abbrev sentinel_number : Sentinel → ℕ
sentinel_number timeout = 0
sentinel_number connection_closed = 1
sentinel_number invalid_response = 2
sentinel_number invalid_apdu = 3
sentinel_number invalid_npdu = 4
sentinel_number invalid_bvlc = 5
sentinel_number segmentation_not_supported = 6
sentinel_number device_not_found = 7
sentinel_number property_not_found = 8
sentinel_number write_failed = 9
sentinel_number not_connected = 10
sentinel_number already_connected = 11

abbrev same_sentinel : Sentinel → Sentinel → Bool
same_sentinel a b = sentinel_number a == sentinel_number b

-- The format strings of `fmt.Errorf`, with the number that some of them print.
pub data Message : Type 0 where
  unsupported_version unknown_pdu_type unexpected_pdu_type : ℕ → Message
  send_request send_unconfirmed_request open_transport close_transport : Message
  resolve_bbmd_address send_registration encode_value : Message
  resolve_local_address listen_udp transport_not_open : Message
  set_write_deadline set_read_deadline write_udp : Message
  partial_write : ℕ → ℕ → Message
  invalid_device_address unsupported_value_type unexpected_object_list_length : Message

pub data Error : Type 0 where
  sentinel : Sentinel → Error
  -- `BACnetError{Class, Code}`
  bacnet_error : ℕ → ℕ → Error
  -- `RejectError{InvokeID, Reason}`
  reject_error : ℕ → ℕ → Error
  -- `AbortError{InvokeID, Server, Reason}`
  abort_error : ℕ → Bool → ℕ → Error
  wrapped : Message → Error → Error
  plain : Message → Error
  -- An error of the operating system or the `net` package.
  external : ℕ → Error

-- `NewBACnetError(ErrorClass(class), ErrorCode(code))`; the callers make the casts to 8 bits.
unfoldable pub new_bacnet_error : ℕ → ℕ → Error
new_bacnet_error class code = bacnet_error class code

-- `(*BACnetError).Is` at a target that is a `BACnetError` too.
pub bacnet_error_is : ℕ × ℕ → ℕ × ℕ → Bool
bacnet_error_is (class, code) (class', code') = class == class' && code == code'

-- `errors.Is(err, target)` for a sentinel: down the chain of what `%w` wraps.
unfoldable pub errors_is : Error → Sentinel → Bool
errors_is (sentinel s) target = same_sentinel s target
errors_is (wrapped m e) target = errors_is e target
errors_is (bacnet_error class code) target = false
errors_is (reject_error id reason) target = false
errors_is (abort_error id server reason) target = false
errors_is (plain m) target = false
errors_is (external n) target = false

-- `errors.As(err, &bacnetErr)`: the class and the code of the first `BACnetError` in the chain.
unfoldable pub errors_as_bacnet : Error → Option (ℕ × ℕ)
errors_as_bacnet (bacnet_error class code) = some (class, code)
errors_as_bacnet (wrapped m e) = errors_as_bacnet e
errors_as_bacnet (sentinel s) = none
errors_as_bacnet (reject_error id reason) = none
errors_as_bacnet (abort_error id server reason) = none
errors_as_bacnet (plain m) = none
errors_as_bacnet (external n) = none

unfoldable pub is_timeout : Error → Bool
is_timeout e = errors_is e timeout

unfoldable pub is_device_not_found : Error → Bool
is_device_not_found e = if errors_is e device_not_found then true else elim (errors_as_bacnet e) [
  | none ↦ false
  | some (class, code) ↦ code == unknown_device || code == unknown_object
]

unfoldable pub is_property_not_found : Error → Bool
is_property_not_found e =
    if errors_is e property_not_found
    then true
    else elim (errors_as_bacnet e) [ none ↦ false | some (class, code) ↦ code == unknown_property ]

unfoldable pub is_access_denied : Error → Bool
is_access_denied e = elim (errors_as_bacnet e) [
  | none ↦ false
  | some (class, code) ↦ code == read_access_denied || code == write_access_denied
]
