-- ===== src/Types/Constants/ErrorCodes.antt =====
-- errors.go: the constants of `ErrorCode`, by their names.
use Prim.Native.String.{String}
use bacnet_go.Base.{ℕ, List, [], ◌∷◌}

abbrev pub error_code_values : List (String × ℕ)
error_code_values =
    ("ErrorCodeOther", 0)
    ∷ ("ErrorCodeConfigurationInProgress", 2)
    ∷ ("ErrorCodeDeviceBusy", 3)
    ∷ ("ErrorCodeDynamicCreationNotSupported", 4)
    ∷ ("ErrorCodeNoObjectsOfSpecifiedType", 17)
    ∷ ("ErrorCodeObjectDeletionNotPermitted", 23)
    ∷ ("ErrorCodeObjectIdentifierAlreadyExists", 24)
    ∷ ("ErrorCodeUnknownObject", 31)
    ∷ ("ErrorCodeCharacterSetNotSupported", 41)
    ∷ ("ErrorCodeDatatypeNotSupported", 47)
    ∷ ("ErrorCodeInconsistentParameters", 7)
    ∷ ("ErrorCodeInvalidArrayIndex", 42)
    ∷ ("ErrorCodeInvalidDataType", 9)
    ∷ ("ErrorCodeNotCovProperty", 44)
    ∷ ("ErrorCodeOptionalFunctionalityNotSupported", 45)
    ∷ ("ErrorCodePropertyIsNotAList", 22)
    ∷ ("ErrorCodePropertyIsNotAnArray", 50)
    ∷ ("ErrorCodeReadAccessDenied", 27)
    ∷ ("ErrorCodeUnknownProperty", 32)
    ∷ ("ErrorCodeValueOutOfRange", 37)
    ∷ ("ErrorCodeWriteAccessDenied", 40)
    ∷ ("ErrorCodeNoSpaceForObject", 18)
    ∷ ("ErrorCodeNoSpaceToAddListElement", 19)
    ∷ ("ErrorCodeNoSpaceToWriteProperty", 20)
    ∷ ("ErrorCodeAuthenticationFailed", 1)
    ∷ ("ErrorCodeIncompatibleSecurityLevels", 6)
    ∷ ("ErrorCodeInvalidOperatorName", 12)
    ∷ ("ErrorCodeKeyGenerationError", 15)
    ∷ ("ErrorCodePasswordFailure", 26)
    ∷ ("ErrorCodeSecurityNotSupported", 28)
    ∷ ("ErrorCodeCovSubscriptionFailed", 43)
    ∷ ("ErrorCodeDuplicateName", 48)
    ∷ ("ErrorCodeDuplicateObjectId", 49)
    ∷ ("ErrorCodeFileAccessDenied", 5)
    ∷ ("ErrorCodeInconsistentSelectionCriterion", 8)
    ∷ ("ErrorCodeInvalidConfigurationData", 46)
    ∷ ("ErrorCodeInvalidFileAccessMethod", 10)
    ∷ ("ErrorCodeInvalidFileStartPosition", 11)
    ∷ ("ErrorCodeInvalidParameterDataType", 13)
    ∷ ("ErrorCodeInvalidTimeStamp", 14)
    ∷ ("ErrorCodeMissingRequiredParameter", 16)
    ∷ ("ErrorCodeNoAlarmsOfSpecifiedType", 51)
    ∷ ("ErrorCodeNotConfiguredForTriggeredLogging", 21)
    ∷ ("ErrorCodeServiceRequestDenied", 29)
    ∷ ("ErrorCodeUnknownSubscription", 33)
    ∷ ("ErrorCodeUnknownVtClass", 34)
    ∷ ("ErrorCodeUnknownVtSession", 35)
    ∷ ("ErrorCodeAbortBufferOverflow", 51)
    ∷ ("ErrorCodeAbortInvalidApduInThisState", 52)
    ∷ ("ErrorCodeAbortPreemptedByHigherPriorityTask", 53)
    ∷ ("ErrorCodeAbortSegmentationNotSupported", 54)
    ∷ ("ErrorCodeAbortProprietary", 55)
    ∷ ("ErrorCodeAbortOther", 56)
    ∷ ("ErrorCodeInvalidTag", 57)
    ∷ ("ErrorCodeNetworkDown", 58)
    ∷ ("ErrorCodeRejectBufferOverflow", 59)
    ∷ ("ErrorCodeRejectInconsistentParameters", 60)
    ∷ ("ErrorCodeRejectInvalidParameterDataType", 61)
    ∷ ("ErrorCodeRejectInvalidTag", 62)
    ∷ ("ErrorCodeRejectMissingRequiredParameter", 63)
    ∷ ("ErrorCodeRejectParameterOutOfRange", 64)
    ∷ ("ErrorCodeRejectTooManyArguments", 65)
    ∷ ("ErrorCodeRejectUndefinedEnumeration", 66)
    ∷ ("ErrorCodeRejectUnrecognizedService", 67)
    ∷ ("ErrorCodeRejectProprietary", 68)
    ∷ ("ErrorCodeRejectOther", 69)
    ∷ ("ErrorCodeUnknownDevice", 70)
    ∷ ("ErrorCodeUnknownRoute", 71)
    ∷ ("ErrorCodeValueTooLong", 72)
    ∷ ("ErrorCodeAbortApduTooLong", 73)
    ∷ ("ErrorCodeAbortApplicationExceededReplyTime", 74)
    ∷ ("ErrorCodeAbortOutOfResources", 75)
    ∷ ("ErrorCodeAbortTsmTimeout", 76)
    ∷ ("ErrorCodeAbortWindowSizeOutOfRange", 77)
    ∷ ("ErrorCodeListItemNotNumbered", 123)
    ∷ []
