-- ===== src/Types/Constants/Headers.antt =====
-- types.go: the constants of the link, network and application headers, by their names.
use Prim.Native.String.{String}
use bacnet_go.Base.{ℕ, List, [], ◌∷◌}

abbrev pub bvlc_function_values : List (String × ℕ)
bvlc_function_values =
    ("BVLCResult", 0x00)
    ∷ ("BVLCWriteBroadcastDistributionTable", 0x01)
    ∷ ("BVLCReadBroadcastDistributionTable", 0x02)
    ∷ ("BVLCReadBroadcastDistributionTableAck", 0x03)
    ∷ ("BVLCForwardedNPDU", 0x04)
    ∷ ("BVLCRegisterForeignDevice", 0x05)
    ∷ ("BVLCReadForeignDeviceTable", 0x06)
    ∷ ("BVLCReadForeignDeviceTableAck", 0x07)
    ∷ ("BVLCDeleteForeignDeviceTableEntry", 0x08)
    ∷ ("BVLCDistributeBroadcastToNetwork", 0x09)
    ∷ ("BVLCOriginalUnicastNPDU", 0x0A)
    ∷ ("BVLCOriginalBroadcastNPDU", 0x0B)
    ∷ ("BVLCSecureBVLL", 0x0C)
    ∷ []

abbrev pub npdu_control_values : List (String × ℕ)
npdu_control_values =
    ("NPDUControlNetworkLayerMessage", 0x80)
    ∷ ("NPDUControlDestSpecifier", 0x20)
    ∷ ("NPDUControlSourceSpecifier", 0x08)
    ∷ ("NPDUControlExpectingReply", 0x04)
    ∷ ("NPDUControlPriorityNormal", 0x00)
    ∷ ("NPDUControlPriorityUrgent", 0x01)
    ∷ ("NPDUControlPriorityCritical", 0x02)
    ∷ ("NPDUControlPriorityLifeSafety", 0x03)
    ∷ []

abbrev pub network_message_type_values : List (String × ℕ)
network_message_type_values =
    ("NetworkMessageWhoIsRouterToNetwork", 0x00)
    ∷ ("NetworkMessageIAmRouterToNetwork", 0x01)
    ∷ ("NetworkMessageICouldBeRouterToNetwork", 0x02)
    ∷ ("NetworkMessageRejectMessageToNetwork", 0x03)
    ∷ ("NetworkMessageRouterBusyToNetwork", 0x04)
    ∷ ("NetworkMessageRouterAvailableToNetwork", 0x05)
    ∷ ("NetworkMessageInitializeRoutingTable", 0x06)
    ∷ ("NetworkMessageInitializeRoutingTableAck", 0x07)
    ∷ ("NetworkMessageEstablishConnectionToNetwork", 0x08)
    ∷ ("NetworkMessageDisconnectConnectionToNetwork", 0x09)
    ∷ ("NetworkMessageWhatIsNetworkNumber", 0x12)
    ∷ ("NetworkMessageNetworkNumberIs", 0x13)
    ∷ []

abbrev pub pdu_type_values : List (String × ℕ)
pdu_type_values =
    ("PDUTypeConfirmedRequest", 0x00)
    ∷ ("PDUTypeUnconfirmedRequest", 0x10)
    ∷ ("PDUTypeSimpleAck", 0x20)
    ∷ ("PDUTypeComplexAck", 0x30)
    ∷ ("PDUTypeSegmentAck", 0x40)
    ∷ ("PDUTypeError", 0x50)
    ∷ ("PDUTypeReject", 0x60)
    ∷ ("PDUTypeAbort", 0x70)
    ∷ []

abbrev pub confirmed_service_values : List (String × ℕ)
confirmed_service_values =
    ("ServiceAcknowledgeAlarm", 0)
    ∷ ("ServiceConfirmedCOVNotification", 1)
    ∷ ("ServiceConfirmedEventNotification", 2)
    ∷ ("ServiceGetAlarmSummary", 3)
    ∷ ("ServiceGetEnrollmentSummary", 4)
    ∷ ("ServiceSubscribeCOV", 5)
    ∷ ("ServiceAtomicReadFile", 6)
    ∷ ("ServiceAtomicWriteFile", 7)
    ∷ ("ServiceAddListElement", 8)
    ∷ ("ServiceRemoveListElement", 9)
    ∷ ("ServiceCreateObject", 10)
    ∷ ("ServiceDeleteObject", 11)
    ∷ ("ServiceReadProperty", 12)
    ∷ ("ServiceReadPropertyConditional", 13)
    ∷ ("ServiceReadPropertyMultiple", 14)
    ∷ ("ServiceWriteProperty", 15)
    ∷ ("ServiceWritePropertyMultiple", 16)
    ∷ ("ServiceDeviceCommunicationControl", 17)
    ∷ ("ServiceConfirmedPrivateTransfer", 18)
    ∷ ("ServiceConfirmedTextMessage", 19)
    ∷ ("ServiceReinitializeDevice", 20)
    ∷ ("ServiceVTOpen", 21)
    ∷ ("ServiceVTClose", 22)
    ∷ ("ServiceVTData", 23)
    ∷ ("ServiceAuthenticate", 24)
    ∷ ("ServiceRequestKey", 25)
    ∷ ("ServiceReadRange", 26)
    ∷ ("ServiceLifeSafetyOperation", 27)
    ∷ ("ServiceSubscribeCOVProperty", 28)
    ∷ ("ServiceGetEventInformation", 29)
    ∷ []

abbrev pub unconfirmed_service_values : List (String × ℕ)
unconfirmed_service_values =
    ("ServiceIAm", 0)
    ∷ ("ServiceIHave", 1)
    ∷ ("ServiceUnconfirmedCOVNotification", 2)
    ∷ ("ServiceUnconfirmedEventNotification", 3)
    ∷ ("ServiceUnconfirmedPrivateTransfer", 4)
    ∷ ("ServiceUnconfirmedTextMessage", 5)
    ∷ ("ServiceTimeSynchronization", 6)
    ∷ ("ServiceWhoHas", 7)
    ∷ ("ServiceWhoIs", 8)
    ∷ ("ServiceUTCTimeSynchronization", 9)
    ∷ ("ServiceWriteGroup", 10)
    ∷ []
