-- ===== src/Types.antt =====
-- types.go: the data that the codecs and the client share.
pub mod ObjectId
pub mod Device
pub mod ConfirmedServiceChoice
pub mod UnconfirmedServiceChoice
pub mod ObjectType
pub mod PropertyIdentifier
pub mod EventState
pub mod Reliability
pub mod EngineeringUnits
pub mod Segmentation
pub mod DeviceStatus
pub mod Constants
