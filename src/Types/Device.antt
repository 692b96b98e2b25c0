-- ===== src/Types/Device.antt =====
-- types.go: addresses, devices and the requests and results of the property services.
use bacnet_go.Base.{ℕ, List, Option}
use bacnet_go.Types.ObjectId.{ObjectIdentifier}

pub record Address : Type 0 where
  pub net : ℕ
  pub addr : List ℕ

-- Texts are lists of bytes.
pub record DeviceInfo : Type 0 where
  pub object_id : ObjectIdentifier
  pub address : Address
  pub max_apdu_length : ℕ
  pub segmentation : ℕ
  pub vendor_id : ℕ
  pub vendor_name : List ℕ
  pub model_name : List ℕ
  pub firmware_revision : List ℕ
  pub application_software : List ℕ
  pub description : List ℕ
  pub location : List ℕ
  pub object_list : List ObjectIdentifier

pub record ReadPropertyRequest : Type 0 where
  pub object_id : ObjectIdentifier
  pub property_id : ℕ
  pub array_index : Option ℕ

-- `DefaultPort`
abbrev pub default_port : ℕ
default_port = 47808

-- `MaxAPDULength`
abbrev pub max_apdu : ℕ
max_apdu = 1476
