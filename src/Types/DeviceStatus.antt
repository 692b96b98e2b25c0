-- ===== src/Types/DeviceStatus.antt =====
-- types.go: `DeviceStatus`: its constants that have a name, and its `String` method.
use bacnet_go.Base.{ℕ, [], ◌∷◌}
use bacnet_go.Enumeration.{Enumeration}

abbrev operational : ℕ
operational = 0

abbrev operational_read_only : ℕ
operational_read_only = 1

abbrev download_required : ℕ
download_required = 2

abbrev download_in_progress : ℕ
download_in_progress = 3

abbrev non_operational : ℕ
non_operational = 4

abbrev backup_in_progress : ℕ
backup_in_progress = 5

-- `(DeviceStatus).String`
abbrev pub device_statuses : Enumeration
device_statuses = record {
  word = "device-status";
  names =
      (operational, "operational")
      ∷ (operational_read_only, "operational-read-only")
      ∷ (download_required, "download-required")
      ∷ (download_in_progress, "download-in-progress")
      ∷ (non_operational, "non-operational")
      ∷ (backup_in_progress, "backup-in-progress")
      ∷ [];
}
