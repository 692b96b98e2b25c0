-- ===== src/Version.antt =====
-- version.go: the version of the package.
use Prim.Native.String.{String}
use bacnet_go.Base.{ℕ}

pub record VersionInfo : Type 0 where
  pub version : String
  pub major : ℕ
  pub minor : ℕ
  pub patch : ℕ

-- `GetVersion`, with the constants that it returns.
abbrev pub get_version : VersionInfo
get_version = record { version = "0.1.0"; major = 0; minor = 1; patch = 0 }
