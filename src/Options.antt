-- ===== src/Options.antt =====
-- options.go: the options of the client and of its requests. A duration is a number of nanoseconds;
-- a pointer that may be nil is an `Option`. The logger is left out.
pub mod Priority
use bacnet_go.Base.{ℕ, Bool, false, ◌&&◌, List, [], ◌∷◌, Option, none, some, leb, if◌then◌else◌}
use bacnet_go.Types.Device.{max_apdu}
use bacnet_go.Types.Segmentation.{segmentation_none}

pub record ClientOptions : Type 0 where
  pub local_device_id : ℕ
  pub local_address : List ℕ
  pub network_number : ℕ
  pub bbmd_address : List ℕ
  pub bbmd_port : ℕ
  pub foreign_device_ttl : ℕ
  pub timeout : ℕ
  pub retries : ℕ
  pub retry_delay : ℕ
  pub max_apdu_length : ℕ
  pub segmentation : ℕ
  pub proposed_window_size : ℕ
  pub auto_discover : Bool
  pub discover_timeout : ℕ

abbrev pub default_options : ClientOptions
default_options = record {
  local_device_id = 0xFFFFFFFF;
  local_address = [];
  network_number = 0;
  bbmd_address = [];
  bbmd_port = 0;
  foreign_device_ttl = 0;
  timeout = 3000000000;
  retries = 3;
  retry_delay = 500000000;
  max_apdu_length = max_apdu;
  segmentation = segmentation_none;
  proposed_window_size = 1;
  auto_discover = false;
  discover_timeout = 5000000000;
}

abbrev pub with_device_id : ℕ → ClientOptions → ClientOptions
with_device_id id o = record o { local_device_id = id }

abbrev pub with_local_address : List ℕ → ClientOptions → ClientOptions
with_local_address addr o = record o { local_address = addr }

abbrev pub with_network_number : ℕ → ClientOptions → ClientOptions
with_network_number net o = record o { network_number = net }

abbrev pub with_bbmd : List ℕ → ℕ → ℕ → ClientOptions → ClientOptions
with_bbmd addr port ttl o = record o {
  bbmd_address = addr;
  bbmd_port = port;
  foreign_device_ttl = ttl;
}

abbrev pub with_timeout : ℕ → ClientOptions → ClientOptions
with_timeout d o = record o { timeout = d }

abbrev pub with_retries : ℕ → ClientOptions → ClientOptions
with_retries n o = record o { retries = n }

abbrev pub with_retry_delay : ℕ → ClientOptions → ClientOptions
with_retry_delay d o = record o { retry_delay = d }

abbrev pub with_max_apdu_length : ℕ → ClientOptions → ClientOptions
with_max_apdu_length length o = record o { max_apdu_length = length }

abbrev pub with_segmentation : ℕ → ClientOptions → ClientOptions
with_segmentation seg o = record o { segmentation = seg }

abbrev pub with_proposed_window_size : ℕ → ClientOptions → ClientOptions
with_proposed_window_size size o = record o { proposed_window_size = size }

abbrev pub with_auto_discover : Bool → ClientOptions → ClientOptions
with_auto_discover enable o = record o { auto_discover = enable }

abbrev pub with_discover_timeout : ℕ → ClientOptions → ClientOptions
with_discover_timeout d o = record o { discover_timeout = d }

pub record DiscoverOptions : Type 0 where
  pub low_limit : Option ℕ
  pub high_limit : Option ℕ
  pub timeout : ℕ
  pub network : ℕ

abbrev pub default_discover_options : DiscoverOptions
default_discover_options = record {
  low_limit = none;
  high_limit = none;
  timeout = 5000000000;
  network = 0;
}

abbrev pub with_device_range : ℕ → ℕ → DiscoverOptions → DiscoverOptions
with_device_range low high o = record o { low_limit = some low; high_limit = some high }

abbrev pub with_discovery_timeout : ℕ → DiscoverOptions → DiscoverOptions
with_discovery_timeout d o = record o { timeout = d }

abbrev pub with_target_network : ℕ → DiscoverOptions → DiscoverOptions
with_target_network net o = record o { network = net }

pub record ReadOptions : Type 0 where
  pub array_index : Option ℕ

abbrev pub with_array_index : ℕ → ReadOptions → ReadOptions
with_array_index index o = record o { array_index = some index }

pub record WriteOptions : Type 0 where
  pub array_index : Option ℕ
  pub priority : Option ℕ

-- `&WriteOptions{}`
abbrev pub no_write_options : WriteOptions
no_write_options = record { array_index = none; priority = none }

-- A function of the type `WriteOption`.
pub data WriteOption : Type 0 where
  write_array_index : ℕ → WriteOption
  write_priority : ℕ → WriteOption

abbrev pub with_write_array_index : ℕ → WriteOptions → WriteOptions
with_write_array_index index o = record o { array_index = some index }

unfoldable pub with_priority : ℕ → WriteOptions → WriteOptions
with_priority priority o =
    if leb 1 priority && leb priority 16 then record o { priority = some priority } else o

-- `for _, opt := range opts { opt(options) }`
apply_write_option : WriteOption → WriteOptions → WriteOptions
apply_write_option (write_array_index index) o = with_write_array_index index o
apply_write_option (write_priority priority) o = with_priority priority o

unfoldable pub apply_write_options : List WriteOption → WriteOptions → WriteOptions
unfolding apply_write_option
apply_write_options [] o = o
apply_write_options (opt ∷ opts) o = apply_write_options opts (apply_write_option opt o)

pub record SubscribeOptions : Type 0 where
  pub lifetime : Option ℕ
  pub cov_increment : Option ℕ
  pub confirmed : Bool

-- `&SubscribeOptions{Confirmed: false}`
abbrev pub no_subscribe_options : SubscribeOptions
no_subscribe_options = record { lifetime = none; cov_increment = none; confirmed = false }

abbrev pub with_subscription_lifetime : ℕ → SubscribeOptions → SubscribeOptions
with_subscription_lifetime seconds o = record o { lifetime = some seconds }

abbrev pub with_cov_increment : ℕ → SubscribeOptions → SubscribeOptions
with_cov_increment increment o = record o { cov_increment = some increment }

abbrev pub with_confirmed_notifications : Bool → SubscribeOptions → SubscribeOptions
with_confirmed_notifications confirmed o = record o { confirmed = confirmed }
