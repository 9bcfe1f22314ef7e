-- ===== src/Config.antt =====
-- internal/config/config.go: the configuration, without the callback that `HostConfig` holds.
-- Durations are nanoseconds.
pub mod Validate
pub mod Valid
pub mod Checks
pub mod Accepted
pub mod Levels
mod Tests
use remotty.Base.{String, Bool, List}
use remotty.Base.Int.{ℤ}

pub record GlobalConfig : Type 0 where
  pub data_dir : String
  pub config_file : String

pub record TlsConfig : Type 0 where
  pub enabled : Bool
  pub cert_file : String
  pub key_file : String

pub record SignalConfig : Type 0 where
  pub host : String
  pub port : ℤ
  pub tls : TlsConfig
  pub auth_token : String
  pub rate_limit : ℤ
  pub allowed_origins : List String
  pub dev_mode : Bool
  pub web_dir : String

pub record HostConfig : Type 0 where
  pub signal_url : String
  pub name : String
  pub master_password : String
  pub master_hash : String
  pub allow_list : List String
  pub features : List String
  pub reconnect_wait : ℤ
  pub reconnect_max_wait : ℤ
  pub heartbeat_int : ℤ
  pub session_timeout : ℤ
  pub max_sessions : ℤ
  pub require_auth : Bool
  pub device_id : String
  pub show_qr : Bool

pub record ClientConfig : Type 0 where
  pub signal_url : String
  pub host_id : String
  pub master_password : String
  pub insecure : Bool

pub record WebRtcConfig : Type 0 where
  pub ice_servers : List String
  pub mdns : Bool
  pub ice_timeout : ℤ
  pub max_message_size : ℤ

pub record LoggingConfig : Type 0 where
  pub level : String
  pub format : String
  pub file : String

pub record ScreenConfig : Type 0 where
  pub enabled : Bool
  pub fps : ℤ
  pub quality : ℤ
  pub max_dimension : ℤ
  pub capture_cursor : Bool

pub record Config : Type 0 where
  pub global : GlobalConfig
  pub signal : SignalConfig
  pub host : HostConfig
  pub client : ClientConfig
  pub webrtc : WebRtcConfig
  pub logging : LoggingConfig
  pub screen : ScreenConfig
