-- ===== src/Config/Validate.antt =====
-- internal/config/config.go, `Validate`: the complaints, in their order, and the features, which it
-- writes back in their own spelling.
use remotty.Base.{
  ℕ, suc, ◌*◌, String, Bool, false, ◌&&◌, ◌||◌, not, List, [], ◌∷◌, ◌++◌, ◌==◌, string_key,
  if◌then◌else◌,
}
use remotty.Base.Int.{ℤ, pos, ltb_ℤ, beq_ℤ}
use remotty.Base.Text.{has_prefix, trim_space, equal_fold}
use remotty.Config.{
  Config, GlobalConfig, SignalConfig, TlsConfig, HostConfig, ClientConfig, WebRtcConfig,
  LoggingConfig, ScreenConfig,
}
use remotty.Config.Levels.{lower_among}

-- One for each message; an index or a value that the message quotes is kept.
pub data Complaint : Type 0 where
  data_dir_relative port_range port_zero rate_limit_negative cert_missing key_missing : Complaint
  origin_invalid ice_server_invalid : ℕ → Complaint
  host_name_empty host_url_scheme reconnect_wait_negative reconnect_wait_short : Complaint
  max_wait_negative max_wait_below heartbeat_negative heartbeat_short : Complaint
  timeout_negative timeout_short sessions_negative : Complaint
  feature_invalid : ℕ → String → Complaint
  client_url_scheme ice_timeout_negative message_size_negative message_size_large : Complaint
  fps_range quality_range dimension_negative dimension_large : Complaint
  level_invalid format_invalid : String → Complaint
  token_empty password_missing password_twice : Complaint

abbrev pub complain : Bool → Complaint → List Complaint
complain b e = if b then e ∷ [] else []

abbrev pub negative : ℤ → Bool
negative n = ltb_ℤ n (pos 0)

abbrev pub positive : ℤ → Bool
positive n = ltb_ℤ (pos 0) n

-- `filepath.IsAbs` on a system with `/`.
abbrev pub is_abs : String → Bool
is_abs path = has_prefix path "/"

unfoldable pub check_global : GlobalConfig → List Complaint
check_global g = complain (not (g.data_dir == "") && not (is_abs g.data_dir)) data_dir_relative

unfoldable pub check_tls : TlsConfig → List Complaint
check_tls tls =
    if tls.enabled
    then complain (tls.cert_file == "") cert_missing ++ complain (tls.key_file == "") key_missing
    else []

abbrev pub is_origin : String → Bool
is_origin origin = origin == "*" || has_prefix origin "http://" || has_prefix origin "https://"

-- The loop over a list with its indices.
unfoldable pub check_each : (String → Bool) → (ℕ → Complaint) → ℕ → List String → List Complaint
check_each ok complaint i [] = []
check_each ok complaint i (item ∷ items) =
    complain (not (ok item)) (complaint i) ++ check_each ok complaint (suc i) items

unfoldable pub check_signal : SignalConfig → List Complaint
unfolding check_tls check_each
check_signal s =
    complain (negative s.port || ltb_ℤ (pos 65535) s.port) port_range
    ++ (complain (beq_ℤ s.port (pos 0) && not s.dev_mode) port_zero
        ++ (complain (negative s.rate_limit) rate_limit_negative
            ++ (check_tls s.tls ++ check_each is_origin origin_invalid 0 s.allowed_origins)))

abbrev pub is_web_socket_url : String → Bool
is_web_socket_url url = has_prefix url "ws://" || has_prefix url "wss://"

abbrev pub second : ℕ
second = 1000000000

-- A duration that is given is at least `least`.
abbrev pub is_short : ℤ → ℕ → Bool
is_short d least = positive d && ltb_ℤ d (pos least)

abbrev pub check_duration : Complaint → Complaint → ℕ → ℤ → List Complaint
check_duration is_negative too_short least d =
    complain (negative d) is_negative ++ complain (is_short d least) too_short

abbrev pub check_max_wait : HostConfig → List Complaint
check_max_wait h =
    complain (negative h.reconnect_max_wait) max_wait_negative
    ++ complain
        (positive h.reconnect_max_wait
          && positive h.reconnect_wait
          && ltb_ℤ h.reconnect_max_wait h.reconnect_wait)
        max_wait_below

unfoldable pub check_host_times : HostConfig → List Complaint
check_host_times h =
    check_duration reconnect_wait_negative reconnect_wait_short second h.reconnect_wait
    ++ (check_max_wait h
        ++ (check_duration heartbeat_negative heartbeat_short (5 * second) h.heartbeat_int
            ++ check_duration timeout_negative timeout_short (60 * second) h.session_timeout))

-- A URL of the server that is given.
abbrev pub check_url : Complaint → String → List Complaint
check_url scheme url = complain (not (url == "") && not (is_web_socket_url url)) scheme

abbrev pub valid_features : List String
valid_features = "terminal" ∷ "screen" ∷ "clipboard" ∷ "file_transfer" ∷ []

-- The first valid feature that a text is, up to case, or the text itself.
unfoldable pub normalized_feature : List String → String → String
normalized_feature [] f = f
normalized_feature (v ∷ vs) f = if equal_fold f v then v else normalized_feature vs f

unfoldable pub is_feature : List String → String → Bool
is_feature [] f = false
is_feature (v ∷ vs) f = equal_fold f v || is_feature vs f

unfoldable pub check_features : ℕ → List String → List Complaint
unfolding is_feature
check_features i [] = []
check_features i (f ∷ fs) =
    complain (not (is_feature valid_features f)) (feature_invalid i f) ++ check_features (suc i) fs

unfoldable pub normalized_features : List String → List String
unfolding normalized_feature
normalized_features [] = []
normalized_features (f ∷ fs) = normalized_feature valid_features f ∷ normalized_features fs

unfoldable pub check_host : Bool → HostConfig → List Complaint
unfolding trim_space check_host_times check_features
check_host dev_mode h =
    complain (trim_space h.name == "" && not dev_mode) host_name_empty
    ++ (check_url host_url_scheme h.signal_url
        ++ (check_host_times h
            ++ (complain (negative h.max_sessions) sessions_negative
                ++ check_features 0 h.features)))

unfoldable pub check_client : ClientConfig → List Complaint
check_client c = check_url client_url_scheme c.signal_url

abbrev pub is_ice_server : String → Bool
is_ice_server s = has_prefix s "stun:" || has_prefix s "turn:" || has_prefix s "turns:"

unfoldable pub check_webrtc : WebRtcConfig → List Complaint
unfolding check_each
check_webrtc w =
    complain (negative w.ice_timeout) ice_timeout_negative
    ++ (complain (negative w.max_message_size) message_size_negative
        ++ (complain (ltb_ℤ (pos (10 * 1024 * 1024)) w.max_message_size) message_size_large
            ++ check_each is_ice_server ice_server_invalid 0 w.ice_servers))

unfoldable pub check_screen : ScreenConfig → List Complaint
check_screen s =
    complain (negative s.fps || ltb_ℤ (pos 120) s.fps) fps_range
    ++ (complain (negative s.quality || ltb_ℤ (pos 100) s.quality) quality_range
        ++ (complain (negative s.max_dimension) dimension_negative
            ++ complain (ltb_ℤ (pos 7680) s.max_dimension) dimension_large))

abbrev pub valid_levels : List String
valid_levels = "debug" ∷ "info" ∷ "warn" ∷ "error" ∷ "trace" ∷ "fatal" ∷ "disabled" ∷ "" ∷ []

abbrev pub valid_formats : List String
valid_formats = "json" ∷ "console" ∷ "" ∷ []

unfoldable pub check_logging : LoggingConfig → List Complaint
unfolding lower_among
check_logging l =
    complain (not (lower_among valid_levels l.level)) (level_invalid l.level)
    ++ complain (not (lower_among valid_formats l.format)) (format_invalid l.format)

unfoldable pub check_security : Config → List Complaint
check_security c =
    complain (c.signal.auth_token == "" && not c.signal.dev_mode) token_empty
    ++ (complain (c.host.master_password == "" && c.host.master_hash == "" && c.host.require_auth)
          password_missing
        ++ complain (not (c.host.master_password == "") && not (c.host.master_hash == ""))
            password_twice)

-- The messages that `Validate` joins into its error; there is no error where there are none.
unfoldable pub complaints : Config → List Complaint
unfolding check_global check_signal check_host check_client check_webrtc check_screen check_logging
    check_security
complaints c =
    check_global c.global
    ++ (check_signal c.signal
        ++ (check_host c.signal.dev_mode c.host
            ++ (check_client c.client
                ++ (check_webrtc c.webrtc
                    ++ (check_screen c.screen ++ (check_logging c.logging ++ check_security c))))))

-- The configuration as `Validate` leaves it, with or without complaints.
unfoldable pub after_validate : Config → Config
unfolding normalized_features
after_validate c = record c {
  host = record c.host { features = normalized_features c.host.features };
}
