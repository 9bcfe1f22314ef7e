-- ===== src/Config/Valid.antt =====
-- internal/config/config.go: what a configuration is that `Validate` does not complain about.
use remotty.Base.{
  ℕ, suc, ◌≡◌, refl, ◌≢◌, ◌↔◌, ◌⊎◌, String, Bool, true, false, ◌&&◌, ◌||◌, not, List, [], ◌∷◌, ◌++◌,
  string_key, arith, All, ==_iff, if_case,
}
use remotty.Base.Int.{ℤ, pos, ltb_ℤ, beq_ℤ, ◌≤ℤ◌}
use remotty.Base.Text.{trim_space}
use remotty.Config.{Config, SignalConfig, TlsConfig, HostConfig, WebRtcConfig, ScreenConfig}
use remotty.Config.Levels.{lower_among}
use remotty.Config.Validate.{
  Complaint, port_range, port_zero, rate_limit_negative, feature_invalid, check_duration,
  check_max_wait, check_url, origin_invalid, complain, check_each, check_features, check_signal,
  check_tls, is_abs, is_origin, is_web_socket_url, is_ice_server, is_feature, valid_features,
  valid_levels, valid_formats, negative,
}

-- A duration that is off, or at least so long.
abbrev pub IsOffOrAtLeast : ℕ → ℤ → Type 0
IsOffOrAtLeast least d = (d ≡ pos 0) ⊎ (pos least ≤ℤ d)

-- Between the bounds.
abbrev pub IsIn : ℕ → ℕ → ℤ → Type 0
IsIn low high n = (pos low ≤ℤ n) × (n ≤ℤ pos high)

pub record IsValidSignal (s : SignalConfig) : Type 0 where
  pub port_in : IsIn 0 65535 s.port
  pub port_given : s.dev_mode ≡ false → pos 1 ≤ℤ s.port
  pub rate_in : pos 0 ≤ℤ s.rate_limit
  pub certified : s.tls.enabled ≡ true → (s.tls.cert_file ≢ "") × (s.tls.key_file ≢ "")
  pub origins : All (λ o. is_origin o ≡ true) s.allowed_origins

pub record IsValidHost (dev_mode : Bool) (h : HostConfig) : Type 0 where
  pub named : dev_mode ≡ false → trim_space h.name ≢ ""
  pub url : (h.signal_url ≡ "") ⊎ (is_web_socket_url h.signal_url ≡ true)
  pub wait : IsOffOrAtLeast 1000000000 h.reconnect_wait
  pub max_wait :
      (h.reconnect_max_wait ≡ pos 0)
      ⊎ ((pos 1 ≤ℤ h.reconnect_max_wait) × (h.reconnect_wait ≤ℤ h.reconnect_max_wait))
  pub heartbeat : IsOffOrAtLeast 5000000000 h.heartbeat_int
  pub timeout : IsOffOrAtLeast 60000000000 h.session_timeout
  pub sessions : pos 0 ≤ℤ h.max_sessions
  pub features : All (λ f. is_feature valid_features f ≡ true) h.features

pub record IsValidWebRtc (w : WebRtcConfig) : Type 0 where
  pub timeout_in : pos 0 ≤ℤ w.ice_timeout
  pub size_in : IsIn 0 10485760 w.max_message_size
  pub servers : All (λ s. is_ice_server s ≡ true) w.ice_servers

pub record IsValidScreen (s : ScreenConfig) : Type 0 where
  pub fps_in : IsIn 0 120 s.fps
  pub quality_in : IsIn 0 100 s.quality
  pub dimension_in : IsIn 0 7680 s.max_dimension

pub record IsSecure (c : Config) : Type 0 where
  pub token : c.signal.dev_mode ≡ false → c.signal.auth_token ≢ ""
  pub password :
      c.host.require_auth ≡ true → (c.host.master_password ≢ "") ⊎ (c.host.master_hash ≢ "")
  pub one_password : (c.host.master_password ≡ "") ⊎ (c.host.master_hash ≡ "")

-- A valid configuration.
pub record IsValid (c : Config) : Type 0 where
  pub data_dir : (c.global.data_dir ≡ "") ⊎ (is_abs c.global.data_dir ≡ true)
  pub signal : IsValidSignal c.signal
  pub host : IsValidHost c.signal.dev_mode c.host
  pub client_url : (c.client.signal_url ≡ "") ⊎ (is_web_socket_url c.client.signal_url ≡ true)
  pub webrtc : IsValidWebRtc c.webrtc
  pub screen : IsValidScreen c.screen
  pub level : lower_among valid_levels c.logging.level ≡ true
  pub format : lower_among valid_formats c.logging.format ≡ true
  pub secure : IsSecure c

complain_iff : (b : Bool) (e : Complaint) → (complain b e ≡ []) ↔ (b ≡ false)
complain_iff b e = ground arith

pub append_iff : (a b : List Complaint) → ((a ++ b) ≡ []) ↔ ((a ≡ []) × (b ≡ []))
append_iff [] b = ((λ h. (refl, h)), (λ h. h.1))
append_iff (e ∷ a) b = ((λ h. absurd (cc)), (λ h. absurd (cc)))

-- Two checks, one after the other.
pub both :
    {P Q : Type 0} (a b : List Complaint)
    → ((a ≡ []) ↔ P)
    → ((b ≡ []) ↔ Q)
    → ((a ++ b) ≡ []) ↔ (P × Q)
both a b p q =
    let parts = append_iff a b in
    ((λ h. (p.0 (parts.0 h).0, q.0 (parts.0 h).1)), (λ h. parts.1 (p.1 h.0, q.1 h.1)))

pub check_each_iff :
    (ok : String → Bool) (complaint : ℕ → Complaint) (i : ℕ) (items : List String)
    → (check_each ok complaint i items ≡ []) ↔ All (λ item. ok item ≡ true) items
unfolding check_each
check_each_iff ok complaint i [] = ((λ h. tt), (λ h. refl))
check_each_iff ok complaint i (item ∷ items) =
    both (complain (not (ok item)) (complaint i)) (check_each ok complaint (suc i) items)
      (ground arith) (check_each_iff ok complaint (suc i) items)

pub check_features_iff :
    (i : ℕ) (fs : List String)
    → (check_features i fs ≡ []) ↔ All (λ f. is_feature valid_features f ≡ true) fs
unfolding check_features
check_features_iff i [] = ((λ h. tt), (λ h. refl))
check_features_iff i (f ∷ fs) =
    both (complain (not (is_feature valid_features f)) (feature_invalid i f))
      (check_features (suc i) fs) (ground arith) (check_features_iff (suc i) fs)

check_tls_iff :
    (tls : TlsConfig)
    → (check_tls tls ≡ []) ↔ (tls.enabled ≡ true → (tls.cert_file ≢ "") × (tls.key_file ≢ ""))
unfolding check_tls
check_tls_iff tls = (
  (λ h on. ground (arith, h, on, ==_iff tls.cert_file "", ==_iff tls.key_file "")),
  λ h.
      if_case (λ l. l ≡ []) tls.enabled _ _
        (λ on. ground (arith, h on, ==_iff tls.cert_file "", ==_iff tls.key_file "")) (λ off. refl),
)

-- A complaint that is made outside of development only.
pub outside_iff :
    (b dev_mode : Bool) (e : Complaint)
    → (complain (b && not dev_mode) e ≡ []) ↔ (dev_mode ≡ false → b ≡ false)
outside_iff b true e = ((λ h off. absurd (cc)), λ h. ground arith)
outside_iff b false e = ((λ h off. ground (arith, h)), λ h. ground (arith, h refl))

pub check_signal_iff : (s : SignalConfig) → (check_signal s ≡ []) ↔ IsValidSignal s
unfolding check_signal
check_signal_iff s =
    let parts =
      both {P = IsIn 0 65535 s.port}
        (complain (negative s.port || ltb_ℤ (pos 65535) s.port) port_range) _ (ground arith)
        (both _ _ (outside_iff (beq_ℤ s.port (pos 0)) s.dev_mode port_zero) (
          both {P = pos 0 ≤ℤ s.rate_limit} (complain (negative s.rate_limit) rate_limit_negative) _
            (ground arith)
            (both _ _ (check_tls_iff s.tls)
              (check_each_iff is_origin origin_invalid 0 s.allowed_origins)))) in
    (
      (λ h.
          let (range, (given, (rate, (tls, origins)))) = parts.0 h in
          record {
            port_in = range;
            port_given = λ off. ground (arith, range, given off);
            rate_in = rate;
            certified = tls;
            origins = origins;
          }),
      λ w. parts.1 (
        w.port_in,
        ((λ off. ground (arith, w.port_given off)), (w.rate_in, (w.certified, w.origins))),
      ),
    )

pub check_duration_iff :
    (is_negative too_short : Complaint) (least : ℕ) (d : ℤ)
    → (check_duration is_negative too_short least d ≡ []) ↔ IsOffOrAtLeast least d
check_duration_iff is_negative too_short least d = ground arith

pub check_max_wait_iff :
    (h : HostConfig)
    → pos 0 ≤ℤ h.reconnect_wait
    → (check_max_wait h ≡ []) ↔ (
        (h.reconnect_max_wait ≡ pos 0)
        ⊎ ((pos 1 ≤ℤ h.reconnect_max_wait) × (h.reconnect_wait ≤ℤ h.reconnect_max_wait)))
check_max_wait_iff h w = ground arith

pub check_url_iff :
    (scheme : Complaint) (url : String)
    → (check_url scheme url ≡ []) ↔ ((url ≡ "") ⊎ (is_web_socket_url url ≡ true))
check_url_iff scheme url = ground (arith, ==_iff url "")

pub clear : {a b : List Complaint} → a ≡ [] → b ≡ [] → (a ++ b) ≡ []
clear {a} {b} p q = (append_iff a b).1 (p, q)
