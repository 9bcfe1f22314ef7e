-- ===== src/Config/Checks.antt =====
-- internal/config/config.go, `Validate`: each group of checks, and all of them.
use remotty.Base.{
  ◌*◌, ◌≡◌, ◌≢◌, ◌↔◌, ◌⊎◌, inl, inr, String, Bool, true, false, ◌&&◌, ◌||◌, not, [], ◌==◌,
  string_key, arith, ==_iff,
}
use remotty.Base.Int.{ℤ, pos, ltb_ℤ, ◌≤ℤ◌}
use remotty.Base.Text.{trim_space}
use remotty.Config.{
  Config, GlobalConfig, HostConfig, ClientConfig, WebRtcConfig, LoggingConfig, ScreenConfig,
}
use remotty.Config.Levels.{lower_among}
use remotty.Config.Validate.{
  ice_timeout_negative, message_size_negative, message_size_large, fps_range, quality_range,
  dimension_negative, dimension_large, token_empty, password_missing, password_twice, level_invalid,
  format_invalid, heartbeat_negative, heartbeat_short, timeout_negative, timeout_short,
  reconnect_wait_negative, reconnect_wait_short, sessions_negative, host_name_empty,
  host_url_scheme, client_url_scheme, ice_server_invalid, complain, check_host_times, check_global,
  check_host, check_client, check_webrtc, check_screen, check_logging, check_security, complaints,
  is_abs, is_web_socket_url, is_ice_server, valid_levels, valid_formats, second, negative,
}
use remotty.Config.Valid.{
  IsIn, IsOffOrAtLeast, IsSecure, IsValid, IsValidHost, IsValidScreen, IsValidWebRtc, append_iff,
  both, check_duration_iff, check_each_iff, check_features_iff, check_max_wait_iff,
  check_signal_iff, check_url_iff, clear, outside_iff,
}

wait_in : (d : ℤ) → IsOffOrAtLeast second d → pos 0 ≤ℤ d
wait_in d (inl off) = rw off (omega arith)
wait_in d (inr long) = omega (arith, long)

nonempty :
    (dev_mode : Bool) (text : String)
    → (dev_mode ≡ false → (text == "") ≡ false)
    → dev_mode ≡ false
    → text ≢ ""
nonempty dev_mode text h off = ground (arith, h off, ==_iff text "")

check_host_iff :
    (dev_mode : Bool) (h : HostConfig) → (check_host dev_mode h ≡ []) ↔ IsValidHost dev_mode h
unfolding check_host check_host_times
check_host_iff dev_mode h =
    let ends =
      both _ _ (check_duration_iff heartbeat_negative heartbeat_short (5 * second) h.heartbeat_int)
        (check_duration_iff timeout_negative timeout_short (60 * second) h.session_timeout) in
    let first =
      check_duration_iff reconnect_wait_negative reconnect_wait_short second h.reconnect_wait in
    let rest =
      both {P = pos 0 ≤ℤ h.max_sessions} (complain (negative h.max_sessions) sessions_negative) _
        (ground arith) (check_features_iff 0 h.features) in
    let name = outside_iff (trim_space h.name == "") dev_mode host_name_empty in
    let url = check_url_iff host_url_scheme h.signal_url in
    (
      (λ e.
          let (e1, e2) = (append_iff _ _).0 e in
          let (e3, e4) = (append_iff _ _).0 e2 in
          let (e5, e6) = (append_iff _ _).0 e4 in
          let (t1, t2) = (append_iff _ _).0 e5 in
          let (t3, t4) = (append_iff _ _).0 t2 in
          let wait = first.0 t1 in
          record {
            named = nonempty dev_mode (trim_space h.name) (name.0 e1);
            url = url.0 e3;
            wait = wait;
            max_wait = (check_max_wait_iff h (wait_in h.reconnect_wait wait)).0 t3;
            heartbeat = (ends.0 t4).0;
            timeout = (ends.0 t4).1;
            sessions = (rest.0 e6).0;
            features = (rest.0 e6).1;
          }),
      λ w. clear (name.1 (λ off. ground (arith, w.named off, ==_iff (trim_space h.name) ""))) (
          clear (url.1 w.url) (
            clear
              (clear (first.1 w.wait) (
                clear ((check_max_wait_iff h (wait_in h.reconnect_wait w.wait)).1 w.max_wait)
                  (ends.1 (w.heartbeat, w.timeout))))
              (rest.1 (w.sessions, w.features)))),
    )

check_webrtc_iff : (w : WebRtcConfig) → (check_webrtc w ≡ []) ↔ IsValidWebRtc w
unfolding check_webrtc
check_webrtc_iff w =
    let parts =
      both {P = pos 0 ≤ℤ w.ice_timeout} (complain (negative w.ice_timeout) ice_timeout_negative) _
        (ground arith)
        (both {P = pos 0 ≤ℤ w.max_message_size}
          (complain (negative w.max_message_size) message_size_negative) _ (ground arith)
          (both {P = w.max_message_size ≤ℤ pos 10485760}
            (complain (ltb_ℤ (pos 10485760) w.max_message_size) message_size_large) _ (ground arith)
            (check_each_iff is_ice_server ice_server_invalid 0 w.ice_servers))) in
    (
      (λ h.
          let (timeout, (low, (high, servers))) = parts.0 h in
          record { timeout_in = timeout; size_in = (low, high); servers = servers }),
      λ v. parts.1 (v.timeout_in, (v.size_in.0, (v.size_in.1, v.servers))),
    )

check_screen_iff : (s : ScreenConfig) → (check_screen s ≡ []) ↔ IsValidScreen s
unfolding check_screen
check_screen_iff s =
    let parts =
      both {P = IsIn 0 120 s.fps} (complain (negative s.fps || ltb_ℤ (pos 120) s.fps) fps_range) _
        (ground arith)
        (both {P = IsIn 0 100 s.quality}
          (complain (negative s.quality || ltb_ℤ (pos 100) s.quality) quality_range) _
          (ground arith)
          (both {P = pos 0 ≤ℤ s.max_dimension} {Q = s.max_dimension ≤ℤ pos 7680}
            (complain (negative s.max_dimension) dimension_negative)
            (complain (ltb_ℤ (pos 7680) s.max_dimension) dimension_large) (ground arith)
            (ground arith))) in
    (
      (λ h.
          let (fps, (quality, dimension)) = parts.0 h in
          record { fps_in = fps; quality_in = quality; dimension_in = dimension }),
      λ v. parts.1 (v.fps_in, (v.quality_in, v.dimension_in)),
    )

given_iff :
    (password hash : String) (required : Bool)
    → (complain (password == "" && hash == "" && required) password_missing ≡ [])
      ↔ (required ≡ true → (password ≢ "") ⊎ (hash ≢ ""))
given_iff password hash true = ground (arith, ==_iff password "", ==_iff hash "")
given_iff password hash false = ((λ h on. absurd (cc)), λ h. ground arith)

check_security_iff : (c : Config) → (check_security c ≡ []) ↔ IsSecure c
unfolding check_security
check_security_iff c =
    let password = c.host.master_password in
    let hash = c.host.master_hash in
    let parts = both _ _ (outside_iff (c.signal.auth_token == "") c.signal.dev_mode token_empty) (
      both {P = c.host.require_auth ≡ true → (password ≢ "") ⊎ (hash ≢ "")}
        {Q = (password ≡ "") ⊎ (hash ≡ "")}
        (complain (password == "" && hash == "" && c.host.require_auth) password_missing)
        (complain (not (password == "") && not (hash == "")) password_twice)
        (given_iff password hash c.host.require_auth)
        (ground (arith, ==_iff password "", ==_iff hash ""))) in
    (
      (λ h.
          let (token, (given, once)) = parts.0 h in
          record {
            token = λ off. ground (arith, token off, ==_iff c.signal.auth_token "");
            password = given;
            one_password = once;
          }),
      λ v. parts.1 (
        (λ off. ground (arith, v.token off, ==_iff c.signal.auth_token "")),
        (v.password, v.one_password),
      ),
    )

check_logging_iff :
    (l : LoggingConfig)
    → (check_logging l ≡ [])
      ↔ ((lower_among valid_levels l.level ≡ true) × (lower_among valid_formats l.format ≡ true))
unfolding check_logging
check_logging_iff l =
    both (complain (not (lower_among valid_levels l.level)) (level_invalid l.level))
      (complain (not (lower_among valid_formats l.format)) (format_invalid l.format)) (ground arith)
      (ground arith)

check_global_iff :
    (g : GlobalConfig) → (check_global g ≡ []) ↔ ((g.data_dir ≡ "") ⊎ (is_abs g.data_dir ≡ true))
unfolding check_global
check_global_iff g = ground (arith, ==_iff g.data_dir "")

check_client_iff :
    (c : ClientConfig)
    → (check_client c ≡ []) ↔ ((c.signal_url ≡ "") ⊎ (is_web_socket_url c.signal_url ≡ true))
unfolding check_client
check_client_iff c = check_url_iff client_url_scheme c.signal_url

pub complaints_iff : (c : Config) → (complaints c ≡ []) ↔ IsValid c
unfolding complaints
complaints_iff c =
    let parts = both _ _ (check_global_iff c.global) (
      both _ _ (check_signal_iff c.signal) (
        both _ _ (check_host_iff c.signal.dev_mode c.host) (
          both _ _ (check_client_iff c.client) (
            both _ _ (check_webrtc_iff c.webrtc) (
              both _ _ (check_screen_iff c.screen)
                (both _ _ (check_logging_iff c.logging) (check_security_iff c))))))) in
    (
      (λ h.
          let (global, (signal, (host, (client, (webrtc, (screen, (logging, secure))))))) =
            parts.0 h in
          record {
            data_dir = global;
            signal = signal;
            host = host;
            client_url = client;
            webrtc = webrtc;
            screen = screen;
            level = logging.0;
            format = logging.1;
            secure = secure;
          }),
      λ v. parts.1 (
        v.data_dir,
        (
          v.signal,
          (v.host, (v.client_url, (v.webrtc, (v.screen, ((v.level, v.format), v.secure))))),
        ),
      ),
    )
