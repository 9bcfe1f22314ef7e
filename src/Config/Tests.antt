-- ===== src/Config/Tests.antt =====
-- The theorems on the configuration at concrete inputs.
use remotty.Base.{ℕ, ◌≡◌, refl, ◌≢◌, true, false, [], ◌∷◌, ==_apart, string_key}
use remotty.Base.Int.{pos, negsuc}
use remotty.Base.Text.{equal_fold, decimal}
use remotty.Config.{Config}
use remotty.Config.Levels.{addr, wss_addr}
use remotty.Config.Validate.{
  complaints, after_validate, port_range, feature_invalid, sessions_negative,
}
use remotty.Config.Accepted.{accepted-keeps_out}
use remotty.Signal.State.{new_server}
use remotty.Signal.Access.{Request, presented, upgraded, handle_web_socket}

abbrev settings : Config
settings = record {
  global = record { data_dir = "/home/me/.remotty"; config_file = "" };
  signal = record {
    host = "0.0.0.0";
    port = pos 9000;
    tls = record { enabled = false; cert_file = ""; key_file = "" };
    auth_token = "token";
    rate_limit = pos 60;
    allowed_origins = "https://example.org" ∷ [];
    dev_mode = false;
    web_dir = "";
  };
  host = record {
    signal_url = "wss://example.org";
    name = "box";
    master_password = "";
    master_hash = "hash";
    allow_list = [];
    features = "Terminal" ∷ "screen" ∷ [];
    reconnect_wait = pos 5000000000;
    reconnect_max_wait = pos 60000000000;
    heartbeat_int = pos 15000000000;
    session_timeout = pos 1800000000000;
    max_sessions = pos 0;
    require_auth = true;
    device_id = "";
    show_qr = false;
  };
  client = record { signal_url = ""; host_id = ""; master_password = ""; insecure = false };
  webrtc = record {
    ice_servers = "stun:stun.example.org:3478" ∷ [];
    mdns = true;
    ice_timeout = pos 10;
    max_message_size = pos 65536;
  };
  logging = record { level = "Trace"; format = "console"; file = "" };
  screen = record {
    enabled = false;
    fps = pos 15;
    quality = pos 60;
    max_dimension = pos 1920;
    capture_cursor = false;
  };
}

settings_pass : complaints settings ≡ []
unfolding complaints equal_fold
settings_pass = refl

abbrev stranger : Request
stranger = record {
  method = "GET";
  token = "guess";
  authorization = "";
  origin = "";
  remote_addr = "198.51.100.7:4000";
}

wrong_token : presented stranger ≢ "token"
unfolding presented
wrong_token = ==_apart "guess" "token" refl

same_cfg : (new_server settings.signal).cfg ≡ settings.signal
unfolding new_server
same_cfg = refl

accepted-keeps_out_example :
    let out = handle_web_socket (new_server settings.signal) stranger true 5 in
    (out.0 ≡ new_server settings.signal) × ((p : ℕ) → out.1 ≢ upgraded p)
accepted-keeps_out_example =
    accepted-keeps_out settings (new_server settings.signal) stranger true 5 settings_pass refl
      same_cfg wrong_token

spelling_test : (after_validate settings).host.features ≡ "terminal" ∷ "screen" ∷ []
unfolding after_validate equal_fold
spelling_test = refl

abbrev broken : Config
broken = record settings {
  signal = record settings.signal { port = pos 65536 };
  host = record settings.host { max_sessions = negsuc 0; features = "sound" ∷ [] };
}

complaints_test :
    complaints broken ≡ port_range ∷ sessions_negative ∷ feature_invalid 0 "sound" ∷ []
unfolding complaints equal_fold
complaints_test = refl

address_test :
    (addr settings.signal ≡ "0.0.0.0:9000") × (wss_addr settings.signal ≡ "ws://0.0.0.0:9000")
unfolding addr wss_addr decimal
address_test = (refl, refl)
