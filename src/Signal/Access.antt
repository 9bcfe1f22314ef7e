-- ===== src/Signal/Access.antt =====
-- internal/signal/server.go: the HTTP side: the middleware, the upgrade to a WebSocket with its token,
-- and the endpoints that report. `extractIP` is in ratelimit.go.
use Prim.Native.Char.{code}
use remotty.Base.{
  ℕ, ◌≡◌, refl, String, Bool, true, false, not, ◌&&◌, ◌||◌, List, [], ◌∷◌ as cons, Option, none,
  some, ◌==◌, string_key, nat_beq, if◌then◌else◌, any, length, map,
}
use remotty.Base.Int.{ℤ}
use remotty.Base.Text.{has_prefix, trim_prefix, is_empty}
use remotty.Protocol.{HostInfo}
use remotty.Signal.State.{Server}
use remotty.Signal.Route.{add_peer}
use remotty.Signal.RateLimit.{RateLimiter, allow}

-- What the handlers read of a request; an absent header or parameter is empty.
pub record Request : Type 0 where
  pub method : String
  pub token : String
  pub authorization : String
  pub origin : String
  pub remote_addr : String

-- An empty list allows every origin, in every mode.
unfoldable pub is_origin_allowed : String → List String → Bool
is_origin_allowed origin [] = true
is_origin_allowed origin (cons a as') = any (λ b. b == "*" || b == origin) (cons a as')

-- The text before and after the last colon.
unfoldable pub last_colon : String → Option (String × String)
last_colon String.[] = none
last_colon (String.◌∷◌ c s) = elim (last_colon s) [
  | some (a, b) ↦ some (String.◌∷◌ c a, b)
  | none ↦ if nat_beq (code c) b':' then some (String.[], s) else none
]

unfoldable pub has_code : ℕ → String → Bool
has_code k String.[] = false
has_code k (String.◌∷◌ c s) = nat_beq (code c) k || has_code k s

-- The text before and after the first closing bracket.
unfoldable pub first_bracket : String → Option (String × String)
first_bracket String.[] = none
first_bracket (String.◌∷◌ c s) =
    let rest = first_bracket s in
    if nat_beq (code c) b']'
    then some (String.[], s)
    else elim rest [ none ↦ none | some (a, b) ↦ some (String.◌∷◌ c a, b) ]

-- The host of a text in brackets, which ends at the last colon of the address.
bracketed : String → String → Option String
bracketed inner port = elim (first_bracket inner) [
  | none ↦ none
  | some (host, rest) ↦
      if is_empty rest
        && not (has_code b'[' host)
        && not (has_code b'[' port)
        && not (has_code b']' port)
      then some host
      else none
]

plain : String → String → Option String
plain host port =
    if has_code b':' host
      || has_code b'[' host
      || has_code b']' host
      || has_code b'[' port
      || has_code b']' port
    then none
    else some host

split_before : String → String → Option String
unfolding bracketed plain
split_before String.[] port = plain String.[] port
split_before (String.◌∷◌ c s) port =
    if nat_beq (code c) b'[' then bracketed s port else plain (String.◌∷◌ c s) port

-- The host of `net.SplitHostPort`; `none` is an error.
unfoldable pub split_host_port : String → Option String
unfolding last_colon has_code first_bracket split_before
split_host_port addr = elim (last_colon addr) [
  | none ↦ none
  | some (before, port) ↦ split_before before port
]

unfoldable pub extract_ip : String → String
unfolding split_host_port
extract_ip addr = elim (split_host_port addr) [ none ↦ addr | some host ↦ host ]

pub data Verdict : Type 0 where
  forbidden preflight too_many_requests passed : Verdict

-- The `Access-Control-Allow-Origin` header.
abbrev pub allow_origin : List String → String
allow_origin [] = "*"
allow_origin (cons a as') = a

-- The rate limit of the middleware: no limiter lets everything through.
unfoldable pub check_rate : Option RateLimiter → String → ℕ → Option RateLimiter × Verdict
check_rate none addr now = (none, passed)
check_rate (some rl) addr now =
    let (rl', admitted) = allow rl (extract_ip addr) now in
    (some rl', if admitted then passed else too_many_requests)

-- `withMiddleware`, up to the call of the next handler.
unfoldable pub middleware :
    Option RateLimiter → List String → Request → ℕ → Option RateLimiter × Verdict
unfolding check_rate
middleware rl origins r now =
    if not (r.origin == "") && not (is_origin_allowed r.origin origins)
    then (rl, forbidden)
    else (if r.method == "OPTIONS" then (rl, preflight) else check_rate rl r.remote_addr now)

pub data Upgrade : Type 0 where
  shutting_down unauthorized upgrade_failed : Upgrade
  upgraded : ℕ → Upgrade

-- The token of the query, and failing that the bearer token.
unfoldable pub presented : Request → String
presented r =
    if r.token == ""
    then (if has_prefix r.authorization "Bearer "
        then trim_prefix r.authorization "Bearer "
        else "")
    else r.token

-- `handleWebSocket` up to the read loop; whether the upgrade goes well is the WebSocket library's.
unfoldable pub handle_web_socket : Server → Request → Bool → ℕ → Server × Upgrade
handle_web_socket s r upgrades now =
    if not s.accepting
    then (s, shutting_down)
    else (if not (s.cfg.auth_token == "") && not (presented r == s.cfg.auth_token)
        then (s, unauthorized)
        else (if upgrades
            then (add_peer s now r.remote_addr, upgraded s.next)
            else (s, upgrade_failed)))

pub record Health : Type 0 where
  pub hosts : ℕ
  pub rooms : ℕ
  pub peers : ℕ

-- The counts of `handleHealth`, from the tables.
unfoldable pub handle_health : Server → Health
handle_health s = record {
  hosts = length s.host_index;
  rooms = length s.rooms;
  peers = length s.peers;
}

pub record Stats : Type 0 where
  pub peers : ℤ
  pub rooms : ℤ
  pub hosts : ℕ
  pub accepting : Bool

-- The counts of `handleStats`, from the counters.
unfoldable pub handle_stats : Server → Stats
handle_stats s = record {
  peers = s.peer_count;
  rooms = s.room_count;
  hosts = length s.host_index;
  accepting = s.accepting;
}

-- `handleListHostsAPI`: `none` is the refusal of another method than GET.
unfoldable pub handle_list_hosts_api : Server → Request → Option (List HostInfo)
handle_list_hosts_api s r =
    if r.method == "GET" then some (map (λ e. (s.heap e.1).info) s.host_index) else none

-- `Shutdown` stops the acceptance of connections.
unfoldable pub shutdown : Server → Server
shutdown s = record s { accepting = false }

extract_ip_test : extract_ip "[2001:db8::1]:443" ≡ "2001:db8::1"
unfolding extract_ip
extract_ip_test = refl

extract_ip_plain_test : extract_ip "10.0.0.7:51000" ≡ "10.0.0.7"
unfolding extract_ip
extract_ip_plain_test = refl

extract_ip_bare_test : extract_ip "::1" ≡ "::1"
unfolding extract_ip
extract_ip_bare_test = refl
