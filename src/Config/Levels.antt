-- ===== src/Config/Levels.antt =====
-- internal/config/config.go, `ParseLevel`, and the addresses of the server.
use remotty.Base.{
  ℕ, suc, ◌+◌, String, Bool, false, ◌&&◌, ◌||◌, List, [], ◌∷◌, map, if◌then◌else◌, leb, nat_beq,
}
use remotty.Base.Int.{ℤ, pos, negsuc}
use remotty.Base.Text.{◌<>◌, decimal, codes, equal_codes}
use remotty.Config.{SignalConfig, LoggingConfig}

-- `unicode.ToLower`, as far as the result is ASCII.
abbrev pub lower_code : ℕ → ℕ
lower_code c =
    if leb 65 c && leb c 90
    then c + 32
    else (if nat_beq c 0x130 then 105 else (if nat_beq c 0x212a then 107 else c))

-- `strings.ToLower s == t`, where `t` is ASCII.
unfoldable pub lower_is : String → String → Bool
unfolding equal_codes
lower_is s t = equal_codes (map lower_code (codes s)) (codes t)

unfoldable pub lower_among : List String → String → Bool
unfolding lower_is
lower_among [] s = false
lower_among (t ∷ ts) s = lower_is s t || lower_among ts s

pub data Level : Type 0 where
  debug_level info_level warn_level error_level : Level

-- `ParseLevel`.
unfoldable pub parse_level : LoggingConfig → Level
unfolding lower_is
parse_level l =
    if lower_is l.level "debug"
    then debug_level
    else (if lower_is l.level "info"
        then info_level
        else (if lower_is l.level "warn"
            then warn_level
            else (if lower_is l.level "error" then error_level else info_level)))

-- `%d` of a whole number.
abbrev pub signed_decimal : ℤ → String
signed_decimal (pos n) = decimal n
signed_decimal (negsuc n) = "-" <> decimal (suc n)

unfoldable pub addr : SignalConfig → String
addr s = s.host <> ":" <> signed_decimal s.port

unfoldable pub wss_addr : SignalConfig → String
wss_addr s =
    let scheme = if s.tls.enabled then "wss" else "ws" in
    scheme <> "://" <> s.host <> ":" <> signed_decimal s.port
