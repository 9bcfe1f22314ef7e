-- ===== src/Protocol/Encoding.antt =====
-- internal/protocol/message.go: what becomes of a payload that is encoded and decoded again.
use remotty.Base.{
  ◌≡◌, refl, inl, inr, String, Bool, true, List, [], ◌∷◌, Option, none, some, ◌==◌, string_key,
  arith, ap, Bool-cases, ==_iff,
}
use remotty.Base.Int.{ℤ, pos, negsuc, beq_ℤ}
use remotty.Base.Text.{equal_fold, fold_code, equal_codes}
use remotty.Base.Json.{read, fits, set_strings, in_int64, items_of, strings_of, of_strings}
use remotty.Protocol.{
  ConnectPayload, encode_connect, decode_connect, HostInfo, no_info, set_info, encode_host_info,
}

strings_of-items_of : (ss : List String) → strings_of (items_of ss) ≡ ss
strings_of-items_of [] = refl
strings_of-items_of (s ∷ ss) = ap (λ r. s ∷ r) (strings_of-items_of ss)

set-of_strings : (o : Option (List String)) → set_strings none (of_strings o) ≡ o
set-of_strings none = refl
set-of_strings (some ss) = ap some (strings_of-items_of ss)

is_zero : (g : ℤ) → beq_ℤ g (pos 0) ≡ true → g ≡ pos 0
is_zero (pos n) h = ground (arith, h)
is_zero (negsuc n) h = ground (arith, h)

info_onto-encoded :
    (i n p a v d : String) (o : Bool) (f : Option (List String)) (g : ℤ)
    → in_int64 g ≡ true
    → let h : HostInfo = record {
      id = i;
      name = n;
      platform = p;
      arch = a;
      version = v;
      online = o;
      features = f;
      device_id = d;
      ping = g;
    } in
      set_info no_info (encode_host_info h) ≡ h
unfolding encode_host_info read equal_fold fold_code equal_codes
info_onto-encoded i n p a v d o f g e = elim (Bool-cases (beq_ℤ g (pos 0))) [
  | inl idle ↦
      let zero = is_zero g idle in
      elim (Bool-cases (d == "")) [
        | inl anonymous ↦
            let empty = (==_iff d "").0 anonymous in rw (idle, anonymous, set-of_strings f) (cc)
        | inr device ↦ rw (idle, device, set-of_strings f) (cc)
      ]
  | inr busy ↦ elim (Bool-cases (d == "")) [
    | inl anonymous ↦
        let empty = (==_iff d "").0 anonymous in rw (busy, anonymous, set-of_strings f, e) (cc)
    | inr device ↦ rw (busy, device, set-of_strings f, e) refl
  ]
]

-- The info of a host inside another value is read as it was encoded.
pub set_info-encoded :
    (h : HostInfo) → in_int64 h.ping ≡ true → set_info no_info (encode_host_info h) ≡ h
set_info-encoded h e =
    info_onto-encoded h.id h.name h.platform h.arch h.version h.device_id h.online h.features h.ping
      e

connect_again :
    (i p : String)
    → decode_connect (some (encode_connect (record { host_id = i; password = p })))
      ≡ some (record { host_id = i; password = p })
unfolding decode_connect encode_connect read fits equal_fold fold_code equal_codes
connect_again i p = elim (Bool-cases (p == "")) [
  | inl none_given ↦ let empty = (==_iff p "").0 none_given in rw (none_given) (cc)
  | inr given ↦ rw (given) refl
]

-- A request for a host is decoded as it was encoded.
pub decode-encode_connect : (c : ConnectPayload) → decode_connect (some (encode_connect c)) ≡ some c
decode-encode_connect c = connect_again c.host_id c.password
