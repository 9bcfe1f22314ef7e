-- ===== src/Signal/Invariant/Register.antt =====
-- The invariant through a registration.
use remotty.Base.{
  ℕ, ◌≡◌, inl, inr, String, arith, nat_key, string_key, ==_iff, lookup-insert, insert-IsDistinct,
  Bool-cases, Option-cases,
}
use remotty.Base.Text.{trim_space}
use remotty.Protocol.{decode_register, Message, RegisterPayload}
use remotty.Signal.State.{Server, peer_new, send_message, send_error}
use remotty.Signal.Handlers.{is_new, is_new→new, accept_host, register_host, handle_register}
use remotty.Signal.Route.{IsConnected}
use remotty.Signal.Invariant.{Inv, send_error-Inv}

-- The ends of a registration: an error, or the acceptance.
register_host_cases {ℓ} :
    (P : Server → Type ℓ) (s : Server) (p : ℕ) (reg : RegisterPayload)
    → ((code text : String) → P (send_error s p code text))
    → P (accept_host s p (trim_space reg.name) reg)
    → P (register_host s p reg)
unfolding register_host
register_host_cases P s p reg refused accepted = ground (
  arith,
  refused "invalid_payload" "Host name is required",
  refused "invalid_payload" "Host name too long (max 64 chars)",
  refused "invalid_payload" "Too many features (max 20)",
)

handle_register_cases {ℓ} :
    (P : Server → Type ℓ) (s : Server) (p : ℕ) (msg : Message)
    → ((code text : String) → P (send_error s p code text))
    → ((s.heap p).state ≡ peer_new → (reg : RegisterPayload) → P (register_host s p reg))
    → P (handle_register s p msg)
unfolding handle_register
handle_register_cases P s p msg refused valid = elim (Bool-cases (is_new (s.heap p).state)) [
  | inr old ↦ rw (old, handle_register) (refused "invalid_state" "Already registered")
  | inl new ↦
      let is_first = is_new→new (s.heap p).state new in
      elim (Option-cases (decode_register msg.payload)) [
        | inl e ↦
            rw (new, e, handle_register) (refused "invalid_payload" "Cannot parse registration")
        | inr (reg, e) ↦ rw (new, e, handle_register) (valid is_first reg)
      ]
]

-- A connected peer whose state is still new becomes the host of its name.
accept_host-Inv :
    (s : Server) (p : ℕ) (name : String) (reg : RegisterPayload)
    → IsConnected s p
    → (s.heap p).state ≡ peer_new
    → Inv s
    → Inv (accept_host s p name reg)
unfolding accept_host send_message
accept_host-Inv s p name reg c new v = record {
  peers_ok = λ k q h. ground (arith, v.peers_ok k q h, ==_iff p q);
  hosts_ok = λ n q h.
      ground
        (arith, ==_iff p q, ==_iff name n, v.hosts_ok n q, lookup-insert name n p s.host_index);
  distinct_peers = v.distinct_peers;
  distinct_hosts = insert-IsDistinct name p s.host_index v.distinct_hosts;
  peers_counted = v.peers_counted;
}

register_host-Inv :
    (s : Server) (p : ℕ) (reg : RegisterPayload)
    → IsConnected s p
    → (s.heap p).state ≡ peer_new
    → Inv s
    → Inv (register_host s p reg)
register_host-Inv s p reg c new v =
    register_host_cases Inv s p reg (λ code text. send_error-Inv s p code text v)
      (accept_host-Inv s p (trim_space reg.name) reg c new v)

pub handle_register-Inv :
    (s : Server) (p : ℕ) (msg : Message) → IsConnected s p → Inv s → Inv (handle_register s p msg)
handle_register-Inv s p msg c v =
    handle_register_cases Inv s p msg (λ code text. send_error-Inv s p code text v)
      (λ new reg. register_host-Inv s p reg c new v)
