-- ===== src/Signal/Registration.antt =====
-- `handleRegister` on all its branches, and what `handleListHosts` then shows.
use remotty.Base.{
  ℕ, ◌≤◌, ◌≡◌, refl, ◌≢◌, ◌⊎◌, inl, inr, String, true, List, [], ◌∷◌, some, arith, ◌==◌, string_key,
  nat_key, ==_iff, lookup, lookup-insert, Bool-cases, Option-cases, map, ltb, if◌then◌else◌,
  IsDistinct, lookup_head, lookup_tail, ap, ◌++◌, ltb→lt, some_inj, true≢false, sym, ◌∙◌,
}
use mathlib.Core.Path.{subst}
use remotty.Base.Text.{byte_len, trim_space}
use remotty.Base.Json.{arr, obj, field, end}
use remotty.Protocol.{
  Message, RegisterPayload, decode_register, new_message, msg_register, msg_host_list,
}
use remotty.Signal.State.{
  Server, Peer, PeerState, peer_new, peer_registered, peer_disconnected, host, send_message,
  send_error,
}
use remotty.Signal.Handlers.{
  accept_host, register_host, handle_register, max_host_name_len, max_features_count,
  count_features, host_info, registered, is_new, is_new→new, listed_hosts, handle_list_hosts,
  is_listed, host_items,
}
use remotty.Signal.Invariant.{Inv}

-- What a registration has to be: the first of its peer, and with fields in their limits.
pub record IsRegistrable (s : Server) (p : ℕ) (msg : Message) (reg : RegisterPayload) : Type 0 where
  pub first : (s.heap p).state ≡ peer_new
  pub decoded : decode_register msg.payload ≡ some reg
  pub named : trim_space reg.name ≢ ""
  pub short : byte_len (trim_space reg.name) ≤ max_host_name_len
  pub few : count_features reg.features ≤ max_features_count

-- What a registration does: the peer is a registered host, its trimmed name leads to it and every
-- other name where it led, and the peer is told; nothing else of its record changes, nobody else's record
-- does, and nothing but the heap, the host index and what is sent.
pub record IsRegistered (s : Server) (p : ℕ) (reg : RegisterPayload) (t : Server) : Type 0 where
  pub is_host : t.heap p ≡ record (s.heap p) {
    role = host;
    state = peer_registered;
    info = host_info (s.heap p) (trim_space reg.name) reg;
  }
  pub indexed :
      (n : String)
      → lookup n t.host_index ≡ (if trim_space reg.name == n then some p else lookup n s.host_index)
  pub others : (q : ℕ) → q ≢ p → t.heap q ≡ s.heap q
  pub told : t.sent ≡ (send_message s p (new_message msg_register (registered (s.heap p).id))).sent
  pub kept : t ≡ record s { heap = t.heap; host_index = t.host_index; sent = t.sent }

accept_host-IsRegistered :
    (s : Server) (p : ℕ) (reg : RegisterPayload)
    → IsRegistered s p reg (accept_host s p (trim_space reg.name) reg)
unfolding accept_host send_message
accept_host-IsRegistered s p reg = record {
  is_host = ground (arith, ==_iff p p);
  indexed = λ n. lookup-insert (trim_space reg.name) n p s.host_index;
  others = λ q h. ground (arith, ==_iff p q);
  told = refl;
  kept = refl;
}

-- A refusal leaves only an error message behind.
abbrev pub IsRefused : Server → ℕ → Server → Type 0
IsRefused s p t = (code : String) × (text : String) × (t ≡ send_error s p code text)

register_host_outcome :
    (s : Server) (p : ℕ) (msg : Message) (reg : RegisterPayload)
    → (s.heap p).state ≡ peer_new
    → decode_register msg.payload ≡ some reg
    → (IsRegistrable s p msg reg × IsRegistered s p reg (register_host s p reg))
      ⊎ (IsRefused s p (register_host s p reg) × (¬ IsRegistrable s p msg reg))
unfolding register_host
register_host_outcome s p msg reg new e = elim (Bool-cases (trim_space reg.name == "")) [
  | inl unnamed ↦ inr (
    ("invalid_payload", "Host name is required", rw (unnamed, register_host)),
    λ r. r.named ((==_iff (trim_space reg.name) "").0 unnamed),
  )
  | inr named ↦ elim (Bool-cases (ltb max_host_name_len (byte_len (trim_space reg.name)))) [
    | inl long ↦ inr (
      ("invalid_payload", "Host name too long (max 64 chars)", rw (named, long, register_host)),
      λ r. omega (arith, ltb→lt _ _ long, r.short),
    )
    | inr short ↦ elim (Bool-cases (ltb max_features_count (count_features reg.features))) [
      | inl many ↦ inr (
        ("invalid_payload", "Too many features (max 20)", rw (named, short, many, register_host)),
        λ r. omega (arith, ltb→lt _ _ many, r.few),
      )
      | inr few ↦ inl (
        record {
          first = new;
          decoded = e;
          named = λ q. true≢false ((==_iff (trim_space reg.name) "").1 q) named;
          short = ground arith;
          few = ground arith;
        },
        rw (named, short, few, register_host) (accept_host-IsRegistered s p reg),
      )
    ]
  ]
]

-- The two ends of a registration.
abbrev pub RegisterOutcome : Server → ℕ → Message → Server → Type 0
RegisterOutcome s p msg t =
    ((reg : RegisterPayload) × IsRegistrable s p msg reg × IsRegistered s p reg t)
    ⊎ (IsRefused s p t × ((reg : RegisterPayload) → ¬ IsRegistrable s p msg reg))

-- A registration has one of two ends. Where the peer is new and the payload decodes to a name that is
-- not empty once trimmed, of at most 64 bytes, and to at most 20 features, the peer becomes the
-- registered host that its name leads to, is told so, and nothing else changes; and where any of
-- this fails, the peer is sent an error and the server is as it was.
pub handle_register_outcome :
    (s : Server) (p : ℕ) (msg : Message) → RegisterOutcome s p msg (handle_register s p msg)
unfolding handle_register
handle_register_outcome s p msg = elim (Bool-cases (is_new (s.heap p).state)) [
  | inr old ↦ inr (
    ("invalid_state", "Already registered", rw (old, handle_register)),
    λ reg r. cc (ap is_new r.first, old),
  )
  | inl new ↦ elim (Option-cases (decode_register msg.payload)) [
    | inl e ↦ inr (
      ("invalid_payload", "Cannot parse registration", rw (new, e, handle_register)),
      λ reg r. cc (e, r.decoded),
    )
    | inr (reg, e) ↦ elim (register_host_outcome s p msg reg (is_new→new _ new) e) [
      | inl (r, done) ↦ inl (reg, r, rw (new, e, handle_register) done)
      | inr (refused, not_so) ↦ inr (
        rw (new, e, handle_register) refused,
        λ other r. not_so (subst (IsRegistrable s p msg) (some_inj _ _ (sym r.decoded ∙ e)) r),
      )
    ]
  ]
]

-- Every entry of the host index passes the filter of the list; `heap` is the heap after the write to
-- the asking peer, which leaves every info as it was in `old`.
listed_all :
    (heap old : ℕ → Peer) (m : List (String × ℕ))
    → IsDistinct m
    → ((n : String) (q : ℕ)
        → lookup n m ≡ some q
        → (is_listed (heap q).state ≡ true) × ((heap q).info ≡ (old q).info))
    → listed_hosts heap m ≡ map (λ e. (old e.1).info) m
unfolding listed_hosts
listed_all heap old [] d h = refl
listed_all heap old ((n, q) ∷ m) d h =
    let (passes, same) = h n q (lookup_head n q m) in
    rw (passes, same)
      (ap (◌∷◌ (old q).info)
        (listed_all heap old m d.1 (λ i r e. h i r (lookup_tail n i q r m d.0 e))))

listed_state : (st : PeerState) → st ≢ peer_new → st ≢ peer_disconnected → is_listed st ≡ true
listed_state st h k = ground arith

listed_of_Inv :
    (s : Server) (n : String) (q : ℕ)
    → Inv s
    → lookup n s.host_index ≡ some q
    → is_listed (s.heap q).state ≡ true
listed_of_Inv s n q v h =
    let (_, not_new, live) = v.hosts_ok n q h in
    let (_, _, not_lost) = v.peers_ok (s.heap q).id q live in
    listed_state (s.heap q).state not_new not_lost

-- In a state that keeps the invariant a list request is answered, to the peer that asks and to nobody
-- else, with the info of every host that the index holds, and the asking peer counts as registered.
pub handle_list_hosts_complete :
    (s : Server) (p : ℕ)
    → Inv s
    → let t = handle_list_hosts s p in
      (t.sent
        ≡ (send_message s p (
            new_message msg_host_list (
              obj (
                field "hosts"
                  (arr (host_items (map (λ e. (s.heap e.1).info) s.host_index)))
                  end)))).sent)
      × ((t.heap p).state ≡ peer_registered)
unfolding handle_list_hosts send_message
handle_list_hosts_complete s p v = (
  ap
      (λ hosts.
        s.sent
        ++ (p, new_message msg_host_list (obj (field "hosts" (arr (host_items hosts)) end))) ∷ [])
      (listed_all _ s.heap s.host_index v.distinct_hosts
        (λ n q h. ground (arith, ==_iff p q, listed_of_Inv s n q v h))),
  ground (arith, ==_iff p p),
)
