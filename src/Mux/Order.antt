-- ===== src/Mux/Order.antt =====
-- internal/mux/mux.go: what a reader gets of what is written.
use mathlib.Core.Path.{subst}
use remotty.Base.{
  append_nil, append_assoc, ℕ, suc, ◌-◌, ◌≤◌, ◌≡◌, refl, inl, inr, String, true, false, List, [],
  ◌∷◌, ◌++◌, Option, none, some, nat_key, if◌then◌else◌, lookup, length, ltb, arith, ==_self, ap,
  sym, ◌∙◌, Bool-cases, length-append,
}
use remotty.Mux.{Multiplexer, capacity, write_to, receive, first_of, rest_of}

pub data Event : Type 0 where
  writes : String → Event
  takes : Event

-- What a receive adds to what is got later.
abbrev taken : Option String → Multiplexer × List String → Multiplexer × List String
taken none out = out
taken (some d) out = (out.0, d ∷ out.1)

-- What the reader of `h` got, as writes to the ID and its own receives go on.
unfoldable pub traffic : Multiplexer → ℕ → ℕ → List Event → Multiplexer × List String
traffic m id h [] = (m, [])
traffic m id h (writes d ∷ es) = traffic (write_to m id d).0 id h es
traffic m id h (takes ∷ es) =
    let (m', o) = receive m h in let (end, got) = traffic m' id h es in taken o (end, got)

-- What is accepted, where `n` pieces wait: a count decides it.
unfoldable pub accepted : ℕ → List Event → List String
accepted n [] = []
accepted n (writes d ∷ es) =
    let more = accepted (suc n) es in
    let same = accepted n es in if ltb n capacity then d ∷ more else same
accepted n (takes ∷ es) = accepted (n - 1) es

-- What one write and one receive leave of the queue.
write_to-queue :
    (m : Multiplexer) (id h : ℕ) (d : String)
    → lookup id m.listeners ≡ some h
    → let t = (write_to m id d).0 in
      (t.listeners ≡ m.listeners)
      × (t.heap h ≡ (if ltb (length (m.heap h)) capacity then m.heap h ++ d ∷ [] else m.heap h))
unfolding write_to
write_to-queue m id h d e = ground (arith, e, ==_self h)

receive-queue :
    (m : Multiplexer) (h : ℕ)
    → let t = (receive m h).0 in (t.listeners ≡ m.listeners) × (t.heap h ≡ rest_of (m.heap h))
unfolding receive
receive-queue m h = ground (arith, ==_self h)

-- What the reader got and what still waits is what waited and what was accepted.
pub record IsInOrder (q : List String) (es : List Event) (h : ℕ) (out : Multiplexer × List String)
    : Type 0 where
  pub in_order : out.1 ++ out.0.heap h ≡ q ++ accepted (length q) es
  pub within : length (out.0.heap h) ≤ capacity

length-snoc : (q : List String) (d : String) → length (q ++ d ∷ []) ≡ suc (length q)
length-snoc q d = omega (arith, length-append q (d ∷ []))

-- The three steps, on the queue alone.
write_accepted :
    (q : List String) (d : String) (es : List Event) (h : ℕ) (out : Multiplexer × List String)
    → ltb (length q) capacity ≡ true
    → IsInOrder (q ++ d ∷ []) es h out
    → IsInOrder q (writes d ∷ es) h out
unfolding accepted
write_accepted q d es h out room v = record {
  in_order =
      v.in_order
      ∙ append_assoc q (d ∷ []) (accepted (length (q ++ d ∷ [])) es)
      ∙ ap (λ (n : ℕ). q ++ (d ∷ accepted n es)) (length-snoc q d)
      ∙ rw room refl;
  within = v.within;
}

write_dropped :
    (q : List String) (d : String) (es : List Event) (h : ℕ) (out : Multiplexer × List String)
    → ltb (length q) capacity ≡ false
    → IsInOrder q es h out
    → IsInOrder q (writes d ∷ es) h out
unfolding accepted
write_dropped q d es h out full v = record {
  in_order = v.in_order ∙ rw full refl;
  within = v.within;
}

take_first :
    (q : List String) (es : List Event) (h : ℕ) (out : Multiplexer × List String)
    → IsInOrder (rest_of q) es h out
    → IsInOrder q (takes ∷ es) h (taken (first_of q) out)
unfolding accepted
take_first [] es h out v = record {
  in_order = v.in_order ∙ ap (λ (n : ℕ). accepted n es) (nothing_less 0);
  within = v.within;
}
  where
    nothing_less : (n : ℕ) → 0 ≡ 0 - 1
    nothing_less n = omega arith
take_first (d ∷ q) es h out v = record {
  in_order =
      ap (λ (ds : List String). d ∷ ds) v.in_order
      ∙ ap (λ (n : ℕ). d ∷ (q ++ accepted n es)) (one_less (length q));
  within = v.within;
}
  where
    one_less : (n : ℕ) → n ≡ suc n - 1
    one_less n = omega arith

-- The reader of an open channel gets what is accepted, each piece once and in the order of the writes: after any
-- writes and receives, what it got and what still waits is what waited before and then what was
-- accepted, where a write is accepted exactly if fewer than 100 pieces wait. And never do more wait.
pub traffic-IsInOrder :
    (m : Multiplexer) (id h : ℕ) (es : List Event)
    → lookup id m.listeners ≡ some h
    → length (m.heap h) ≤ capacity
    → IsInOrder (m.heap h) es h (traffic m id h es)
unfolding traffic accepted receive
traffic-IsInOrder m id h [] e k = record { in_order = sym (append_nil (m.heap h)); within = k }
traffic-IsInOrder m id h (writes d ∷ es) e k =
    let t = (write_to m id d).0 in
    let (same, queue) = write_to-queue m id h d e in
    let open_still : lookup id t.listeners ≡ some h = rw same e in
    elim (Bool-cases (ltb (length (m.heap h)) capacity)) [
      | inl room ↦
          let longer : t.heap h ≡ m.heap h ++ d ∷ [] = queue ∙ rw room refl in
          let small : length (t.heap h) ≤ capacity =
            rw longer (ground (arith, length-snoc (m.heap h) d, room)) in
          write_accepted (m.heap h) d es h (traffic t id h es) room (
            subst (λ (q : List String). IsInOrder q es h (traffic t id h es)) longer
              (traffic-IsInOrder t id h es open_still small))
      | inr full ↦
          let kept : t.heap h ≡ m.heap h = queue ∙ rw full refl in
          let small : length (t.heap h) ≤ capacity = rw kept k in
          write_dropped (m.heap h) d es h (traffic t id h es) full (
            subst (λ (q : List String). IsInOrder q es h (traffic t id h es)) kept
              (traffic-IsInOrder t id h es open_still small))
    ]
traffic-IsInOrder m id h (takes ∷ es) e k =
    let t = (receive m h).0 in
    let (same, queue) = receive-queue m h in
    let small : length (t.heap h) ≤ capacity = rw queue (rest_short (m.heap h) k) in
    let rest =
      subst (λ (q : List String). IsInOrder q es h (traffic t id h es)) queue
        (traffic-IsInOrder t id h es (rw same e) small) in
    (take_first (m.heap h) es h (traffic t id h es) rest)
  where
    rest_short : (q : List String) → length q ≤ capacity → length (rest_of q) ≤ capacity
    rest_short [] h = omega arith
    rest_short (d ∷ q) h = omega arith
