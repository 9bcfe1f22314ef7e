-- ===== src/Mux.antt =====
-- internal/mux/mux.go: logical channels, each a Go channel that holds at most 100 pieces of data. A
-- Go channel is a number that points into `heap`: its reader holds it even after `Close`.
pub mod Order
mod Tests
use remotty.Base.{
  ℕ, suc, String, Bool, true, false, List, [], ◌∷◌, ◌++◌, Option, none, some, ◌==◌, nat_key,
  if◌then◌else◌, lookup, insert, delete, length, ltb,
}

pub record Multiplexer : Type 0 where
  pub listeners : List (ℕ × ℕ)
  pub heap : ℕ → List String
  pub next_channel : ℕ

abbrev pub capacity : ℕ
capacity = 100

unfoldable pub new_multiplexer : Multiplexer
new_multiplexer = record { listeners = []; heap = λ h. []; next_channel = 0 }

abbrev pub write_heap : (ℕ → List String) → ℕ → List String → ℕ → List String
write_heap heap h q j = if j == h then q else heap j

-- `OpenChannel`: the new Go channel, or nothing where the ID is in use.
unfoldable pub open_channel : Multiplexer → ℕ → Multiplexer × Option ℕ
open_channel m id = elim (lookup id m.listeners) [
  | some h ↦ (m, none)
  | none ↦ (
    record m {
      listeners = insert id m.next_channel m.listeners;
      heap = write_heap m.heap m.next_channel [];
      next_channel = suc m.next_channel;
    },
    some m.next_channel,
  )
]

-- A send that does not wait: what finds the channel full is dropped.
abbrev pub offer : Multiplexer → ℕ → String → Multiplexer
offer m h data' =
    if ltb (length (m.heap h)) capacity
    then record m { heap = write_heap m.heap h (m.heap h ++ data' ∷ []) }
    else m

-- `WriteTo`: whether there is such a channel.
unfoldable pub write_to : Multiplexer → ℕ → String → Multiplexer × Bool
write_to m id data' = elim (lookup id m.listeners) [
  | none ↦ (m, false)
  | some h ↦ (offer m h data', true)
]

unfoldable pub close : Multiplexer → ℕ → Multiplexer
close m id = record m { listeners = delete id m.listeners }

abbrev pub first_of : List String → Option String
first_of [] = none
first_of (d ∷ ds) = some d

abbrev pub rest_of : List String → List String
rest_of [] = []
rest_of (d ∷ ds) = ds

-- The receive of a reader: the first piece, if there is one.
unfoldable pub receive : Multiplexer → ℕ → Multiplexer × Option String
receive m h = (record m { heap = write_heap m.heap h (rest_of (m.heap h)) }, first_of (m.heap h))
