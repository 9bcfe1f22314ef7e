-- ===== src/Mux/Tests.antt =====
-- The theorem on the multiplexer at a concrete input.
use remotty.Base.{◌≡◌, refl, List, [], ◌∷◌, arith, lookup, insert}
use remotty.Mux.{Multiplexer, new_multiplexer, open_channel, write_to, receive}
use remotty.Mux.Order.{Event, writes, takes, traffic, IsInOrder, traffic-IsInOrder}

-- The terminal's channel.
abbrev opened : Multiplexer
opened = (open_channel new_multiplexer 1).0

abbrev talk : List Event
talk = writes "a" ∷ takes ∷ takes ∷ writes "b" ∷ writes "c" ∷ takes ∷ []

talk_test : (traffic opened 1 0 talk).1 ≡ "a" ∷ "b" ∷ []
unfolding traffic open_channel new_multiplexer write_to receive lookup insert
talk_test = refl

traffic-IsInOrder_example : IsInOrder (opened.heap 0) talk 0 (traffic opened 1 0 talk)
unfolding open_channel new_multiplexer lookup insert
traffic-IsInOrder_example = traffic-IsInOrder opened 1 0 talk refl (omega arith)
