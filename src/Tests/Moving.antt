-- ===== src/Tests/Moving.antt =====
-- The moves of bytes between buffers at concrete inputs.
use npoller.Base.{inl, inr, refl, [], ◌∷◌, arith}
use npoller.IoBuffer.Block.{new_block}
use npoller.IoBuffer.Move.{One, Two}
use npoller.IoBuffer.Move.Beside.{Both, BecomeBoth}
use npoller.IoBuffer.Move.Turning.{BecomeOne}
use npoller.IoBuffer.Move.ToBack.{other_pop_front_to_back_n}
use npoller.IoBuffer.Move.ToBack.Law.{other_pop_front_to_back_n_lem}
use npoller.IoBuffer.Move.SelfFront.{self_pop_back_to_front_n}
use npoller.IoBuffer.Move.SelfFront.Law.{self_pop_back_to_front_n_lem}
use npoller.IoBuffer.Move.ToFront.{other_pop_back_to_front_n}
use npoller.IoBuffer.Move.ToFront.Law.{other_pop_back_to_front_n_lem}
use npoller.IoBuffer.Move.SelfBack.{self_pop_front_to_back_n}
use npoller.IoBuffer.Move.SelfBack.Law.{self_pop_front_to_back_n_lem}
use npoller.Tests.Data.{list_store, memory, crossing, crossing-Holds, crossing-Represents}

-- Three bytes over the border of two pages, beside an empty buffer.
abbrev crossing_and_empty : Two list_store
crossing_and_empty = record { memory = memory; this = crossing; other = new_block }

crossing_and_empty-Both : Both list_store crossing_and_empty (65 ∷ 66 ∷ 67 ∷ []) []
crossing_and_empty-Both = record {
  owns = crossing-Represents.owns;
  this_small = omega arith;
  other_small = omega arith;
  this_view = inr crossing-Holds;
  other_view = inl (record { unset = refl; at_zero = refl; nothing = refl });
}

other_pop_front_to_back_n_lem_example :
    BecomeBoth list_store
      (other_pop_front_to_back_n list_store 2 crossing_and_empty)
      (67 ∷ [])
      (65 ∷ 66 ∷ [])
other_pop_front_to_back_n_lem_example =
    other_pop_front_to_back_n_lem list_store 2 crossing_and_empty (65 ∷ 66 ∷ 67 ∷ []) []
      (omega arith) crossing_and_empty-Both

abbrev one_crossing : One list_store
one_crossing = record { memory = memory; this = crossing }

self_pop_front_to_back_n_lem_example :
    BecomeOne list_store (self_pop_front_to_back_n list_store 2 one_crossing) (67 ∷ 65 ∷ 66 ∷ [])
self_pop_front_to_back_n_lem_example =
    self_pop_front_to_back_n_lem list_store 2 one_crossing (65 ∷ 66 ∷ 67 ∷ []) (omega arith)
      crossing-Represents

self_pop_back_to_front_n_lem_example :
    BecomeOne list_store (self_pop_back_to_front_n list_store 1 one_crossing) (67 ∷ 65 ∷ 66 ∷ [])
self_pop_back_to_front_n_lem_example =
    self_pop_back_to_front_n_lem list_store 1 one_crossing (65 ∷ 66 ∷ 67 ∷ []) (omega arith)
      crossing-Represents

other_pop_back_to_front_n_lem_example :
    BecomeBoth list_store
      (other_pop_back_to_front_n list_store 2 crossing_and_empty)
      (65 ∷ [])
      (66 ∷ 67 ∷ [])
other_pop_back_to_front_n_lem_example =
    other_pop_back_to_front_n_lem list_store 2 crossing_and_empty (65 ∷ 66 ∷ 67 ∷ []) []
      (omega arith) crossing_and_empty-Both
