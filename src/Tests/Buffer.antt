-- ===== src/Tests/Buffer.antt =====
-- `io_buffer` at concrete inputs.
use npoller.Base.{
  ℕ, ◌<◌, ◌≡◌, ◌⊎◌, refl, List, [], ◌∷◌, Option, none, some, Outcome, ok, err, arith,
}
use npoller.Pages.{default_size, copy_out}
use npoller.IoBuffer.Block.{
  ControlBlock, Memory, new_block, check, shrink_size, do_shrink_size, drop_front, drop_back,
}
use npoller.IoBuffer.Push.{push_back_n, push_front_n}
use npoller.IoBuffer.Push.Back.{push_back_n_lem}
use npoller.IoBuffer.Push.Front.{push_front_n_lem}
use npoller.IoBuffer.Pop.{pop_back_n, pop_front_n, pop_front_n_to, pop_back_n_to, take_front}
use npoller.IoBuffer.Pop.Discard.{pop_back_n_lem, pop_front_n_lem}
use npoller.IoBuffer.Pop.Front.{pop_front_n_to_lem}
use npoller.IoBuffer.Pop.Back.{pop_back_n_to_lem}
use npoller.IoBuffer.Access.{get_n}
use npoller.IoBuffer.Access.Reads.{get_n_lem}
use npoller.IoBuffer.Shrink.{IsTight, shrink_size_lem}
use npoller.IoBuffer.View.{Becomes, Delivers}
use npoller.MemContainer.{MemContainer}
use npoller.Tests.Data.{
  list_store, memory, cells, crossing, at_start, crossing-Represents, at_start-Represents,
}

-- The control block that a call leaves.
abbrev block_after :
    {A : Type 0}
    → Outcome (A × (Memory (MemContainer (List ℕ)) × ControlBlock))
    → Option ControlBlock
block_after (ok (a, (m, b))) = some b
block_after (err e) = none

push_back_n_lem_example :
    Becomes list_store
      (push_back_n list_store (some (1 ∷ 2 ∷ [])) memory crossing)
      (65 ∷ 66 ∷ 67 ∷ 1 ∷ 2 ∷ [])
push_back_n_lem_example =
    push_back_n_lem list_store (some (1 ∷ 2 ∷ [])) memory crossing (65 ∷ 66 ∷ 67 ∷ []) (omega arith)
      crossing-Represents

push_front_n_lem_example :
    Becomes list_store
      (push_front_n list_store (some (1 ∷ 2 ∷ [])) memory at_start)
      (1 ∷ 2 ∷ 66 ∷ 67 ∷ [])
push_front_n_lem_example =
    push_front_n_lem list_store (some (1 ∷ 2 ∷ [])) memory at_start (66 ∷ 67 ∷ []) (omega arith)
      at_start-Represents

pop_back_n_lem_example : Becomes list_store (pop_back_n list_store 2 memory crossing) (65 ∷ [])
pop_back_n_lem_example =
    pop_back_n_lem list_store memory crossing (65 ∷ 66 ∷ 67 ∷ []) 2 crossing-Represents

pop_front_n_lem_example :
    Becomes list_store (pop_front_n list_store 1 memory crossing) (66 ∷ 67 ∷ [])
pop_front_n_lem_example =
    pop_front_n_lem list_store memory crossing (65 ∷ 66 ∷ 67 ∷ []) 1 crossing-Represents

pop_front_n_to_lem_example :
    Delivers list_store (pop_front_n_to list_store 2 memory crossing) (65 ∷ 66 ∷ []) (67 ∷ [])
pop_front_n_to_lem_example =
    pop_front_n_to_lem list_store memory crossing (65 ∷ 66 ∷ 67 ∷ []) 2 (omega arith) (omega arith)
      crossing-Represents

pop_back_n_to_lem_example :
    Delivers list_store (pop_back_n_to list_store 9 memory crossing) (65 ∷ 66 ∷ 67 ∷ []) []
pop_back_n_to_lem_example =
    pop_back_n_to_lem list_store memory crossing (65 ∷ 66 ∷ 67 ∷ []) 9 crossing-Represents

get_n_lem_example : get_n 1 5 cells crossing ≡ ok ((2, 66 ∷ 67 ∷ []), crossing)
get_n_lem_example =
    get_n_lem list_store memory crossing (65 ∷ 66 ∷ 67 ∷ []) 1 5 (omega arith) (omega arith)
      crossing-Represents

shrink_size_lem_example :
    (r : Becomes list_store (shrink_size list_store memory crossing) (65 ∷ 66 ∷ 67 ∷ []))
    × ((r.block ≡ new_block) ⊎ ((r.block.begin < default_size) × IsTight r.block))
shrink_size_lem_example =
    shrink_size_lem list_store memory crossing (65 ∷ 66 ∷ 67 ∷ []) crossing-Represents

-- A run: the first page is not needed any more after one byte has gone, and goes to the store.
pop_front_n_to_runs :
    block_after (pop_front_n_to list_store 2 memory crossing)
    ≡ some (record { buffer = 8 ∷ []; begin = 1; end = 2 })
unfolding pop_front_n_to take_front copy_out shrink_size do_shrink_size check drop_front drop_back
pop_front_n_to_runs = refl
