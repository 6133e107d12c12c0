-- ===== src/Tests/Writing.antt =====
-- The list of waiting writers at a concrete input: an operation is its name and its size.
use npoller.Base.{ℕ, ◌≤◌, ◌<◌, ◌≡◌, refl, List, [], ◌∷◌, ◌++◌, arith}
use npoller.Writes.{
  Writes, no_writes, flush, write_sum, wrote, notify_from, process_write, Event, flushed, written,
  processed, step, run,
}
use npoller.Writes.Order.{total, notified_in_order}

abbrev bytes_of : ℕ × ℕ → ℕ
bytes_of op = op.1

-- Eleven bytes go out for operations of ten and of five.
abbrev events : List (Event bytes_of)
events = flushed (1, 10) ∷ written (4 ∷ 2 ∷ []) ∷ processed ∷ flushed (2, 5) ∷ written (5 ∷ []) ∷ []

abbrev after : Writes bytes_of
after = process_write bytes_of (run bytes_of events (no_writes bytes_of))

after-is : after ≡ record { wait_write_list = (2, 5) ∷ []; have_write = 1; done = (1, 10) ∷ [] }
unfolding process_write run step flush wrote write_sum notify_from
after-is = refl

notified_in_order_example :
    (after.done ++ after.wait_write_list ≡ (1, 10) ∷ (2, 5) ∷ [])
    × (total bytes_of after.done ≤ 11)
    × ((op : ℕ × ℕ) (rest : List (ℕ × ℕ))
        → after.wait_write_list ≡ op ∷ rest
        → 11 < total bytes_of (after.done ++ (op ∷ [])))
notified_in_order_example = notified_in_order bytes_of events (omega arith)
