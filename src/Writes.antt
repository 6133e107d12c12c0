-- ===== src/Writes.antt =====
-- How `io` (io/io.cpp) tells writers that their bytes have gone out: the list of operations whose bytes
-- are in the write buffer, and the number of bytes written and not yet put down to one of them.
pub mod Order
use npoller.Base.{ℕ, zero, suc, ◌+◌, ◌-◌, ◌%◌, ◌^◌, leb, if◌then◌else◌, List, [], ◌∷◌, ◌++◌, add64}

module _ {Op : Type 0} (size : Op → ℕ) where
  -- `done` are the operations that were notified, in order of time.
  pub record Writes : Type 0 where
    pub wait_write_list : List Op
    pub have_write : ℕ
    pub done : List Op

  abbrev pub no_writes : Writes
  no_writes = record { wait_write_list = []; have_write = 0; done = [] }

  -- The end of a round of `write_flush`.
  unfoldable pub flush : Op → Writes → Writes
  flush op w = record w { wait_write_list = w.wait_write_list ++ (op ∷ []) }

  -- `write_sum += ret;` for each `write`, on an `unsigned int`.
  unfoldable pub write_sum : ℕ → List ℕ → ℕ
  write_sum sum [] = sum
  write_sum sum (ret ∷ rets) = write_sum ((sum + ret) % 2 ^ 32) rets

  -- What `direct_write` adds when its calls of `write` have returned `rets`. Only this number is kept: which
  -- bytes of the write buffer went out has no part here.
  unfoldable pub wrote : List ℕ → Writes → Writes
  wrote rets w = record w { have_write = add64 w.have_write (write_sum 0 rets) }

  -- The loop of `process_write`.
  unfoldable pub notify_from : List Op → Writes → Writes
  notify_from [] w = record w { wait_write_list = [] }
  notify_from (op ∷ rest) w =
      let next =
        notify_from rest
          (record w { have_write = w.have_write - size op; done = w.done ++ (op ∷ []) }) in
      if leb (size op) w.have_write then next else record w { wait_write_list = op ∷ rest }

  unfoldable pub process_write : Writes → Writes
  process_write w = notify_from w.wait_write_list w

  pub data Event : Type 0 where
    flushed : Op → Event
    written : List ℕ → Event
    processed : Event

  unfoldable pub step : Event → Writes → Writes
  step (flushed op) w = flush op w
  step (written rets) w = wrote rets w
  step processed w = process_write w

  unfoldable pub run : List Event → Writes → Writes
  run [] w = w
  run (e ∷ events) w = run events (step e w)
