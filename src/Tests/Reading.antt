-- ===== src/Tests/Reading.antt =====
-- Operations of an `io` at concrete inputs.
use npoller.Base.{
  ℕ, ◌-◌, ◌≡◌, ◌==◌, leb, refl, Bool, true, false, if◌then◌else◌, List, [], ◌∷◌, ◌++◌, none, some,
  arith,
}
use npoller.Reads.{
  IoOp, process_read, Event, registered, received, reads_processed, writes_flushed, writes_counted,
  writes_processed, writes_cleaned, changed, waiting_ops, run, new_requests, step, do_register,
  read_from, write_flush, flush_each, clean_write,
}
use npoller.Reads.Halt.{Halted}
use npoller.Reads.Order.{gone, gone_by, ids, notified_as_registered}

-- Takes so many of the bytes that are there.
abbrev take_bytes : ℕ × ℕ → ℕ → Bool × (ℕ × ℕ) × ℕ
take_bytes (id, need) b =
    if leb need b then (true, (id, 0), b - need) else (false, (id, need - b), 0)

take_bytes-id : (op : ℕ × ℕ) (b : ℕ) → (take_bytes op b).1.0 ≡ op.0
take_bytes-id (id, need) b = ground arith

-- An operation is its number and the bytes that it needs; number 9 is a write.
abbrev byte_ops : IoOp
byte_ops = record {
  Op = ℕ × ℕ;
  Buffer = ℕ;
  id = λ op. op.0;
  io_id = λ op. none;
  is_write = λ op. op.0 == 9;
  size = λ op. op.1;
  process = take_bytes;
  id-process = take_bytes-id;
}

abbrev events : List (Event byte_ops)
events =
    registered (1, 4)
    ∷ registered (2, 3)
    ∷ registered (9, 1)
    ∷ writes_flushed
    ∷ registered (9, 2)
    ∷ received 5
    ∷ reads_processed
    ∷ registered (3, 1)
    ∷ changed true false true true
    ∷ registered (4, 1)
    ∷ writes_counted (1 ∷ [])
    ∷ writes_processed
    ∷ writes_cleaned
    ∷ []

events_lem :
    let (s, reads, writes) = run byte_ops events (new_requests byte_ops 6 0 0, [], []) in
    (reads ≡ 1 ∷ 2 ∷ 3 ∷ [])
    × (writes ≡ 9 ∷ 9 ∷ [])
    × (s.left ≡ (true, 9) ∷ (false, 9) ∷ [])
    × (s.done ≡ (1, 0) ∷ [])
    × (s.temp_read_event ≡ some (2, 2))
unfolding run step do_register process_read read_from write_flush flush_each clean_write
events_lem = (refl, refl, refl, refl, refl)

notified_as_registered_example :
    let (s, reads, writes) = run byte_ops events (new_requests byte_ops 6 0 0, [], []) in
    (ids byte_ops s.done ++ ids byte_ops (waiting_ops byte_ops s.temp_read_event s.read_list)
      ≡ reads)
    × (gone s.left ++ ids byte_ops s.write_list ≡ writes)
    × (gone_by true s.left ≡ ids byte_ops s.writing.done ++ ids byte_ops s.writing.wait_write_list)
    × (gone_by false s.left ≡ ids byte_ops s.failed)
    × Halted byte_ops (process_read byte_ops s)
notified_as_registered_example = notified_as_registered byte_ops 6 0 0 events
