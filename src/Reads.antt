-- ===== src/Reads.antt =====
-- How `io` (io/io.cpp) takes operations, hands the bytes it has read to those that read, and takes the bytes
-- of those that write: `do_register`, `process_read`, `write_flush`, `process_write` and `clean_write`, one
-- call at a time. What is flushed is kept as Writes has it. An `io_op` (io/task.h) is an interface, since its
-- subclasses belong to the users of the library.
pub mod Halt
pub mod Order
use npoller.Base.{
  ℕ, zero, suc, ◌+◌, ◌≡◌, ◌==◌, Bool, true, false, not, ◌||◌, if◌then◌else◌, List, [], ◌∷◌, ◌++◌,
  Option, none, some,
}
use npoller.Writes.{Writes, no_writes, flush, wrote, process_write}

-- `io_op`; `id` tells operations apart, whatever `process` changes of them.
pub record IoOp : Type 1 where
  pub Op : Type 0
  pub Buffer : Type 0
  pub id : Op → ℕ
  -- `io_id`, or `none` for `unspecified_id`
  pub io_id : Op → Option ℕ
  -- whether `type` is `Write`, where the only other type is `Read`
  pub is_write : Op → Bool
  pub size : Op → ℕ
  -- `process`: its answer, the operation and the buffer afterwards
  pub process : Op → Buffer → Bool × Op × Buffer
  pub id-process : (op : Op) (b : Buffer) → id (process op b).1 ≡ id op

abbrev pub is_other : Option ℕ → ℕ → Bool
is_other none fd = false
is_other (some id) fd = not (id == fd)

module _ (ops : IoOp) where
  -- `writing` is `wait_write_list` and `have_write`, with the writes notified. `done` are the reads that
  -- were notified, and `failed` the operations notified with `IOError`, in order of time; `left` are the
  -- writes that have left `write_list`, in order of time, with whether it was `write_flush` that took them;
  -- `instant_writes` counts the calls of `add_write_instant_task`.
  pub record Requests : Type 0 where
    pub fd : ℕ
    pub valid : Bool
    pub has_manager : Bool
    pub readable : Bool
    pub writable : Bool
    pub write_busy : Bool
    pub read_buffer : ops.Buffer
    pub temp_read_event : Option ops.Op
    pub read_list : List ops.Op
    pub write_list : List ops.Op
    pub write_buffer : ops.Buffer
    pub writing : Writes ops.size
    pub left : List (Bool × ℕ)
    pub done : List ops.Op
    pub failed : List ops.Op
    pub instant_writes : ℕ

  abbrev pub register_read : ops.Op → Requests → Bool × Requests
  register_read op s =
      if not s.readable
      then (false, s)
      else (true, record s { read_list = s.read_list ++ (op ∷ []) })

  abbrev pub register_write : ops.Op → Requests → Bool × Requests
  register_write op s = if not s.writable then (false, s) else (
    true,
    record s {
      write_list = s.write_list ++ (op ∷ []);
      instant_writes = if not s.write_busy then s.instant_writes + 1 else s.instant_writes;
    },
  )

  unfoldable pub do_register : ops.Op → Requests → Bool × Requests
  do_register op s =
      if not s.valid || not s.has_manager
      then (false, s)
      else if is_other (ops.io_id op) s.fd
      then (false, s)
      else if ops.is_write op
      then register_write op s
      else register_read op s

  -- The loop of `process_read`, over `read_list`.
  unfoldable pub read_from : List ops.Op → Requests → Requests
  read_from [] s = record s { read_list = [] }
  read_from (op ∷ rest) s =
      let (ready, after, buffer) = ops.process op s.read_buffer in
      let next =
        read_from rest (record s { read_buffer = buffer; done = s.done ++ (after ∷ []) }) in
      if ready
      then next
      else record s { read_buffer = buffer; temp_read_event = some after; read_list = rest }

  abbrev pub read_temp : Option ops.Op → Requests → Requests
  read_temp none s = read_from s.read_list s
  read_temp (some op) s =
      let (ready, after, buffer) = ops.process op s.read_buffer in
      if ready
      then read_from s.read_list
          (record s { read_buffer = buffer; temp_read_event = none; done = s.done ++ (after ∷ []) })
      else record s { read_buffer = buffer; temp_read_event = some after }

  unfoldable pub process_read : Requests → Requests
  process_read s = read_temp s.temp_read_event s

  -- The loop of `write_flush`, over `write_list`; it goes on whatever `process` answers.
  unfoldable pub flush_each : List ops.Op → Requests → Requests
  flush_each [] s = record s { write_list = [] }
  flush_each (op ∷ rest) s =
      let (fine, after, buffer) = ops.process op s.write_buffer in
      flush_each rest (record s {
        write_buffer = buffer;
        writing = flush ops.size after s.writing;
        left = s.left ++ ((true, ops.id op) ∷ []);
      })

  unfoldable pub write_flush : Requests → Requests
  write_flush s = flush_each s.write_list s

  -- Writes that `clean_write` takes.
  abbrev pub cleaned : List ops.Op → List (Bool × ℕ)
  cleaned [] = []
  cleaned (op ∷ rest) = (false, ops.id op) ∷ cleaned rest

  unfoldable pub clean_write : Requests → Requests
  clean_write s = record s {
    write_list = [];
    failed = s.failed ++ s.write_list;
    left = s.left ++ cleaned s.write_list;
  }

  -- What happens to the object: calls, bytes that come in, what `direct_write` counts, and changes of its
  -- status.
  pub data Event : Type 0 where
    registered : ops.Op → Event
    received : ops.Buffer → Event
    writes_counted : List ℕ → Event
    reads_processed writes_flushed writes_processed writes_cleaned : Event
    changed : Bool → Bool → Bool → Bool → Event

  abbrev pub waiting_ops : Option ops.Op → List ops.Op → List ops.Op
  waiting_ops none list = list
  waiting_ops (some op) list = op ∷ list

  -- The object, and the operations that `do_register` has answered true for: reads and writes.
  unfoldable pub step : Event → Requests × List ℕ × List ℕ → Requests × List ℕ × List ℕ
  step (registered op) (s, reads, writes) =
      let (taken, t) = do_register op s in
      if taken
      then (if ops.is_write op
          then (t, reads, writes ++ (ops.id op ∷ []))
          else (t, reads ++ (ops.id op ∷ []), writes))
      else (t, reads, writes)
  step (received b) (s, reads, writes) = (record s { read_buffer = b }, reads, writes)
  step reads_processed (s, reads, writes) = (process_read s, reads, writes)
  step writes_flushed (s, reads, writes) = (write_flush s, reads, writes)
  step (writes_counted rets) (s, reads, writes) =
      (record s { writing = wrote ops.size rets s.writing }, reads, writes)
  step writes_processed (s, reads, writes) =
      (record s { writing = process_write ops.size s.writing }, reads, writes)
  step writes_cleaned (s, reads, writes) = (clean_write s, reads, writes)
  step (changed valid readable writable busy) (s, reads, writes) = (
    record s { valid = valid; readable = readable; writable = writable; write_busy = busy },
    reads,
    writes,
  )

  unfoldable pub run : List Event → Requests × List ℕ × List ℕ → Requests × List ℕ × List ℕ
  run [] r = r
  run (e ∷ events) r = run events (step e r)

  -- An object without operations.
  abbrev pub new_requests : ℕ → ops.Buffer → ops.Buffer → Requests
  new_requests fd buffer write_buffer = record {
    fd = fd;
    valid = true;
    has_manager = true;
    readable = true;
    writable = true;
    write_busy = false;
    read_buffer = buffer;
    temp_read_event = none;
    read_list = [];
    write_list = [];
    write_buffer = write_buffer;
    writing = no_writes ops.size;
    left = [];
    done = [];
    failed = [];
    instant_writes = 0;
  }
