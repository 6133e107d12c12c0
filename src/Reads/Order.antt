-- ===== src/Reads/Order.antt =====
-- Operations of an `io` are notified in the order of their registration (io/io.cpp).
use npoller.Base.{
  ℕ, ◌≡◌, inl, inr, refl, sym, ap, ap₂, ◌∙◌, Bool, true, false, Bool-cases, not, ◌||◌,
  if◌then◌else◌, List, [], ◌∷◌, ◌++◌, append-nil, append_assoc, Option, none, some,
}
use npoller.Reads.{
  IoOp, is_other, Requests, do_register, read_from, read_temp, process_read, clean_write, Event,
  flush_each, write_flush, cleaned, registered, received, reads_processed, writes_flushed,
  writes_counted, writes_processed, writes_cleaned, changed, waiting_ops, step, run, new_requests,
}
use npoller.Writes.{flush, wrote}
use npoller.Writes.Order.{process_write_order}
use npoller.Reads.Halt.{Halted, SameWrites, process_read-Halted}

-- Writes that have left `write_list`: all, those flushed, and those cleaned.
abbrev pub gone : List (Bool × ℕ) → List ℕ
gone [] = []
gone ((by_flush, n) ∷ left) = n ∷ gone left

abbrev pub gone_by : Bool → List (Bool × ℕ) → List ℕ
gone_by true [] = []
gone_by true ((true, n) ∷ left) = n ∷ gone_by true left
gone_by true ((false, n) ∷ left) = gone_by true left
gone_by false [] = []
gone_by false ((true, n) ∷ left) = gone_by false left
gone_by false ((false, n) ∷ left) = n ∷ gone_by false left

gone-append : (xs ys : List (Bool × ℕ)) → gone (xs ++ ys) ≡ gone xs ++ gone ys
gone-append [] ys = refl
gone-append ((b, n) ∷ xs) ys = ap (λ l. n ∷ l) (gone-append xs ys)

gone_by-append :
    (b : Bool) (xs ys : List (Bool × ℕ)) → gone_by b (xs ++ ys) ≡ gone_by b xs ++ gone_by b ys
gone_by-append true [] ys = refl
gone_by-append true ((true, n) ∷ xs) ys = ap (λ l. n ∷ l) (gone_by-append true xs ys)
gone_by-append true ((false, n) ∷ xs) ys = gone_by-append true xs ys
gone_by-append false [] ys = refl
gone_by-append false ((true, n) ∷ xs) ys = gone_by-append false xs ys
gone_by-append false ((false, n) ∷ xs) ys = ap (λ l. n ∷ l) (gone_by-append false xs ys)

module _ (ops : IoOp) where
  unfoldable pub ids : List ops.Op → List ℕ
  ids [] = []
  ids (op ∷ list) = ops.id op ∷ ids list

  ids-append : (xs ys : List ops.Op) → ids (xs ++ ys) ≡ ids xs ++ ids ys
  unfolding ids
  ids-append [] ys = refl
  ids-append (x ∷ xs) ys = ap (λ l. ops.id x ∷ l) (ids-append xs ys)

  -- The reads that were notified, and those that wait.
  abbrev all_reads : Requests ops → List ℕ
  all_reads s = ids s.done ++ ids (waiting_ops ops s.temp_read_event s.read_list)

  -- One operation has been handed its bytes.
  one_done :
      (done : List ops.Op) (op : ops.Op) (b : ops.Buffer) (rest : List ops.Op)
      → ids (done ++ ((ops.process op b).1 ∷ [])) ++ ids rest ≡ ids done ++ (ops.id op ∷ ids rest)
  unfolding ids
  one_done done op b rest =
      ap (λ l. l ++ ids rest)
        (ids-append done ((ops.process op b).1 ∷ [])
          ∙ ap (λ n. ids done ++ (n ∷ [])) (ops.id-process op b))
      ∙ append_assoc (ids done) (ops.id op ∷ []) (ids rest)

  read_from-reads :
      (list : List ops.Op) (s : Requests ops)
      → s.temp_read_event ≡ none
      → all_reads (read_from ops list s) ≡ ids s.done ++ ids list
  unfolding read_from ids
  read_from-reads [] s e = rw e refl
  read_from-reads (op ∷ rest) s e = elim (Bool-cases (ops.process op s.read_buffer).0) [
    | inl ready ↦ rw ready (read_from-reads rest _ e ∙ one_done s.done op s.read_buffer rest)
    | inr later ↦
        rw later (ap (λ n. ids s.done ++ (n ∷ ids rest)) (ops.id-process op s.read_buffer))
  ]

  read_temp-reads :
      (temp : Option ops.Op) (s : Requests ops)
      → s.temp_read_event ≡ temp
      → all_reads (read_temp ops temp s) ≡ ids s.done ++ ids (waiting_ops ops temp s.read_list)
  unfolding ids
  read_temp-reads none s e = read_from-reads s.read_list s e
  read_temp-reads (some op) s e = elim (Bool-cases (ops.process op s.read_buffer).0) [
    | inl ready ↦
        rw ready (read_from-reads s.read_list _ refl ∙ one_done s.done op s.read_buffer s.read_list)
    | inr later ↦
        rw later (ap (λ n. ids s.done ++ (n ∷ ids s.read_list)) (ops.id-process op s.read_buffer))
  ]

  pub process_read-reads : (s : Requests ops) → all_reads (process_read ops s) ≡ all_reads s
  unfolding process_read
  process_read-reads s = read_temp-reads s.temp_read_event s refl

  -- The writes that were flushed: notified, or waiting.
  abbrev all_flushed : Requests ops → List ℕ
  all_flushed s = ids s.writing.done ++ ids s.writing.wait_write_list

  record Inv (s : Requests ops) (reads writes : List ℕ) : Type 0 where
    in_reads : all_reads s ≡ reads
    in_writes : gone s.left ++ ids s.write_list ≡ writes
    by_flush : gone_by true s.left ≡ all_flushed s
    by_clean : gone_by false s.left ≡ ids s.failed

  process_read-Inv :
      (s : Requests ops) (reads writes : List ℕ)
      → Inv s reads writes
      → Inv (process_read ops s) reads writes
  unfolding SameWrites
  process_read-Inv s reads writes v =
      let (failed, list, writing, left) = (process_read-Halted ops s).1 in
      record {
        in_reads = process_read-reads s ∙ v.in_reads;
        in_writes = ap₂ (λ l m. gone l ++ ids m) left list ∙ v.in_writes;
        by_flush =
            ap (gone_by true) left
            ∙ v.by_flush
            ∙ sym (ap (λ w. ids w.done ++ ids w.wait_write_list) writing);
        by_clean = ap (gone_by false) left ∙ v.by_clean ∙ sym (ap ids failed);
      }

  -- One write more that waits.
  one_flushed :
      (s : Requests ops) (op : ops.Op)
      → gone_by true s.left ≡ all_flushed s
      → gone_by true (s.left ++ ((true, ops.id op) ∷ []))
        ≡ ids s.writing.done
          ++ ids (s.writing.wait_write_list ++ ((ops.process op s.write_buffer).1 ∷ []))
  unfolding ids
  one_flushed s op e =
      gone_by-append true s.left ((true, ops.id op) ∷ [])
      ∙ ap₂ (λ l n. l ++ (n ∷ [])) e (sym (ops.id-process op s.write_buffer))
      ∙ append_assoc (ids s.writing.done) (ids s.writing.wait_write_list) _
      ∙ ap (λ l. ids s.writing.done ++ l)
          (sym (ids-append s.writing.wait_write_list ((ops.process op s.write_buffer).1 ∷ [])))

  flush_each-Inv :
      (list : List ops.Op) (s : Requests ops) (reads writes : List ℕ)
      → all_reads s ≡ reads
      → gone s.left ++ ids list ≡ writes
      → gone_by true s.left ≡ all_flushed s
      → gone_by false s.left ≡ ids s.failed
      → Inv (flush_each ops list s) reads writes
  unfolding flush_each ids flush
  flush_each-Inv [] s reads writes r w f c = record {
    in_reads = r;
    in_writes = w;
    by_flush = f;
    by_clean = c;
  }
  flush_each-Inv (op ∷ rest) s reads writes r w f c =
      flush_each-Inv rest _ reads writes r
        (ap (λ l. l ++ ids rest) (gone-append s.left ((true, ops.id op) ∷ []))
          ∙ append_assoc (gone s.left) (ops.id op ∷ []) (ids rest)
          ∙ w)
        (one_flushed s op f)
        (gone_by-append false s.left ((true, ops.id op) ∷ []) ∙ append-nil _ ∙ c)

  gone-cleaned : (list : List ops.Op) → gone (cleaned ops list) ≡ ids list
  unfolding ids
  gone-cleaned [] = refl
  gone-cleaned (op ∷ list) = ap (λ l. ops.id op ∷ l) (gone-cleaned list)

  cleaned-flushed : (list : List ops.Op) → gone_by true (cleaned ops list) ≡ []
  cleaned-flushed [] = refl
  cleaned-flushed (op ∷ list) = cleaned-flushed list

  cleaned-cleaned : (list : List ops.Op) → gone_by false (cleaned ops list) ≡ ids list
  unfolding ids
  cleaned-cleaned [] = refl
  cleaned-cleaned (op ∷ list) = ap (λ l. ops.id op ∷ l) (cleaned-cleaned list)

  clean_write-Inv :
      (s : Requests ops) (reads writes : List ℕ)
      → Inv s reads writes
      → Inv (clean_write ops s) reads writes
  unfolding clean_write
  clean_write-Inv s reads writes v =
      let list = s.write_list in
      record {
        in_reads = v.in_reads;
        in_writes =
            unfold ids in
            (append-nil _
              ∙ gone-append s.left (cleaned ops list)
              ∙ ap (λ l. gone s.left ++ l) (gone-cleaned list)
              ∙ v.in_writes);
        by_flush =
            gone_by-append true s.left (cleaned ops list)
            ∙ ap (λ l. gone_by true s.left ++ l) (cleaned-flushed list)
            ∙ append-nil _
            ∙ v.by_flush;
        by_clean =
            gone_by-append false s.left (cleaned ops list)
            ∙ ap₂ ◌++◌ v.by_clean (cleaned-cleaned list)
            ∙ sym (ids-append s.failed list);
      }

  waiting-append :
      (temp : Option ops.Op) (list : List ops.Op) (op : ops.Op)
      → waiting_ops ops temp (list ++ (op ∷ [])) ≡ waiting_ops ops temp list ++ (op ∷ [])
  waiting-append none list op = refl
  waiting-append (some first) list op = refl

  -- One operation more at the end.
  ids-more :
      (front list : List ops.Op) (op : ops.Op) (all : List ℕ)
      → ids front ++ ids list ≡ all
      → ids front ++ ids (list ++ (op ∷ [])) ≡ all ++ (ops.id op ∷ [])
  unfolding ids
  ids-more front list op all e =
      ap (λ l. ids front ++ l) (ids-append list (op ∷ []))
      ∙ sym (append_assoc (ids front) (ids list) (ops.id op ∷ []))
      ∙ ap (λ l. l ++ (ops.id op ∷ [])) e

  more_writes :
      (s : Requests ops) (op : ops.Op) (writes : List ℕ)
      → gone s.left ++ ids s.write_list ≡ writes
      → gone s.left ++ ids (s.write_list ++ (op ∷ [])) ≡ writes ++ (ops.id op ∷ [])
  unfolding ids
  more_writes s op writes e =
      ap (λ l. gone s.left ++ l) (ids-append s.write_list (op ∷ []))
      ∙ sym (append_assoc (gone s.left) (ids s.write_list) (ops.id op ∷ []))
      ∙ ap (λ l. l ++ (ops.id op ∷ [])) e

  -- What `do_register` comes to.
  data Registered (op : ops.Op) (s : Requests ops) (r : Bool × Requests ops) : Type 0 where
    refused : r ≡ (false, s) → Registered op s r
    as_read :
        ops.is_write op ≡ false
        → r ≡ (true, record s { read_list = s.read_list ++ (op ∷ []) })
        → Registered op s r
    as_write :
        (n : ℕ)
        → ops.is_write op ≡ true
        → r ≡ (true, record s { write_list = s.write_list ++ (op ∷ []); instant_writes = n })
        → Registered op s r

  either_way :
      {A : Type 0} (P : A → Type 0) (b : Bool) (x y : A)
      → (b ≡ true → P x)
      → (b ≡ false → P y)
      → P (if b then x else y)
  either_way P true x y h k = h refl
  either_way P false x y h k = k refl

  do_register-Registered : (op : ops.Op) (s : Requests ops) → Registered op s (do_register ops op s)
  unfolding do_register
  do_register-Registered op s =
      let P = Registered op s in
      either_way P (not s.valid || not s.has_manager) _ _ (λ e. refused refl)
        (λ e.
          either_way P (is_other (ops.io_id op) s.fd) _ _ (λ f. refused refl)
            (λ f.
              either_way P (ops.is_write op) _ _
                (λ kind.
                  either_way P (not s.writable) _ _ (λ g. refused refl) (λ g. as_write _ kind refl))
                (λ kind.
                  either_way P (not s.readable) _ _ (λ g. refused refl) (λ g. as_read kind refl))))

  step-Inv :
      (e : Event ops) (s : Requests ops) (reads writes : List ℕ)
      → Inv s reads writes
      → let (t, more_reads, more_writes) = step ops e (s, reads, writes) in
        Inv t more_reads more_writes
  unfolding step write_flush wrote
  step-Inv (registered op) s reads writes v = elim (do_register-Registered op s) [
    | refused e ↦ rw e v
    | as_read kind e ↦
        rw (e, kind)
          (record {
            in_reads =
                ap (λ l. ids s.done ++ ids l) (waiting-append s.temp_read_event s.read_list op)
                ∙ ids-more s.done (waiting_ops ops s.temp_read_event s.read_list) op reads
                    v.in_reads;
            in_writes = v.in_writes;
            by_flush = v.by_flush;
            by_clean = v.by_clean;
          })
    | as_write n kind e ↦
        rw (e, kind)
          (record {
            in_reads = v.in_reads;
            in_writes = more_writes s op writes v.in_writes;
            by_flush = v.by_flush;
            by_clean = v.by_clean;
          })
  ]
  step-Inv (received b) s reads writes v = record {
    in_reads = v.in_reads;
    in_writes = v.in_writes;
    by_flush = v.by_flush;
    by_clean = v.by_clean;
  }
  step-Inv reads_processed s reads writes v = process_read-Inv s reads writes v
  step-Inv writes_flushed s reads writes v =
      flush_each-Inv s.write_list s reads writes v.in_reads v.in_writes v.by_flush v.by_clean
  step-Inv (writes_counted rets) s reads writes v = record {
    in_reads = v.in_reads;
    in_writes = v.in_writes;
    by_flush = v.by_flush;
    by_clean = v.by_clean;
  }
  step-Inv writes_processed s reads writes v = record {
    in_reads = v.in_reads;
    in_writes = v.in_writes;
    by_flush =
        v.by_flush
        ∙ sym (ids-append s.writing.done s.writing.wait_write_list)
        ∙ sym (ap ids (process_write_order ops.size s.writing))
        ∙ ids-append _ _;
    by_clean = v.by_clean;
  }
  step-Inv writes_cleaned s reads writes v = clean_write-Inv s reads writes v
  step-Inv (changed valid readable writable busy) s reads writes v = record {
    in_reads = v.in_reads;
    in_writes = v.in_writes;
    by_flush = v.by_flush;
    by_clean = v.by_clean;
  }

  run-Inv :
      (events : List (Event ops)) (s : Requests ops) (reads writes : List ℕ)
      → Inv s reads writes
      → let (t, more_reads, more_writes) = run ops events (s, reads, writes) in
        Inv t more_reads more_writes
  unfolding run
  run-Inv [] s reads writes v = v
  run-Inv (e ∷ events) s reads writes v = run-Inv events _ _ _ (step-Inv e s reads writes v)

  -- Whatever is registered and comes in, whatever is flushed and counted as written, and however the status
  -- changes. The reads notified and then those that wait are those that `do_register` has answered true for,
  -- in their order. The writes that have left `write_list` and then those in it are those that `do_register`
  -- has answered true for, in their order; of those that have left it, `write_flush` took the ones that
  -- `process_write` has notified and then the ones that wait for it, in their order, and `clean_write` took
  -- the ones notified with `IOError`, in their order. A `process_read` leaves no read waiting, unless the
  -- first that waits has refused the bytes that are then in the buffer.
  pub notified_as_registered :
      (fd : ℕ) (buffer write_buffer : ops.Buffer) (events : List (Event ops))
      → let (s, reads, writes) = run ops events (new_requests ops fd buffer write_buffer, [], []) in
        (ids s.done ++ ids (waiting_ops ops s.temp_read_event s.read_list) ≡ reads)
        × (gone s.left ++ ids s.write_list ≡ writes)
        × (gone_by true s.left ≡ ids s.writing.done ++ ids s.writing.wait_write_list)
        × (gone_by false s.left ≡ ids s.failed)
        × Halted ops (process_read ops s)
  notified_as_registered fd buffer write_buffer events =
      let (s, reads, writes) = run ops events (new_requests ops fd buffer write_buffer, [], []) in
      let v = run-Inv events (new_requests ops fd buffer write_buffer) [] [] (
        unfold ids in
        record { in_reads = refl; in_writes = refl; by_flush = refl; by_clean = refl }) in
      (v.in_reads, v.in_writes, v.by_flush, v.by_clean, (process_read-Halted ops s).0)
