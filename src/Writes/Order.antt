-- ===== src/Writes/Order.antt =====
-- Writers are notified in the order of their operations, each when all bytes up to its last are out.
use npoller.Base.{
  ℕ, ◌+◌, ◌-◌, ◌%◌, ◌^◌, ◌≤◌, ◌<◌, ◌≡◌, refl, ap, ◌∙◌, sym, leb, inl, inr, Bool-cases, List, [],
  ◌∷◌, ◌++◌, append_assoc, append-nil, add64, arith,
}
use npoller.Writes.{
  Writes, no_writes, flush, write_sum, wrote, notify_from, process_write, Event, flushed, written,
  processed, step, run,
}

abbrev pub sum : List ℕ → ℕ
sum [] = 0
sum (n ∷ ns) = n + sum ns

module _ {Op : Type 0} (size : Op → ℕ) where
  -- The bytes of some operations.
  abbrev pub total : List Op → ℕ
  total [] = 0
  total (op ∷ ops) = size op + total ops

  -- The operations that came in, and the bytes that went out.
  abbrev pub all_flushed : List (Event size) → List Op
  all_flushed [] = []
  all_flushed (flushed op ∷ events) = op ∷ all_flushed events
  all_flushed (written rets ∷ events) = all_flushed events
  all_flushed (processed ∷ events) = all_flushed events

  abbrev pub all_written : List (Event size) → ℕ
  all_written [] = 0
  all_written (flushed op ∷ events) = all_written events
  all_written (written rets ∷ events) = sum rets + all_written events
  all_written (processed ∷ events) = all_written events

  total-append : (xs ys : List Op) → total (xs ++ ys) ≡ total xs + total ys
  total-append [] ys = omega arith
  total-append (x ∷ xs) ys = omega (arith, total-append xs ys)

  write_sum_lem :
      (s : ℕ) (rets : List ℕ) → s + sum rets < 2 ^ 32 → write_sum size s rets ≡ s + sum rets
  unfolding write_sum
  write_sum_lem s [] h = omega arith
  write_sum_lem s (r ∷ rets) h =
      let small : (s + r) % 2 ^ 32 ≡ s + r = omega arith in
      rw small (omega (arith, write_sum_lem (s + r) rets (omega arith)))

  -- Operations and bytes are neither lost nor made.
  record Inv (w : Writes size) (ops : List Op) (bytes : ℕ) : Type 0 where
    order : w.done ++ w.wait_write_list ≡ ops
    balance : total w.done + w.have_write ≡ bytes

  notify_from-Inv :
      (wait : List Op) (w : Writes size) (ops : List Op) (bytes : ℕ)
      → w.done ++ wait ≡ ops
      → total w.done + w.have_write ≡ bytes
      → Inv (notify_from size wait w) ops bytes
  unfolding notify_from
  notify_from-Inv [] w ops bytes o b = record { order = o; balance = b }
  notify_from-Inv (op ∷ rest) w ops bytes o b = elim (Bool-cases (leb (size op) w.have_write)) [
    | inr short ↦ rw short (record { order = o; balance = b })
    | inl enough ↦
        let le : size op ≤ w.have_write = ground (arith, enough) in
        rw enough (
          notify_from-Inv rest
            (record w { have_write = w.have_write - size op; done = w.done ++ (op ∷ []) }) ops bytes
            (append_assoc w.done (op ∷ []) rest ∙ o)
            (omega (arith, total-append w.done (op ∷ []), b)))
  ]

  -- `process_write` keeps the operations and their order.
  pub process_write_order :
      (w : Writes size)
      → (process_write size w).done ++ (process_write size w).wait_write_list
        ≡ w.done ++ w.wait_write_list
  unfolding process_write
  process_write_order w = (notify_from-Inv w.wait_write_list w _ _ refl refl).order

  run-Inv :
      (events : List (Event size)) (w : Writes size) (ops : List Op) (bytes : ℕ)
      → bytes + all_written events < 2 ^ 32
      → Inv w ops bytes
      → Inv (run size events w) (ops ++ all_flushed events) (bytes + all_written events)
  unfolding run step flush wrote process_write
  run-Inv [] w ops bytes room v = record {
    order = v.order ∙ sym (append-nil ops);
    balance = omega (arith, v.balance);
  }
  run-Inv (flushed op ∷ events) w ops bytes room v =
      let later =
        run-Inv events (record w { wait_write_list = w.wait_write_list ++ (op ∷ []) })
          (ops ++ (op ∷ [])) bytes room
          (record {
            order =
                sym (append_assoc w.done w.wait_write_list (op ∷ []))
                ∙ ap (λ l. l ++ (op ∷ [])) v.order;
            balance = v.balance;
          }) in
      record {
        order = later.order ∙ append_assoc ops (op ∷ []) (all_flushed events);
        balance = later.balance;
      }
  run-Inv (written rets ∷ events) w ops bytes room v =
      let added : write_sum size 0 rets ≡ 0 + sum rets = write_sum_lem 0 rets (omega arith) in
      let later =
        run-Inv events (record w { have_write = add64 w.have_write (write_sum size 0 rets) }) ops
          (bytes + sum rets) (omega arith)
          (record { order = v.order; balance = omega (arith, v.balance, added) }) in
      record { order = later.order; balance = omega (arith, later.balance) }
  run-Inv (processed ∷ events) w ops bytes room v =
      run-Inv events _ ops bytes room
        (notify_from-Inv w.wait_write_list w ops bytes v.order v.balance)

  -- Where the loop of `process_write` stops.
  notify_from-stops :
      (wait : List Op) (w : Writes size) (op : Op) (rest : List Op)
      → (notify_from size wait w).wait_write_list ≡ op ∷ rest
      → (notify_from size wait w).have_write < size op
  unfolding notify_from
  notify_from-stops [] w op rest = λ e. cc
  notify_from-stops (first ∷ wait) w op rest = elim (Bool-cases (leb (size first) w.have_write)) [
    | inl enough ↦ rw enough (notify_from-stops wait _ op rest)
    | inr short ↦ rw short (λ e.
        let is : first ≡ op = cc in
        let less : w.have_write < size first = ground (arith, short) in rw is at less)
  ]

  -- Whatever order operations are flushed, bytes are written and `process_write` is called in, as long as
  -- fewer than 2^32 bytes are written: the operations notified and then those that wait are those that were
  -- flushed, in order; the notified ones have no more bytes than were written; and after a last
  -- `process_write` the first that waits has, with the notified ones, more bytes than were written. Only the
  -- numbers of bytes are compared.
  pub notified_in_order :
      (events : List (Event size))
      → all_written events < 2 ^ 32
      → let w = process_write size (run size events (no_writes size)) in
        (w.done ++ w.wait_write_list ≡ all_flushed events)
        × (total w.done ≤ all_written events)
        × ((op : Op) (rest : List Op)
            → w.wait_write_list ≡ op ∷ rest
            → all_written events < total (w.done ++ (op ∷ [])))
  unfolding process_write
  notified_in_order events room =
      let w0 = run size events (no_writes size) in
      let v0 =
        run-Inv events (no_writes size) [] 0 (omega arith)
          (record { order = refl; balance = refl }) in
      let v = notify_from-Inv w0.wait_write_list w0 _ _ v0.order v0.balance in
      let w = notify_from size w0.wait_write_list w0 in
      (
        v.order,
        omega (arith, v.balance),
        λ op rest e.
            let stop = notify_from-stops w0.wait_write_list w0 op rest e in
            omega (arith, v.balance, total-append w.done (op ∷ []), stop),
      )
