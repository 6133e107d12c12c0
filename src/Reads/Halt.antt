-- ===== src/Reads/Halt.antt =====
-- Where `process_read` stops, and what it leaves alone (io/io.cpp).
use npoller.Base.{◌≡◌, ◌⊎◌, inl, inr, refl, false, Bool-cases, List, [], ◌∷◌, Option, none, some}
use npoller.Reads.{IoOp, Requests, read_from, read_temp, process_read}

module _ (ops : IoOp) where
  -- No read waits, or the first that does has just refused the bytes that are in the buffer.
  pub Halted : Requests ops → Type 0
  Halted s =
      ((s.temp_read_event ≡ none) × (s.read_list ≡ []))
      ⊎ ((op : ops.Op) × (b : ops.Buffer) × ((ops.process op b).0 ≡ false)
          × (s.temp_read_event ≡ some (ops.process op b).1)
          × (s.read_buffer ≡ (ops.process op b).2))

  -- The writes, notified or not.
  unfoldable pub SameWrites : Requests ops → Requests ops → Type 0
  SameWrites s t =
      (t.failed ≡ s.failed)
      × (t.write_list ≡ s.write_list)
      × (t.writing ≡ s.writing)
      × (t.left ≡ s.left)

  read_from-Halted :
      (list : List ops.Op) (s : Requests ops)
      → s.temp_read_event ≡ none
      → Halted (read_from ops list s) × SameWrites s (read_from ops list s)
  unfolding read_from Halted SameWrites
  read_from-Halted [] s e = (inl (e, refl), (refl, refl, refl, refl))
  read_from-Halted (op ∷ rest) s e = elim (Bool-cases (ops.process op s.read_buffer).0) [
    | inl ready ↦ rw ready (read_from-Halted rest _ e)
    | inr later ↦ rw later (inr (op, s.read_buffer, later, refl, refl), (refl, refl, refl, refl))
  ]

  read_temp-Halted :
      (temp : Option ops.Op) (s : Requests ops)
      → s.temp_read_event ≡ temp
      → Halted (read_temp ops temp s) × SameWrites s (read_temp ops temp s)
  unfolding Halted SameWrites
  read_temp-Halted none s e = read_from-Halted s.read_list s e
  read_temp-Halted (some op) s e = elim (Bool-cases (ops.process op s.read_buffer).0) [
    | inl ready ↦ rw ready (read_from-Halted s.read_list _ refl)
    | inr later ↦ rw later (inr (op, s.read_buffer, later, refl, refl), (refl, refl, refl, refl))
  ]

  pub process_read-Halted :
      (s : Requests ops) → Halted (process_read ops s) × SameWrites s (process_read ops s)
  unfolding process_read
  process_read-Halted s = read_temp-Halted s.temp_read_event s refl
