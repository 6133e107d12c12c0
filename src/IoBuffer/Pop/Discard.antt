-- ===== src/IoBuffer/Pop/Discard.antt =====
-- `void pop_back_n(size_t)` and `void pop_front_n(size_t)` (iobuffer/io_buffer.cpp).
use npoller.Base.{
  ℕ, ◌+◌, ◌-◌, ◌^◌, ◌≤◌, ◌<◌, ◌≡◌, ◌⊎◌, inl, inr, List, [], length, take, take-nil, drop-nil,
  drop_all, take_zero, drop, ltb, if◌then◌else◌, true, false, ◌==◌, ok, add64, sub64, npos,
  le→ltb_false, dec_lt, arith,
}
use npoller.PageStore.{PageStore}
use npoller.IoBuffer.Block.{ControlBlock, Memory, check}
use npoller.IoBuffer.Pop.{reset, pop_back_n, pop_front_n}
use npoller.IoBuffer.Shrink.{shrink_size_of_empty, shrink_size_of_Holds}
use npoller.IoBuffer.View.{
  Holds, IsEmpty, Represents, Becomes, check-Represents, check-Holds, check_of_spent, stays,
  length-Holds, Holds-drop, Holds-take,
}

-- Taking everything off either end leaves `check` to mark the buffer as empty.
check_all_back :
    (b : ControlBlock) (size : ℕ)
    → b.begin < b.end
    → b.end < 2 ^ 63
    → b.end ≤ b.begin + size
    → check
        (if ltb (sub64 b.end b.begin) size then reset b else record b { end = sub64 b.end size })
      ≡ ok (reset b)
unfolding check
check_all_back b size order small all = ground arith

check_all_front :
    (b : ControlBlock) (size : ℕ)
    → b.begin < b.end
    → b.end < 2 ^ 63
    → b.end ≤ b.begin + size
    → check (
        if ltb (sub64 b.end b.begin) size then reset b else record b { begin = add64 b.begin size })
      ≡ ok (reset b)
unfolding check
check_all_front b size order small all = ground arith

buffer_front :
    (b : ControlBlock) (size : ℕ)
    → (if ltb (sub64 b.end b.begin) size
        then reset b
        else record b { begin = add64 b.begin size }).buffer
      ≡ b.buffer
buffer_front b size = ground arith

module _ (ps : PageStore) (m : Memory ps.Store) (b : ControlBlock) (xs : List ℕ) where
  -- `void pop_back_n` on a well-formed buffer returns, and takes the last `size` bytes away, all of
  -- them if there are fewer.
  pub pop_back_n_lem :
      (size : ℕ)
      → Represents ps m b xs
      → Becomes ps (pop_back_n ps size m b) (take (length xs - size) xs)
  unfolding pop_back_n
  pop_back_n_lem size r = split r.view
    where
      split :
          IsEmpty b xs ⊎ Holds m.cells b xs
          → Becomes ps (pop_back_n ps size m b) (take (length xs - size) xs)
      split (inl e) =
          let marked : (b.begin == npos) ≡ true = ground arith in
          rw (check-Represents ps m b xs r, marked, e.nothing, take-nil)
            (stays ps m b [] (rw e.nothing at r))
      split (inr h) =
          let used : (b.begin == npos) ≡ false = ground (arith, r.small) in
          let len = length-Holds m.cells b xs h in
          elim (dec_lt (b.begin + size) b.end) [
            | yes left ↦
                let few : ltb (sub64 b.end b.begin) size ≡ false =
                  le→ltb_false _ _ (omega (arith, h.within, r.small)) in
                let exact : sub64 b.end size ≡ b.end - size = omega (arith, h.within, r.small) in
                let kept = Holds-take m.cells b xs size left h in
                rw
                  (
                    check-Represents ps m b xs r,
                    used,
                    few,
                    exact,
                    check-Holds m.cells _ _ r.small kept,
                  )
                  (shrink_size_of_Holds ps m _ _ r.owns r.small kept).0
            | no all ↦
                let met =
                  check_all_back b size h.order (omega (arith, h.within, r.small)) (omega arith) in
                rw (check-Represents ps m b xs r, used, met)
                  (shrink_size_of_empty ps m (reset b) (take (length xs - size) xs) r.owns
                    (check_of_spent (reset b) (omega arith))
                    (take_zero _ xs (omega (arith, len)))).0
          ]

  -- `void pop_front_n` on a well-formed buffer returns, and takes the first `size` bytes away, all of
  -- them if there are fewer.
  pub pop_front_n_lem :
      (size : ℕ) → Represents ps m b xs → Becomes ps (pop_front_n ps size m b) (drop size xs)
  unfolding pop_front_n
  pop_front_n_lem size r = split r.view
    where
      split :
          IsEmpty b xs ⊎ Holds m.cells b xs → Becomes ps (pop_front_n ps size m b) (drop size xs)
      split (inl e) =
          let marked : (b.begin == npos) ≡ true = ground arith in
          rw (check-Represents ps m b xs r, marked, e.nothing, drop-nil)
            (stays ps m b [] (rw e.nothing at r))
      split (inr h) =
          let used : (b.begin == npos) ≡ false = ground (arith, r.small) in
          let len = length-Holds m.cells b xs h in
          elim (dec_lt (b.begin + size) b.end) [
            | yes left ↦
                let few : ltb (sub64 b.end b.begin) size ≡ false =
                  le→ltb_false _ _ (omega (arith, h.within, r.small)) in
                let exact : add64 b.begin size ≡ b.begin + size =
                  omega (arith, h.within, r.small) in
                rw (check-Represents ps m b xs r, used, few, exact)
                  (shrink_size_of_Holds ps m _ _ r.owns r.small
                    (Holds-drop m.cells b xs size left h)).0
            | no all ↦
                let met =
                  check_all_front b size h.order (omega (arith, h.within, r.small)) (omega arith) in
                rw (check-Represents ps m b xs r, used)
                  (shrink_size_of_empty ps m _ (drop size xs) (rw (buffer_front b size) r.owns)
                    (rw (buffer_front b size) met) (drop_all size xs (omega (arith, len)))).0
          ]
