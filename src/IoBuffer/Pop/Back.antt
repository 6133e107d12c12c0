-- ===== src/IoBuffer/Pop/Back.antt =====
-- `size_t pop_back_n(char *dest, size_t)` (iobuffer/io_buffer.cpp).
use npoller.Base.{
  ℕ, ◌+◌, ◌-◌, ◌/◌, ◌≤◌, ◌<◌, ◌≡◌, ◌⊎◌, inl, inr, refl, ap, ap₂, ◌∙◌, List, [], length, length-drop,
  take, take-nil, drop-nil, drop_all, take_all, take_zero, drop_zero, drop, get_or,
  get_elem?-eq-get_or, leb, ltb, if◌then◌else◌, true, false, ◌==◌, ◌&&◌, ok, add64, sub64, npos,
  dec_lt, arith,
}
use npoller.PageStore.{PageStore}
use npoller.Pages.{default_size}
use npoller.Pages.Bytes.{bytes, bytes-drop}
use npoller.Pages.Copy.{copy_out_lem}
use npoller.IoBuffer.Block.{ControlBlock, Memory, shrink_size}
use npoller.IoBuffer.Pop.{reset, take_back, pop_back_n_to}
use npoller.IoBuffer.Push.Back.{page_at_lem}
use npoller.IoBuffer.Shrink.{shrink_size_of_empty, shrink_size_of_Holds}
use npoller.IoBuffer.View.{
  Holds, IsEmpty, Represents, Becomes, Delivers, check_of_spent, length-Holds, Holds-take,
}

-- What the code takes off the back: all bytes if more are asked for than there are, and otherwise
-- `size - begin` bytes (none if that is negative), since its `n` leaves `begin` out.
abbrev pub popped_back : ℕ → ControlBlock → ℕ
popped_back size b = if ltb (b.end - b.begin) size then b.end - b.begin else size - b.begin

module _ (ps : PageStore) (m : Memory ps.Store) (b : ControlBlock) (xs : List ℕ) where
  shrink_back :
      (k : ℕ)
      → k ≤ b.end - b.begin
      → Represents ps m b xs
      → Holds m.cells b xs
      → Becomes ps
          (shrink_size ps m
            (if leb (sub64 b.end k) b.begin then reset b else record b { end = sub64 b.end k }))
          (take (length xs - k) xs)
  shrink_back k le r h =
      let len = length-Holds m.cells b xs h in
      let exact : sub64 b.end k ≡ b.end - k = omega (arith, h.within, r.small) in
      elim (dec_lt (b.begin + k) b.end) [
        | yes left ↦
            let more : leb (sub64 b.end k) b.begin ≡ false = ground (arith, h.within, r.small) in
            rw (more, exact)
              (shrink_size_of_Holds ps m _ _ r.owns r.small (Holds-take m.cells b xs k left h)).0
        | no all ↦
            let over : leb (sub64 b.end k) b.begin ≡ true =
              ground (arith, h.within, r.small, h.order) in
            rw over
              (shrink_size_of_empty ps m (reset b) (take (length xs - k) xs) r.owns
                (check_of_spent (reset b) (omega arith)) (take_zero _ xs (omega (arith, len)))).0
      ]

  bytes-back :
      (from k : ℕ)
      → from + k ≡ b.end
      → b.begin ≤ from
      → Holds m.cells b xs
      → bytes m.cells b.buffer from k ≡ drop (length xs - k) xs
  bytes-back from k ends after h =
      let len = length-Holds m.cells b xs h in
      ap₂ (bytes m.cells b.buffer) (omega (arith, len)) (omega (arith, len))
      ∙ bytes-drop m.cells b.buffer b.begin (length xs - k) (b.end - b.begin) (omega (arith, len))
      ∙ ap (drop (length xs - k)) h.held

  take_back_lem :
      (from k : ℕ)
      → from + k ≡ b.end
      → b.begin ≤ from
      → 0 < k
      → Represents ps m b xs
      → Holds m.cells b xs
      → Delivers ps (take_back ps from k m b) (drop (length xs - k) xs) (take (length xs - k) xs)
  unfolding take_back
  take_back_lem from k ends after pos r h =
      let s = shrink_back k (omega arith) r h in
      let len : length (drop (length xs - k) xs) ≡ k =
        omega (arith, length-drop (length xs - k) xs, length-Holds m.cells b xs h) in
      let copied =
        copy_out_lem b.buffer k (get_or b.buffer (from / default_size) 0) from m.cells
          (omega (arith, h.order, h.within))
          (λ _.
            get_elem?-eq-get_or b.buffer (from / default_size) 0
              (omega (arith, h.order, h.within))) in
      record {
        memory = s.memory;
        block = s.block;
        runs = rw (
          page_at_lem b.buffer from (omega (arith, h.order, h.within)),
          copied,
          bytes-back from k ends after h,
          s.runs,
          len,
        );
        represents = s.represents;
      }

  empty_test : IsEmpty b xs → ((b.begin == npos) && leb b.end b.begin) ≡ true
  empty_test e = ground arith

  full_test :
      Represents ps m b xs → Holds m.cells b xs → ((b.begin == npos) && leb b.end b.begin) ≡ false
  full_test r h = ground (arith, r.small)

  pop_back_n_to_of_empty :
      (size : ℕ)
      → Represents ps m b xs
      → IsEmpty b xs
      → Delivers ps (pop_back_n_to ps size m b) [] []
  unfolding pop_back_n_to
  pop_back_n_to_of_empty size r e = record {
    memory = m;
    block = reset b;
    runs = rw (empty_test e);
    represents = record {
      owns = r.owns;
      small = r.small;
      view = inl (record { unset = refl; at_zero = refl; nothing = refl });
    };
  }

  -- `pop_back_n` into `dest` on a well-formed buffer that holds at least `size` bytes returns 0 and does
  -- nothing if `size` is at most `begin`.
  pop_back_n_to-stuck :
      (size : ℕ)
      → size ≤ b.begin
      → size ≤ b.end - b.begin
      → Represents ps m b xs
      → Holds m.cells b xs
      → pop_back_n_to ps size m b ≡ ok ((0, []), (m, b))
  unfolding pop_back_n_to
  pop_back_n_to-stuck size before fits r h =
      let test : leb size (sub64 b.end b.begin) ≡ true =
        ground (arith, h.within, r.small, h.order) in
      let none_left : leb (sub64 b.end b.begin) (sub64 b.end size) ≡ true =
        ground (arith, h.within, r.small, h.order) in
      rw (full_test r h, test, none_left)

  -- More bytes asked for than there are: all of them.
  pop_all :
      (size : ℕ)
      → b.end - b.begin < size
      → Represents ps m b xs
      → Holds m.cells b xs
      → Delivers ps (pop_back_n_to ps size m b) xs []
  unfolding pop_back_n_to
  pop_all size over r h =
      let len = length-Holds m.cells b xs h in
      let whole : sub64 b.end b.begin ≡ b.end - b.begin = omega (arith, h.within, r.small) in
      let test : leb size (sub64 b.end b.begin) ≡ false =
        ground (arith, h.within, r.small, h.order) in
      let some_left : leb (b.end - b.begin) 0 ≡ false = ground (arith, h.order) in
      let from : add64 b.begin 0 ≡ b.begin = omega (arith, h.order, h.within, r.small) in
      let fits : leb b.end (sub64 (add64 b.begin (b.end - b.begin)) 1) ≡ false =
        ground (arith, h.within, r.small, h.order) in
      rw (full_test r h, test, whole, some_left, from, fits)
        (rw
          (
            drop_zero (length xs - (b.end - b.begin)) xs (omega (arith, len)),
            take_zero (length xs - (b.end - b.begin)) xs (omega (arith, len)),
          )
          at
          (take_back_lem b.begin (b.end - b.begin) (omega (arith, h.order)) (omega arith)
            (omega (arith, h.order)) r h))

  -- Between: `size - begin` bytes.
  pop_some :
      (size : ℕ)
      → b.begin < size
      → size ≤ b.end - b.begin
      → Represents ps m b xs
      → Holds m.cells b xs
      → Delivers ps
          (pop_back_n_to ps size m b)
          (drop (length xs - (size - b.begin)) xs)
          (take (length xs - (size - b.begin)) xs)
  unfolding pop_back_n_to
  pop_some size before fits r h =
      let from = b.begin + b.end - size in
      let test : leb size (sub64 b.end b.begin) ≡ true =
        ground (arith, h.within, r.small, h.order) in
      let some_left : leb (sub64 b.end b.begin) (sub64 b.end size) ≡ false =
        ground (arith, h.within, r.small, h.order) in
      let start : add64 b.begin (sub64 b.end size) ≡ from =
        omega (arith, h.order, h.within, r.small) in
      let shorter : (if leb b.end (sub64 (add64 from size) 1) then sub64 b.end from else size)
          ≡ size - b.begin =
        ground (arith, h.within, r.small, h.order) in
      rw (full_test r h, test, some_left, start, shorter)
        (take_back_lem from (size - b.begin) (omega arith) (omega arith) (omega arith) r h)

  pop_back_n_to_popped :
      (size : ℕ)
      → Represents ps m b xs
      → Delivers ps
          (pop_back_n_to ps size m b)
          (drop (length xs - popped_back size b) xs)
          (take (length xs - popped_back size b) xs)
  pop_back_n_to_popped size r = split r.view
    where
      stuck :
          size ≤ b.begin
          → size ≤ b.end - b.begin
          → Holds m.cells b xs
          → Delivers ps (pop_back_n_to ps size m b) [] xs
      stuck before fits h = record {
        memory = m;
        block = b;
        runs = pop_back_n_to-stuck size before fits r h;
        represents = r;
      }

      split :
          IsEmpty b xs ⊎ Holds m.cells b xs
          → Delivers ps
              (pop_back_n_to ps size m b)
              (drop (length xs - popped_back size b) xs)
              (take (length xs - popped_back size b) xs)
      split (inl e) = rw (e.nothing, take-nil, drop-nil) (pop_back_n_to_of_empty size r e)
      split (inr h) =
          let len = length-Holds m.cells b xs h in
          elim (dec_lt (b.end - b.begin) size) [
            | yes over ↦
                let k : popped_back size b ≡ b.end - b.begin = ground arith in
                rw
                  (
                    k,
                    drop_zero (length xs - (b.end - b.begin)) xs (omega (arith, len)),
                    take_zero (length xs - (b.end - b.begin)) xs (omega (arith, len)),
                  )
                  (pop_all size over r h)
            | no fits ↦
                let k : popped_back size b ≡ size - b.begin = ground arith in
                elim (dec_lt b.begin size) [
                  | yes past ↦ rw k (pop_some size past (omega arith) r h)
                  | no before ↦
                      rw
                        (
                          k,
                          drop_all (length xs - (size - b.begin)) xs (omega arith),
                          take_all (length xs - (size - b.begin)) xs (omega arith),
                        )
                        (stuck (omega arith) (omega arith) h)
                ]
          ]

  -- `pop_back_n` into `dest` on a well-formed buffer writes the last `k` bytes, returns their number and takes
  -- them away: `k` is all that are held where these are fewer than `size`, and else `size` less `begin`, or 0
  -- where `begin` is more.
  pub pop_back_n_to_lem :
      (size : ℕ)
      → Represents ps m b xs
      → let k = if ltb (length xs) size then length xs else size - b.begin in
        Delivers ps (pop_back_n_to ps size m b) (drop (length xs - k) xs) (take (length xs - k) xs)
  pop_back_n_to_lem size r = rw (same r.view) at (pop_back_n_to_popped size r)
    where
      same :
          IsEmpty b xs ⊎ Holds m.cells b xs
          → length xs - popped_back size b
            ≡ length xs - (if ltb (length xs) size then length xs else size - b.begin)
      same (inl e) = let none : length xs ≡ 0 = ap length e.nothing in omega arith
      same (inr h) = ground (arith, length-Holds m.cells b xs h)
