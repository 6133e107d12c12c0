-- ===== src/IoBuffer/Pop/Front.antt =====
-- `size_t pop_front_n(char *dest, size_t)` (iobuffer/io_buffer.cpp).
use npoller.Base.{
  ℕ, ◌+◌, ◌-◌, ◌/◌, ◌^◌, ◌≤◌, ◌<◌, ◌≡◌, ◌⊎◌, inl, inr, refl, sym, ◌∙◌, List, [], length, take,
  length-take, take-nil, drop-nil, drop_all, take_all, drop, get_or, get_elem?-eq-get_or, leb,
  if◌then◌else◌, true, false, ◌==◌, ◌&&◌, add64, sub64, npos, dec_lt, arith,
}
use npoller.PageStore.{PageStore}
use npoller.Pages.{default_size}
use npoller.Pages.Copy.{copy_out_lem}
use npoller.IoBuffer.Block.{ControlBlock, Memory, shrink_size}
use npoller.IoBuffer.Pop.{reset, take_front, pop_front_n_to}
use npoller.IoBuffer.Push.Back.{page_at_lem}
use npoller.IoBuffer.Shrink.{shrink_size_of_empty, shrink_size_of_Holds}
use npoller.IoBuffer.View.{
  Holds, IsEmpty, Represents, Becomes, Delivers, check_of_spent, length-Holds, Holds-drop,
  bytes-front,
}

module _ (ps : PageStore) (m : Memory ps.Store) (b : ControlBlock) (xs : List ℕ) where
  -- The block that `take_front` hands to `__shrink_size`.
  shrink_front :
      (k : ℕ)
      → k ≤ b.end - b.begin
      → Represents ps m b xs
      → Holds m.cells b xs
      → Becomes ps
          (shrink_size ps m
            (if leb b.end (add64 b.begin k) then reset b else record b { begin = add64 b.begin k }))
          (drop k xs)
  shrink_front k le r h =
      let len = length-Holds m.cells b xs h in
      elim (dec_lt (b.begin + k) b.end) [
        | yes left ↦
            let more : leb b.end (add64 b.begin k) ≡ false = ground (arith, h.within, r.small) in
            let exact : add64 b.begin k ≡ b.begin + k = omega (arith, h.within, r.small) in
            rw (more, exact)
              (shrink_size_of_Holds ps m _ _ r.owns r.small (Holds-drop m.cells b xs k left h)).0
        | no all ↦
            let over : leb b.end (add64 b.begin k) ≡ true =
              ground (arith, h.within, r.small, h.order) in
            rw over
              (shrink_size_of_empty ps m (reset b) (drop k xs) r.owns
                (check_of_spent (reset b) (omega arith)) (drop_all k xs (omega (arith, len)))).0
      ]

  take_front_lem :
      (k : ℕ)
      → k ≤ b.end - b.begin
      → Represents ps m b xs
      → Holds m.cells b xs
      → Delivers ps (take_front ps k m b) (take k xs) (drop k xs)
  unfolding take_front
  take_front_lem k le r h =
      let s = shrink_front k le r h in
      let len : length (take k xs) ≡ k =
        omega (arith, length-take k xs, length-Holds m.cells b xs h) in
      let copied =
        copy_out_lem b.buffer k (get_or b.buffer (b.begin / default_size) 0) b.begin m.cells
          (omega (arith, h.order, h.within))
          (λ _.
            get_elem?-eq-get_or b.buffer (b.begin / default_size) 0
              (omega (arith, h.order, h.within))) in
      record {
        memory = s.memory;
        block = s.block;
        runs = rw (
          page_at_lem b.buffer b.begin (omega (arith, h.order, h.within)),
          copied,
          bytes-front m.cells b xs k le h,
          s.runs,
          len,
        );
        represents = s.represents;
      }

  empty_test : IsEmpty b xs → ((b.begin == npos) && leb b.end b.begin) ≡ true
  empty_test e = ground arith

  full_test :
      Represents ps m b xs → Holds m.cells b xs → ((b.begin == npos) && leb b.end b.begin) ≡ false
  full_test r h = ground (arith, r.small)

  -- On an empty buffer nothing is written and 0 is returned.
  pop_front_n_to_of_empty :
      (size : ℕ)
      → Represents ps m b xs
      → IsEmpty b xs
      → Delivers ps (pop_front_n_to ps size m b) [] []
  unfolding pop_front_n_to
  pop_front_n_to_of_empty size r e = record {
    memory = m;
    block = reset b;
    runs = rw (empty_test e);
    represents = record {
      owns = r.owns;
      small = r.small;
      view = inl (record { unset = refl; at_zero = refl; nothing = refl });
    };
  }

  -- The test `begin + size - 1 >= end` cuts `size` down to what is held, if it does not wrap.
  cut :
      (size : ℕ)
      → 0 < size + b.begin
      → size < 2 ^ 63
      → Represents ps m b xs
      → Holds m.cells b xs
      → (k : ℕ) × ((if leb b.end (sub64 (add64 b.begin size) 1) then sub64 b.end b.begin else size)
          ≡ k)
        × (k ≤ b.end - b.begin)
        × (take k xs ≡ take size xs)
        × (drop k xs ≡ drop size xs)
  cut size pos bound r h =
      let len = length-Holds m.cells b xs h in
      elim (dec_lt b.end (b.begin + size)) [
        | yes over ↦
            let whole : sub64 b.end b.begin ≡ b.end - b.begin = omega (arith, h.within, r.small) in
            let test : leb b.end (sub64 (add64 b.begin size) 1) ≡ true =
              ground (arith, h.within, r.small) in
            (
              b.end - b.begin,
              rw test whole,
              omega arith,
              take_all _ xs (omega (arith, len)) ∙ sym (take_all size xs (omega (arith, len))),
              drop_all _ xs (omega (arith, len)) ∙ sym (drop_all size xs (omega (arith, len))),
            )
        | no within ↦
            let test : leb b.end (sub64 (add64 b.begin size) 1) ≡ false =
              ground (arith, h.within, r.small, h.order) in
            (size, rw test, omega arith, refl, refl)
      ]

  -- `pop_front_n` into `dest` on a well-formed buffer writes the first `size` bytes, or all if there
  -- are fewer, returns how many they are and takes them away, provided that `size` is below 2^63,
  -- and that not both `size` and `begin` are 0.
  pub pop_front_n_to_lem :
      (size : ℕ)
      → 0 < size + b.begin
      → size < 2 ^ 63
      → Represents ps m b xs
      → Delivers ps (pop_front_n_to ps size m b) (take size xs) (drop size xs)
  unfolding pop_front_n_to
  pop_front_n_to_lem size pos bound r = split r.view
    where
      split :
          IsEmpty b xs ⊎ Holds m.cells b xs
          → Delivers ps (pop_front_n_to ps size m b) (take size xs) (drop size xs)
      split (inl e) = rw (e.nothing, take-nil, drop-nil) (pop_front_n_to_of_empty size r e)
      split (inr h) =
          let (k, cuts, le, same_take, same_drop) = cut size pos bound r h in
          rw (full_test r h, cuts, ← same_take, ← same_drop) (take_front_lem k le r h)

  -- `pop_front_n` into `dest` asked for 0 bytes of a well-formed buffer that is not empty and begins at position
  -- 0: `begin + size - 1` wraps, all bytes are written to `dest` and taken away.
  pop_front_n_to-zero :
      b.begin ≡ 0
      → Represents ps m b xs
      → Holds m.cells b xs
      → Delivers ps (pop_front_n_to ps 0 m b) xs []
  unfolding pop_front_n_to
  pop_front_n_to-zero at_start r h =
      let len = length-Holds m.cells b xs h in
      let test : leb b.end (sub64 (add64 b.begin 0) 1) ≡ true = ground (arith, h.within, r.small) in
      let whole : sub64 b.end b.begin ≡ b.end - b.begin = omega (arith, h.within, r.small) in
      rw (full_test r h, test, whole)
        (rw
          (
            take_all (b.end - b.begin) xs (omega (arith, len)),
            drop_all (b.end - b.begin) xs (omega (arith, len)),
          )
          at (take_front_lem (b.end - b.begin) (omega arith) r h))
