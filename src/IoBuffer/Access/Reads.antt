-- ===== src/IoBuffer/Access/Reads.antt =====
-- `get`, `get_n` and `set` against the list of bytes that the buffer holds.
use npoller.Base.{
  ℕ, zero, suc, ◌+◌, ◌-◌, ◌*◌, ◌/◌, ◌%◌, ◌^◌, ◌<◌, ◌≡◌, ◌⊎◌, inl, inr, refl, sym, ap, ◌∙◌, List,
  length, length-take, take, drop, get_or, get_elem?-eq-get_or, leb, ltb, if◌then◌else◌, true,
  false, ◌==◌, ◌&&◌, ◌||◌, ok, err, logic_error, add64, sub64, npos, dec_lt, arith, drop-nil,
  take-nil, drop_all, length-drop, take-min, get_elem?_past, min, undefined_behaviour,
}
use npoller.Base.{set as list_set}
use npoller.PageStore.{PageStore}
use npoller.Pages.{Cells, default_size, write}
use npoller.Pages.Bytes.{bytes, byte_at, bytes-drop, bytes-take, bytes-write}
use npoller.Pages.Copy.{copy_out_lem}
use npoller.IoBuffer.Block.{ControlBlock, Memory}
use npoller.IoBuffer.Access.{get, get_n, set}
use npoller.IoBuffer.Push.Back.{page_at_lem}
use npoller.IoBuffer.View.{Holds, IsEmpty, Represents, length-Holds}

-- The byte at a position, as an element of the bytes of a range.
byte_at-bytes :
    (c : Cells) (ps : List ℕ) (b n i : ℕ)
    → i < n
    → byte_at c ps (b + i) ≡ get_or (bytes c ps b n) i 0
unfolding bytes
byte_at-bytes c ps b zero i h = absurd (omega arith)
byte_at-bytes c ps b (suc n) zero h = ap (byte_at c ps) (omega arith)
byte_at-bytes c ps b (suc n) (suc i) h =
    ap (byte_at c ps) (omega arith) ∙ byte_at-bytes c ps (b + 1) n i (omega arith)

module _ (ps : PageStore) (m : Memory ps.Store) (b : ControlBlock) (xs : List ℕ) where
  -- `get(n)` on a well-formed buffer returns the byte number `n`, and throws if there is none.
  get_lem :
      (n : ℕ)
      → Represents ps m b xs
      → get n m.cells b ≡ (if ltb n (length xs) then ok (get_or xs n 0) else err logic_error)
  unfolding get
  get_lem n r = split r.view
    where
      split :
          IsEmpty b xs ⊎ Holds m.cells b xs
          → get n m.cells b ≡ (if ltb n (length xs) then ok (get_or xs n 0) else err logic_error)
      split (inl e) =
          let test : (leb (sub64 b.end b.begin) n || (b.begin == npos)) ≡ true = ground arith in
          let nothing_there : ltb n 0 ≡ false = ground arith in rw (test, e.nothing, nothing_there)
      split (inr h) =
          let len = length-Holds m.cells b xs h in
          elim (dec_lt n (length xs)) [
            | yes within ↦
                let test : (leb (sub64 b.end b.begin) n || (b.begin == npos)) ≡ false =
                  ground (arith, h.order, h.within, r.small) in
                let here : ltb n (length xs) ≡ true = ground arith in
                let pos : add64 b.begin n ≡ b.begin + n = omega (arith, h.within, r.small, len) in
                rw
                  (
                    test,
                    here,
                    pos,
                    page_at_lem b.buffer (b.begin + n) (omega (arith, h.within, len)),
                  )
                  (ap ok (
                    byte_at-bytes m.cells b.buffer b.begin (b.end - b.begin) n (omega (arith, len))
                    ∙ ap (λ l. get_or l n 0) h.held))
            | no past ↦
                let test : (leb (sub64 b.end b.begin) n || (b.begin == npos)) ≡ true =
                  ground (arith, h.order, h.within, r.small, len) in
                let gone : ltb n (length xs) ≡ false = ground arith in rw (test, gone)
          ]

  -- `get_n(n, dest, size)` on a well-formed buffer writes up to `size` bytes from number `n` on,
  -- returns how many they are, and changes nothing, provided that `size` is below 2^63 and that
  -- `begin`, `n` and `size` are not all 0.
  pub get_n_lem :
      (n size : ℕ)
      → 0 < b.begin + n + size
      → size < 2 ^ 63
      → Represents ps m b xs
      → get_n n size m.cells b ≡ ok ((length (take size (drop n xs)), take size (drop n xs)), b)
  unfolding get_n
  get_n_lem n size pos bound r = split r.view
    where
      split :
          IsEmpty b xs ⊎ Holds m.cells b xs
          → get_n n size m.cells b ≡ ok ((length (take size (drop n xs)), take size (drop n xs)), b)
      split (inl e) =
          let test : ((b.begin == npos) && leb b.end b.begin) ≡ true = ground arith in
          let same : record b { begin = npos; end = 0 } ≡ b = ground arith in
          rw (test, e.nothing, drop-nil, take-nil, same)
      split (inr h) =
          let len = length-Holds m.cells b xs h in
          let test : ((b.begin == npos) && leb b.end b.begin) ≡ false =
            ground (arith, r.small, h.order, h.within) in
          elim (dec_lt n (length xs)) [
            | yes within ↦
                let k = min size (length xs - n) in
                let here : leb (sub64 b.end b.begin) n ≡ false =
                  ground (arith, h.order, h.within, r.small, len) in
                let from : add64 b.begin n ≡ b.begin + n = omega (arith, h.within, r.small, len) in
                let cut : (if leb b.end (sub64 (add64 (b.begin + n) size) 1)
                      then sub64 b.end (b.begin + n)
                      else size)
                    ≡ k =
                  ground (arith, h.order, h.within, r.small, len) in
                let copied =
                  copy_out_lem b.buffer k (get_or b.buffer ((b.begin + n) / default_size) 0)
                    (b.begin + n) m.cells (omega (arith, h.within, len))
                    (λ _.
                      get_elem?-eq-get_or b.buffer ((b.begin + n) / default_size) 0
                        (omega (arith, h.within, len))) in
                let read : bytes m.cells b.buffer (b.begin + n) k ≡ take size (drop n xs) =
                  bytes-take m.cells b.buffer (b.begin + n) k (b.end - b.begin - n)
                    (omega (arith, len))
                  ∙ ap (take k) (
                      bytes-drop m.cells b.buffer b.begin n (b.end - b.begin) (omega (arith, len))
                      ∙ ap (drop n) h.held)
                  ∙ ap (λ l. take (min size l) (drop n xs)) (sym (length-drop n xs))
                  ∙ take-min size (drop n xs) in
                let count : k ≡ length (take size (drop n xs)) =
                  omega (arith, length-take size (drop n xs), length-drop n xs) in
                rw
                  (
                    test,
                    here,
                    from,
                    cut,
                    page_at_lem b.buffer (b.begin + n) (omega (arith, h.within, len)),
                    copied,
                    read,
                  )
                  (ap (λ l. ok ((l, take size (drop n xs)), b)) count)
            | no past ↦
                let gone : leb (sub64 b.end b.begin) n ≡ true =
                  ground (arith, h.order, h.within, r.small, len) in
                rw (test, gone, drop_all n xs (omega arith), take-nil)
          ]

  -- `set(n, v)` at a byte that a well-formed buffer holds returns and replaces that byte alone.
  set_lem :
      (n v : ℕ)
      → n < length xs
      → Represents ps m b xs
      → Holds m.cells b xs
      → (c : Cells) × (set n v m.cells b ≡ ok c)
        × Represents ps (record m { cells = c }) b (list_set xs n v)
  unfolding set
  set_lem n v within r h =
      let len = length-Holds m.cells b xs h in
      let test : ltb (sub64 b.end b.begin) n ≡ false =
        ground (arith, h.order, h.within, r.small, len) in
      let pos : add64 b.begin n ≡ b.begin + n = omega (arith, h.within, r.small, len) in
      let c =
        write m.cells (get_or b.buffer ((b.begin + n) / default_size) 0)
          ((b.begin + n) % default_size) v in
      (
        c,
        rw (test, pos, page_at_lem b.buffer (b.begin + n) (omega (arith, h.within, len))),
        record {
          owns = r.owns;
          small = r.small;
          view = inr (record {
            order = h.order;
            within = h.within;
            held =
                bytes-write b.buffer r.owns.distinct m.cells b.begin (b.end - b.begin) n v
                  (b.begin + n) refl (omega (arith, len)) (omega (arith, h.order, h.within))
                ∙ ap (λ l. list_set l n v) h.held;
          });
        },
      )

  -- The guard of `set` lets `n` be the number of bytes held. If the bytes of a well-formed buffer that
  -- is not empty end where its pages end, the write then has no page to go to.
  set-past_end :
      (v : ℕ)
      → b.end ≡ length b.buffer * default_size
      → Represents ps m b xs
      → Holds m.cells b xs
      → set (length xs) v m.cells b ≡ err undefined_behaviour
  unfolding set
  set-past_end v full r h =
      let len = length-Holds m.cells b xs h in
      let test : ltb (sub64 b.end b.begin) (length xs) ≡ false =
        ground (arith, h.order, h.within, r.small, len) in
      let page : add64 b.begin (length xs) / default_size ≡ length b.buffer =
        omega (arith, h.order, r.small, len) in
      rw (test, page, get_elem?_past b.buffer (length b.buffer) (omega arith))
