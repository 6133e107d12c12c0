-- ===== src/IoBuffer/Shrink.antt =====
-- `__shrink_size` (iobuffer/io_buffer.h) gives pages back and leaves the bytes alone.
use npoller.Base.{
  ℕ, zero, suc, ◌+◌, ◌-◌, ◌*◌, ◌/◌, ◌^◌, ◌≤◌, ◌<◌, ◌≡◌, ◌⊎◌, inl, inr, refl, sym, ap, ap₂, ◌∙◌,
  List, [], ◌∷◌, ◌++◌, length, init, init-last, length-init, ltb, ltb→lt, ltb_false→le, Bool-cases,
  false, Outcome, ok, sub64, npos, arith, ◌==◌,
}
use npoller.PageStore.{PageStore}
use npoller.Pages.{Cells, default_size}
use npoller.Pages.Bytes.{bytes, bytes-cons_page, bytes-append_pages}
use npoller.IoBuffer.Block.{
  ControlBlock, Memory, drop_front, drop_back, release_all, do_shrink_size, shrink_size, check,
  new_block,
}
use npoller.IoBuffer.View.{
  Owns, Holds, IsEmpty, Represents, Becomes, Owns-push_front, Owns-push_back, check-Holds,
  check-IsEmpty,
}

-- No page behind the one of `end`.
abbrev pub IsTight : ControlBlock → Type 0
IsTight b = length b.buffer ≤ b.end / default_size + 1

module _ (ps : PageStore) (c : Cells) (xs : List ℕ) where
  -- What a loop of `__shrink_size` ends with: fewer pages, the same bytes.
  record Shrunk (out : Outcome (ps.Store × ControlBlock)) (pages : ℕ)
      (Bound : ControlBlock → Type 0) : Type 0 where
    store : ps.Store
    block : ControlBlock
    runs : out ≡ ok (store, block)
    owns : Owns ps store block.buffer
    fewer : length block.buffer ≤ pages
    first : block.begin < default_size
    holds : Holds c block xs
    tight : Bound block

  Holds-drop_page :
      (p : ℕ) (qs : List ℕ) (begin end : ℕ)
      → default_size ≤ begin
      → suc (length qs) * default_size < 2 ^ 63
      → Holds c (record { buffer = p ∷ qs; begin = begin; end = end }) xs
      → Holds c
          (record { buffer = qs; begin = sub64 begin default_size; end = sub64 end default_size })
          xs
  Holds-drop_page p qs begin end le small h = record {
    order = omega arith;
    within = omega arith;
    held =
        sym (bytes-cons_page c p qs (sub64 begin default_size) _)
        ∙ ap₂ (bytes c (p ∷ qs)) (omega arith) (omega arith)
        ∙ h.held;
  }

  drop_front_lem :
      (fuel : ℕ) (s : ps.Store) (buffer : List ℕ) (begin end : ℕ)
      → begin / default_size < fuel
      → length buffer * default_size < 2 ^ 63
      → Owns ps s buffer
      → Holds c (record { buffer = buffer; begin = begin; end = end }) xs
      → Shrunk
          (drop_front ps fuel s (record { buffer = buffer; begin = begin; end = end }))
          (length buffer)
          (λ _. Unit)
  unfolding drop_front
  drop_front_lem zero s buffer begin end f small o h = absurd (omega arith)
  drop_front_lem (suc fuel) s [] begin end f small o h = absurd (omega arith)
  drop_front_lem (suc fuel) s (p ∷ qs) begin end f small o h =
      elim (Bool-cases (ltb 0 (begin / default_size))) [
        | inl t ↦
            let le : 0 < begin / default_size = ltb→lt _ _ t in
            let r =
              drop_front_lem fuel (ps.push s p) qs (sub64 begin default_size)
                (sub64 end default_size) (omega arith) (omega arith) (Owns-push_front ps s p qs o)
                (Holds-drop_page p qs begin end (omega arith) small h) in
            record {
              store = r.store;
              block = r.block;
              runs = rw t r.runs;
              owns = r.owns;
              fewer = omega (arith, r.fewer);
              first = r.first;
              holds = r.holds;
              tight = r.tight;
            }
        | inr t ↦ record {
          store = s;
          block = record { buffer = p ∷ qs; begin = begin; end = end };
          runs = rw t;
          owns = o;
          fewer = omega arith;
          first = omega (arith, ltb_false→le _ _ t);
          holds = h;
          tight = tt;
        }
      ]

  -- Pages behind the one of `end` hold no byte.
  Holds-drop_last :
      (qs : List ℕ) (p begin end : ℕ)
      → end ≤ length qs * default_size
      → Holds c (record { buffer = qs ++ (p ∷ []); begin = begin; end = end }) xs
      → Holds c (record { buffer = qs; begin = begin; end = end }) xs
  Holds-drop_last qs p begin end within h = record {
    order = h.order;
    within = within;
    held =
        sym (bytes-append_pages c qs (p ∷ []) begin (end - begin) (omega (arith, h.order)))
        ∙ h.held;
  }

  drop_back_lem :
      (fuel : ℕ) (s : ps.Store) (buffer : List ℕ) (begin end : ℕ)
      → length buffer < fuel
      → begin < default_size
      → Owns ps s buffer
      → Holds c (record { buffer = buffer; begin = begin; end = end }) xs
      → Shrunk
          (drop_back ps fuel s (record { buffer = buffer; begin = begin; end = end }))
          (length buffer)
          IsTight
  unfolding drop_back
  drop_back_lem zero s buffer begin end f lt o h = absurd (omega arith)
  drop_back_lem (suc fuel) s [] begin end f lt o h = absurd (omega arith)
  drop_back_lem (suc fuel) s (p ∷ qs) begin end f lt o h =
      elim (Bool-cases (ltb (end / default_size + 1) (length (p ∷ qs)))) [
        | inl t ↦
            let (l, last, split) = init-last p qs in
            let r =
              drop_back_lem fuel (ps.push s l) (init (p ∷ qs)) begin end
                (omega (arith, length-init p qs)) lt
                (Owns-push_back ps s l (init (p ∷ qs)) (rw split o))
                (Holds-drop_last (init (p ∷ qs)) l begin end
                  (omega (arith, length-init p qs, ltb→lt _ _ t)) (rw split h)) in
            record {
              store = r.store;
              block = r.block;
              runs = rw (t, last) r.runs;
              owns = r.owns;
              fewer = omega (arith, r.fewer, length-init p qs);
              first = r.first;
              holds = r.holds;
              tight = r.tight;
            }
        | inr t ↦ record {
          store = s;
          block = record { buffer = p ∷ qs; begin = begin; end = end };
          runs = rw t;
          owns = o;
          fewer = omega arith;
          first = lt;
          holds = h;
          tight = ltb_false→le _ _ t;
        }
      ]

  do_shrink_size-Holds :
      (s : ps.Store) (b : ControlBlock)
      → length b.buffer * default_size < 2 ^ 63
      → Owns ps s b.buffer
      → Holds c b xs
      → Shrunk (do_shrink_size ps s b) (length b.buffer) IsTight
  unfolding do_shrink_size
  do_shrink_size-Holds s b small o h =
      let not_npos : (b.begin == npos) ≡ false = ground arith in
      let r =
        drop_front_lem (b.begin / default_size + 1) s b.buffer b.begin b.end (omega arith) small o
          h in
      let t =
        drop_back_lem (length r.block.buffer + 1) r.store r.block.buffer r.block.begin r.block.end
          (omega arith) r.first r.owns r.holds in
      record {
        store = t.store;
        block = t.block;
        runs = rw (check-Holds c b xs small h, not_npos, r.runs) t.runs;
        owns = t.owns;
        fewer = omega (arith, r.fewer, t.fewer);
        first = t.first;
        holds = t.holds;
        tight = t.tight;
      }

module _ (ps : PageStore) where
  release_all-IsValid :
      (s : ps.Store) (qs : List ℕ) → Owns ps s qs → ps.IsValid (release_all ps s qs)
  unfolding release_all
  release_all-IsValid s [] o = o.valid
  release_all-IsValid s (p ∷ qs) o =
      release_all-IsValid (ps.push s p) qs (Owns-push_front ps s p qs o)

  -- A buffer that `check` finds empty gives all its pages back.
  pub shrink_size_of_empty :
      (m : Memory ps.Store) (b : ControlBlock) (xs : List ℕ)
      → Owns ps m.store b.buffer
      → check b ≡ ok (record b { begin = npos; end = 0 })
      → xs ≡ []
      → (r : Becomes ps (shrink_size ps m b) xs) × (r.block ≡ new_block)
  unfolding shrink_size do_shrink_size
  shrink_size_of_empty m b xs o e nil = (
    record {
      memory = record m { store = release_all ps m.store b.buffer };
      block = new_block;
      runs = rw e;
      represents = record {
        owns = record { valid = release_all-IsValid m.store b.buffer o; distinct = tt; ours = tt };
        small = omega arith;
        view = inl (record { unset = refl; at_zero = refl; nothing = nil });
      };
    },
    refl,
  )

  pub shrink_size_of_Holds :
      (m : Memory ps.Store) (b : ControlBlock) (xs : List ℕ)
      → Owns ps m.store b.buffer
      → length b.buffer * default_size < 2 ^ 63
      → Holds m.cells b xs
      → (r : Becomes ps (shrink_size ps m b) xs) × (r.block.begin < default_size) × IsTight r.block
  unfolding shrink_size
  shrink_size_of_Holds m b xs o small h =
      let r = do_shrink_size-Holds ps m.cells xs m.store b small o h in
      (
        record {
          memory = record m { store = r.store };
          block = r.block;
          runs = rw r.runs;
          represents = record { owns = r.owns; small = omega (arith, r.fewer); view = inr r.holds };
        },
        r.first,
        r.tight,
      )

  -- On a well-formed buffer `shrink_size()` returns, keeps the bytes, and leaves no page before the
  -- one of `begin` and none behind the one of `end`; an empty buffer keeps no page at all.
  pub shrink_size_lem :
      (m : Memory ps.Store) (b : ControlBlock) (xs : List ℕ)
      → Represents ps m b xs
      → (r : Becomes ps (shrink_size ps m b) xs) × ((r.block ≡ new_block)
          ⊎ ((r.block.begin < default_size) × IsTight r.block))
  shrink_size_lem m b xs r = split r.view
    where
      reset_eq : IsEmpty b xs → b ≡ record b { begin = npos; end = 0 }
      reset_eq e = ground arith

      split :
          IsEmpty b xs ⊎ Holds m.cells b xs
          → (r : Becomes ps (shrink_size ps m b) xs) × ((r.block ≡ new_block)
              ⊎ ((r.block.begin < default_size) × IsTight r.block))
      split (inl e) =
          let (t, gone) =
            shrink_size_of_empty m b xs r.owns (check-IsEmpty b xs e ∙ ap ok (reset_eq e))
              e.nothing in
          (t, inl gone)
      split (inr h) =
          let (t, first, tight) = shrink_size_of_Holds m b xs r.owns r.small h in
          (t, inr (first, tight))
