-- ===== src/IoBuffer/Move/SelfFront/Bytes.antt =====
-- The loop over the bytes of `self_pop_back_to_front_n` (iobuffer/io_buffer.cpp).
use npoller.Base.{
  ℕ, zero, suc, ◌+◌, ◌-◌, ◌*◌, ◌/◌, ◌%◌, ◌^◌, ◌≤◌, ◌<◌, ◌≡◌, ◌≢◌, inl, inr, refl, sym, ap, subst,
  ◌∙◌, false, Bool-cases, ◌==◌, ltb, if◌then◌else◌, List, [], ◌∷◌, ◌++◌, append-nil, append_assoc,
  length, length-append, get_or, get_elem?, get_elem?-eq-get_or, init, last?, init-append,
  last?-append, unsnoc, some, Outcome, ok, checked, ◌>>=◌, add64, sub64, arith,
}
use npoller.PageStore.{PageStore}
use npoller.Pages.{default_size, page_at}
use npoller.Pages.Copy.{IsCached}
use npoller.IoBuffer.Block.{Memory}
use npoller.IoBuffer.Push.Back.{page_at_lem}
use npoller.IoBuffer.View.{Owns}
use npoller.IoBuffer.Move.{One}
use npoller.IoBuffer.Move.Span.{Span, Span-length, Span-cons_page, Span-drop_last}
use npoller.IoBuffer.Move.Span.Front.{Span-last, Span-put_front}
use npoller.IoBuffer.Move.Owned.{Owns-to_front, Owns-alloc}
use npoller.IoBuffer.Move.Turning.{Turning}
use npoller.IoBuffer.Move.SelfFront.{copy_one, make_front_room, refresh, move_bytes}

-- The page of the byte before a position.
pub page_before_lem :
    (buffer : List ℕ) (pos : ℕ)
    → 0 < pos
    → pos ≤ length buffer * default_size
    → length buffer * default_size < 2 ^ 63
    → page_at buffer (sub64 pos 1 / default_size) ≡ ok (get_or buffer ((pos - 1) / default_size) 0)
page_before_lem buffer pos more h small =
    let e : sub64 pos 1 ≡ pos - 1 = omega arith in rw e (page_at_lem buffer (pos - 1) (omega arith))

pub IsCached-before :
    (buffer : List ℕ) (pos : ℕ)
    → 0 < pos
    → pos ≤ length buffer * default_size
    → IsCached buffer (get_or buffer ((pos - 1) / default_size) 0) pos
IsCached-before buffer pos more h inside =
    let same : pos / default_size ≡ (pos - 1) / default_size = omega arith in
    rw same (get_elem?-eq-get_or buffer ((pos - 1) / default_size) 0 (omega arith))

pub block_before_lem :
    (buffer : List ℕ) (block pos : ℕ)
    → 0 < pos
    → pos ≤ length buffer * default_size
    → length buffer * default_size < 2 ^ 63
    → IsCached buffer block pos
    → (if pos % default_size == 0 then page_at buffer (sub64 pos 1 / default_size) else ok block)
      ≡ ok (get_or buffer ((pos - 1) / default_size) 0)
block_before_lem buffer block pos more h small cached =
    elim (Bool-cases (pos % default_size == 0)) [
      | inl at_page ↦ rw at_page (page_before_lem buffer pos more h small)
      | inr begun ↦
          let ne : pos % default_size ≢ 0 = let e = begun in ground arith in
          let same : pos / default_size ≡ (pos - 1) / default_size = omega arith in
          let here = get_elem?-eq-get_or buffer ((pos - 1) / default_size) 0 (omega arith) in
          let held : get_elem? buffer ((pos - 1) / default_size) ≡ some block =
            rw same at (cached ne) in
          rw begun (ap checked (sym held ∙ here))
    ]

module _ (ps : PageStore) where
  abbrev one : Memory ps.Store → List ℕ → ℕ → ℕ → One ps
  one m buffer begin end = record {
    memory = m;
    this = record { buffer = buffer; begin = begin; end = end };
  }

  -- The state behind `make_front_room`.
  record Room (xs : List ℕ) (out : Outcome (One ps)) : Type 0 where
    after : One ps
    runs : out ≡ ok after
    turning : Turning ps after xs
    room : after.this.begin ≡ default_size

  -- The last page becomes the first.
  turn_page :
      (m : Memory ps.Store) (buffer front : List ℕ) (p e : ℕ) (xs : List ℕ)
      → buffer ≡ front ++ (p ∷ [])
      → e ≤ length front * default_size
      → length front * default_size + default_size < 2 ^ 63
      → Turning ps (one m buffer 0 e) xs
      → Room xs (
          checked (last? buffer) >>= λ p.
          ok (one m (init (p ∷ buffer)) default_size (e + default_size)))
  turn_page m buffer front p e xs split free bound v =
      let last : last? buffer ≡ some p = ap last? split ∙ last?-append front p in
      let rest : init (p ∷ buffer) ≡ p ∷ front =
        ap (λ l. init (p ∷ l)) split ∙ init-append (p ∷ front) p in
      rw (last, rest)
        (record {
          after = one m (p ∷ front) default_size (e + default_size);
          runs = refl;
          turning = record {
            owns = Owns-to_front ps m.store p front (subst (Owns ps m.store) split v.owns);
            span = Span-cons_page m.cells front 0 e xs p (
                Span-drop_last m.cells front p 0 e xs free
                  (subst (λ l. Span m.cells l 0 e xs) split v.span));
            small = omega arith;
          };
          room = refl;
        })

  make_front_room_lem :
      (m : Memory ps.Store) (buffer : List ℕ) (e : ℕ) (xs : List ℕ)
      → 0 < length xs
      → length xs + 2 * default_size < 2 ^ 63
      → Turning ps (one m buffer 0 e) xs
      → Room xs (make_front_room ps (one m buffer 0 e))
  unfolding make_front_room
  make_front_room_lem m buffer e xs more bound v =
      let len = Span-length m.cells buffer 0 e xs v.span in
      let w = v.span.within in
      let sm = v.small in
      let back : sub64 e 1 ≡ e - 1 = omega arith in
      let pages : sub64 (length buffer) 1 ≡ length buffer - 1 = omega arith in
      let eb : add64 0 default_size ≡ default_size = omega arith in
      let ee : add64 e default_size ≡ e + default_size = omega arith in
      elim (Bool-cases (ltb (sub64 e 1 / default_size) (sub64 (length buffer) 1))) [
        | inl spare ↦
            let free : (e - 1) / default_size < length buffer - 1 = let h = spare in ground arith in
            let (front, p, split) = unsnoc buffer (omega arith) in
            let count : length buffer ≡ length front + 1 =
              ap length split ∙ length-append front (p ∷ []) in
            rw (spare, eb, ee) (turn_page m buffer front p e xs split (omega arith) (omega arith) v)
        | inr used ↦
            let none_free : length buffer - 1 ≤ (e - 1) / default_size =
              let h = used in ground arith in
            rw (used, eb, ee)
              (record {
                after =
                    one (record m { store = (ps.alloc m.store).1 }) ((ps.alloc m.store).0 ∷ buffer)
                      default_size (e + default_size);
                runs = refl;
                turning = record {
                  owns = Owns-alloc ps m.store buffer v.owns;
                  span = Span-cons_page m.cells buffer 0 e xs (ps.alloc m.store).0 v.span;
                  small = omega arith;
                };
                room = refl;
              })
      ]

  -- The state behind `refresh`, with both pages cached.
  record Ready (xs : List ℕ) (out : Outcome (ℕ × ℕ × One ps)) : Type 0 where
    from : ℕ
    to : ℕ
    after : One ps
    runs : out ≡ ok (from, to, after)
    turning : Turning ps after xs
    room : 0 < after.this.begin
    from_cached : IsCached after.this.buffer from after.this.end
    to_cached : IsCached after.this.buffer to after.this.begin

  refresh_lem :
      (from to : ℕ) (m : Memory ps.Store) (buffer : List ℕ) (b e : ℕ) (xs : List ℕ)
      → 0 < length xs
      → length xs + 2 * default_size < 2 ^ 63
      → Turning ps (one m buffer b e) xs
      → IsCached buffer from e
      → IsCached buffer to b
      → Ready xs (refresh ps from to (one m buffer b e))
  unfolding refresh
  refresh_lem from to m buffer (suc b) e xs more bound v cached cached' =
      let set : (suc b == 0) ≡ false = ground arith in
      rw set (record {
        from = from;
        to = to;
        after = one m buffer (suc b) e;
        runs = refl;
        turning = v;
        room = omega arith;
        from_cached = cached;
        to_cached = cached';
      })
  refresh_lem from to m buffer zero e xs more bound v cached cached' =
      let r = make_front_room_lem m buffer e xs more bound v in
      let a = r.after in
      let len =
        Span-length a.memory.cells a.this.buffer a.this.begin a.this.end xs r.turning.span in
      let w = r.turning.span.within in
      let at_page = r.room in
      record {
        from = get_or a.this.buffer ((a.this.end - 1) / default_size) 0;
        to = get_or a.this.buffer ((a.this.begin - 1) / default_size) 0;
        after = a;
        runs =
            rw
              (
                r.runs,
                page_before_lem a.this.buffer a.this.begin (omega arith) (omega arith)
                    r.turning.small,
                page_before_lem a.this.buffer a.this.end (omega arith) w r.turning.small,
              )
              refl;
        turning = r.turning;
        room = omega arith;
        from_cached = IsCached-before a.this.buffer a.this.end (omega arith) w;
        to_cached = IsCached-before a.this.buffer a.this.begin (omega arith) (omega arith);
      }

  -- The state behind one byte, with the pages of both positions cached.
  pub record Copied (t after : One ps) (from to : ℕ) (xs : List ℕ) : Type 0 where
    pub turning : Turning ps after xs
    pub begins : after.this.begin ≡ t.this.begin - 1
    pub ends : after.this.end ≡ t.this.end - 1
    pub pages : after.this.buffer ≡ t.this.buffer
    pub from_cached : IsCached after.this.buffer from after.this.end
    pub to_cached : IsCached after.this.buffer to after.this.begin

  pub copy_one_lem :
      (t : One ps) (x : ℕ) (xs : List ℕ)
      → 0 < t.this.begin
      → Turning ps t (xs ++ (x ∷ []))
      → let from = get_or t.this.buffer ((t.this.end - 1) / default_size) 0 in
        let to = get_or t.this.buffer ((t.this.begin - 1) / default_size) 0 in
        Copied t (copy_one ps from to t) from to (x ∷ xs)
  unfolding copy_one
  copy_one_lem t x xs room v =
      let c = t.memory.cells in
      let (more, same, _) = Span-last c t.this.buffer t.this.begin t.this.end xs x v.span in
      let sm = v.small in
      let w = v.span.within in
      let eb : sub64 t.this.begin 1 ≡ t.this.begin - 1 = omega arith in
      let ee : sub64 t.this.end 1 ≡ t.this.end - 1 = omega arith in
      let longer =
        Span-put_front c t.this.buffer t.this.begin t.this.end (xs ++ (x ∷ [])) x v.owns.distinct
          room v.span in
      let (_, _, turned) =
        Span-last _ t.this.buffer (t.this.begin - 1) t.this.end (x ∷ xs) x longer in
      rw (eb, ee, same)
        (record {
          turning = record { owns = v.owns; span = turned; small = v.small };
          begins = refl;
          ends = refl;
          pages = refl;
          from_cached = λ inside.
              get_elem?-eq-get_or t.this.buffer ((t.this.end - 1) / default_size) 0 (omega arith);
          to_cached = λ inside.
              get_elem?-eq-get_or t.this.buffer ((t.this.begin - 1) / default_size) 0 (omega arith);
        })

  pub record Turned (out : Outcome (One ps)) (xs : List ℕ) : Type 0 where
    pub result : One ps
    pub runs : out ≡ ok result
    pub turning : Turning ps result xs

  -- The loop returns, and has moved the bytes `ws`.
  pub move_bytes_lem :
      (n : ℕ) (ws : List ℕ) (from to : ℕ) (t : One ps) (xs : List ℕ)
      → length ws ≡ n
      → length (xs ++ ws) + 2 * default_size < 2 ^ 63
      → Turning ps t (xs ++ ws)
      → IsCached t.this.buffer from t.this.end
      → IsCached t.this.buffer to t.this.begin
      → Turned (move_bytes ps n from to t) (ws ++ xs)
  unfolding move_bytes
  move_bytes_lem zero [] from to t xs len bound v cached cached' = record {
    result = t;
    runs = refl;
    turning = rw append-nil at v;
  }
  move_bytes_lem zero (w ∷ ws) from to t xs len bound v cached cached' = absurd (omega arith)
  move_bytes_lem (suc n) ws from to t xs len bound v cached cached' =
      let (front, x, split) = unsnoc ws (omega arith) in
      let count : length ws ≡ length front + 1 = ap length split ∙ length-append front (x ∷ []) in
      let total = length-append xs ws in
      let r =
        refresh_lem from to t.memory t.this.buffer t.this.begin t.this.end (xs ++ ws) (omega arith)
          bound v cached cached' in
      let a = r.after in
      let s =
        Span-length a.memory.cells a.this.buffer a.this.begin a.this.end (xs ++ ws)
          r.turning.span in
      let w = r.turning.span.within in
      let to_page =
        block_before_lem a.this.buffer r.to a.this.begin r.room (omega arith) r.turning.small
          r.to_cached in
      let from_page =
        block_before_lem a.this.buffer r.from a.this.end (omega arith) w r.turning.small
          r.from_cached in
      let v' : Turning ps a ((xs ++ front) ++ (x ∷ [])) =
        subst (Turning ps a) (ap (λ l. xs ++ l) split ∙ sym (append_assoc xs front (x ∷ [])))
          r.turning in
      let c = copy_one_lem a x (xs ++ front) r.room v' in
      let from' = get_or a.this.buffer ((a.this.end - 1) / default_size) 0 in
      let to' = get_or a.this.buffer ((a.this.begin - 1) / default_size) 0 in
      let total' = length-append (x ∷ xs) front in
      let rest =
        move_bytes_lem n front from' to' (copy_one ps from' to' a) (x ∷ xs) (omega arith)
          (omega arith) c.turning c.from_cached c.to_cached in
      record {
        result = rest.result;
        runs = rw (r.runs, to_page, from_page) rest.runs;
        turning =
            subst (Turning ps rest.result)
              (sym (append_assoc front (x ∷ []) xs) ∙ ap (λ l. l ++ xs) (sym split)) rest.turning;
      }
