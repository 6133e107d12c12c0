-- ===== src/IoBuffer/Move/ToFront/Bytes.antt =====
-- The loop over the bytes of `other_pop_back_to_front_n` (iobuffer/io_buffer.cpp).
use npoller.Base.{
  ℕ, zero, suc, ◌+◌, ◌-◌, ◌*◌, ◌/◌, ◌^◌, ◌≤◌, ◌<◌, ◌≡◌, inl, inr, refl, sym, ap, subst, ◌∙◌, false,
  Bool-cases, ◌==◌, ltb, ◌&&◌, List, [], ◌∷◌, ◌++◌, append-nil, append_assoc, length, length-append,
  get_or, get_elem?-eq-get_or, init, last?, init-append, last?-append, unsnoc, some, Outcome, ok,
  checked, ◌>>=◌, add64, sub64, Distinct-apart, Distinct-append_right, arith,
}
use npoller.PageStore.{PageStore}
use npoller.Pages.{default_size}
use npoller.Pages.Copy.{IsCached}
use npoller.IoBuffer.Block.{Memory}
use npoller.IoBuffer.Push.Back.{page_at_lem}
use npoller.IoBuffer.View.{Owns}
use npoller.IoBuffer.Move.{Two}
use npoller.IoBuffer.Move.Span.{Span, Span-length, Span-cons_page, Span-drop_last, Span-write_apart}
use npoller.IoBuffer.Move.Span.Front.{Span-last, Span-put_front}
use npoller.IoBuffer.Move.Owned.{Moving, Owns-front_middle, Owns-to_front, Owns-alloc}
use npoller.IoBuffer.Move.ToFront.{copy_one, make_front_room, refresh, move_bytes}
use npoller.IoBuffer.Move.SelfFront.Bytes.{page_before_lem, block_before_lem, IsCached-before}

module _ (ps : PageStore) where
  abbrev two : Memory ps.Store → List ℕ → ℕ → ℕ → List ℕ → ℕ → ℕ → Two ps
  two m buffer begin end buffer' begin' end' = record {
    memory = m;
    this = record { buffer = buffer; begin = begin; end = end };
    other = record { buffer = buffer'; begin = begin'; end = end' };
  }

  -- The state behind `make_front_room`.
  record Room (pages : ℕ) (xs ys : List ℕ) (out : Outcome (Two ps)) : Type 0 where
    after : Two ps
    runs : out ≡ ok after
    moving : Moving ps after xs ys
    room : after.other.begin ≡ default_size
    some_page : 1 < length after.other.buffer
    no_more : length after.other.buffer ≤ pages + 1
    more : after.this.begin < after.this.end

  -- The last page of `*this` becomes the first of `other`.
  page_from_this :
      (m : Memory ps.Store) (buffer front : List ℕ) (p b e : ℕ) (buffer' : List ℕ) (e' : ℕ)
      (xs ys : List ℕ)
      → buffer ≡ front ++ (p ∷ [])
      → b < e
      → e ≤ length front * default_size
      → length buffer' * default_size + default_size < 2 ^ 63
      → 0 < length buffer'
      → Moving ps (two m buffer b e buffer' 0 e') xs ys
      → Room (length buffer') xs ys (
          checked (last? buffer) >>= λ p.
          ok (two m (init buffer) b e (p ∷ buffer') default_size (e' + default_size)))
  page_from_this m buffer front p b e buffer' e' xs ys split more free bound page v =
      let last : last? buffer ≡ some p = ap last? split ∙ last?-append front p in
      let rest : init buffer ≡ front = ap init split ∙ init-append front p in
      let o : Owns ps m.store (front ++ (p ∷ buffer')) =
        subst (Owns ps m.store) (ap (λ l. l ++ buffer') split ∙ append_assoc front (p ∷ []) buffer')
          v.owns in
      let count : length buffer ≡ length front + 1 =
        ap length split ∙ length-append front (p ∷ []) in
      let sm = v.this_small in
      rw (last, rest)
        (record {
          after = two m front b e (p ∷ buffer') default_size (e' + default_size);
          runs = refl;
          moving = record {
            owns = o;
            this_span =
                Span-drop_last m.cells front p b e xs free
                  (subst (λ l. Span m.cells l b e xs) split v.this_span);
            other_span = Span-cons_page m.cells buffer' 0 e' ys p v.other_span;
            this_small = omega arith;
            other_small = omega arith;
          };
          room = refl;
          some_page = omega arith;
          no_more = omega arith;
          more = more;
        })

  -- The last page of `other` becomes its first.
  page_from_other :
      (m : Memory ps.Store) (buffer : List ℕ) (b e : ℕ) (buffer' front : List ℕ) (p e' : ℕ)
      (xs ys : List ℕ)
      → buffer' ≡ front ++ (p ∷ [])
      → b < e
      → e' ≤ length front * default_size
      → 0 < length front
      → Moving ps (two m buffer b e buffer' 0 e') xs ys
      → Room (length buffer') xs ys (
          checked (last? buffer') >>= λ p.
          ok (two m buffer b e (init (p ∷ buffer')) default_size (e' + default_size)))
  page_from_other m buffer b e buffer' front p e' xs ys split more free page v =
      let last : last? buffer' ≡ some p = ap last? split ∙ last?-append front p in
      let rest : init (p ∷ buffer') ≡ p ∷ front =
        ap (λ l. init (p ∷ l)) split ∙ init-append (p ∷ front) p in
      let o : Owns ps m.store ((buffer ++ front) ++ (p ∷ [])) =
        subst (Owns ps m.store)
          (ap (λ l. buffer ++ l) split ∙ sym (append_assoc buffer front (p ∷ []))) v.owns in
      let count : length buffer' ≡ length front + 1 =
        ap length split ∙ length-append front (p ∷ []) in
      let sm = v.other_small in
      rw (last, rest)
        (record {
          after = two m buffer b e (p ∷ front) default_size (e' + default_size);
          runs = refl;
          moving = record {
            owns =
                Owns-front_middle ps m.store buffer p front
                  (Owns-to_front ps m.store p (buffer ++ front) o);
            this_span = v.this_span;
            other_span = Span-cons_page m.cells front 0 e' ys p (
                Span-drop_last m.cells front p 0 e' ys free
                  (subst (λ l. Span m.cells l 0 e' ys) split v.other_span));
            this_small = v.this_small;
            other_small = omega arith;
          };
          room = refl;
          some_page = omega arith;
          no_more = omega arith;
          more = more;
        })

  new_page :
      (m : Memory ps.Store) (buffer : List ℕ) (b e : ℕ) (buffer' : List ℕ) (e' : ℕ) (xs ys : List ℕ)
      → b < e
      → length buffer' * default_size + default_size < 2 ^ 63
      → 0 < length buffer'
      → Moving ps (two m buffer b e buffer' 0 e') xs ys
      → Room (length buffer') xs ys (
          ok (
            two
              (record m { store = (ps.alloc m.store).1 })
              buffer
              b
              e
              ((ps.alloc m.store).0 ∷ buffer')
              default_size
              (e' + default_size)))
  new_page m buffer b e buffer' e' xs ys more bound page v = record {
    after =
        two (record m { store = (ps.alloc m.store).1 }) buffer b e ((ps.alloc m.store).0 ∷ buffer')
          default_size (e' + default_size);
    runs = refl;
    moving = record {
      owns =
          Owns-front_middle ps (ps.alloc m.store).1 buffer (ps.alloc m.store).0 buffer'
            (Owns-alloc ps m.store (buffer ++ buffer') v.owns);
      this_span = v.this_span;
      other_span = Span-cons_page m.cells buffer' 0 e' ys (ps.alloc m.store).0 v.other_span;
      this_small = v.this_small;
      other_small = omega arith;
    };
    room = refl;
    some_page = omega arith;
    no_more = omega arith;
    more = more;
  }

  make_front_room_lem :
      (m : Memory ps.Store) (buffer : List ℕ) (b e : ℕ) (buffer' : List ℕ) (e' : ℕ) (xs ys : List ℕ)
      → b < e
      → length buffer' * default_size + default_size < 2 ^ 63
      → 0 < length buffer'
      → Moving ps (two m buffer b e buffer' 0 e') xs ys
      → Room (length buffer') xs ys (make_front_room ps (two m buffer b e buffer' 0 e'))
  unfolding make_front_room
  make_front_room_lem m buffer b e buffer' e' xs ys more bound page v =
      let w = v.this_span.within in
      let w' = v.other_span.within in
      let sm = v.this_small in
      let eb : add64 0 default_size ≡ default_size = omega arith in
      let ee : add64 e' default_size ≡ e' + default_size = omega arith in
      elim (Bool-cases (ltb (sub64 e 1 / default_size) (sub64 (length buffer) 1))) [
        | inl spare ↦
            let free : sub64 e 1 / default_size < sub64 (length buffer) 1 =
              let h = spare in ground arith in
            let (front, p, split) = unsnoc buffer (omega arith) in
            let count : length buffer ≡ length front + 1 =
              ap length split ∙ length-append front (p ∷ []) in
            rw (spare, eb, ee)
              (page_from_this m buffer front p b e buffer' e' xs ys split more (omega arith) bound
                page v)
        | inr used ↦
            elim (Bool-cases (
              ltb 0 (length buffer')
              && ltb (sub64 e' 1 / default_size) (sub64 (length buffer') 1))) [
                | inl spare ↦
                    let free : sub64 e' 1 / default_size < sub64 (length buffer') 1 =
                      let h = spare in ground arith in
                    let (front, p, split) = unsnoc buffer' (omega arith) in
                    let count : length buffer' ≡ length front + 1 =
                      ap length split ∙ length-append front (p ∷ []) in
                    rw (used, spare, eb, ee)
                      (page_from_other m buffer b e buffer' front p e' xs ys split more
                        (omega arith) (omega arith) v)
                | inr none ↦
                    rw (used, none, eb, ee)
                      (new_page m buffer b e buffer' e' xs ys more bound page v)
              ]
      ]

  -- The state behind `refresh`, with both pages cached.
  record Ready (t : Two ps) (xs ys : List ℕ) (out : Outcome (ℕ × ℕ × Two ps)) : Type 0 where
    from : ℕ
    to : ℕ
    after : Two ps
    runs : out ≡ ok (from, to, after)
    moving : Moving ps after xs ys
    room : 0 < after.other.begin
    no_more :
        length after.other.buffer * default_size + t.other.begin
        ≤ length t.other.buffer * default_size + after.other.begin
    some_page : 0 < length after.other.buffer
    from_cached : IsCached after.this.buffer from after.this.end
    to_cached : IsCached after.other.buffer to after.other.begin

  refresh_lem :
      (from to : ℕ) (m : Memory ps.Store) (buffer : List ℕ) (b e : ℕ) (buffer' : List ℕ) (b' e' : ℕ)
      (xs ys : List ℕ)
      → b < e
      → length buffer' * default_size + default_size < 2 ^ 63 + b'
      → 0 < length buffer'
      → Moving ps (two m buffer b e buffer' b' e') xs ys
      → IsCached buffer from e
      → IsCached buffer' to b'
      → Ready
          (two m buffer b e buffer' b' e')
          xs
          ys
          (refresh ps from to (two m buffer b e buffer' b' e'))
  unfolding refresh
  refresh_lem from to m buffer b e buffer' (suc b') e' xs ys more bound page v cached cached' =
      let set : (suc b' == 0) ≡ false = ground arith in
      rw set (record {
        from = from;
        to = to;
        after = two m buffer b e buffer' (suc b') e';
        runs = refl;
        moving = v;
        room = omega arith;
        no_more = omega arith;
        some_page = page;
        from_cached = cached;
        to_cached = cached';
      })
  refresh_lem from to m buffer b e buffer' zero e' xs ys more bound page v cached cached' =
      let r = make_front_room_lem m buffer b e buffer' e' xs ys more (omega arith) page v in
      let a = r.after in
      let some_byte = r.more in
      let w = r.moving.this_span.within in
      let at_page = r.room in
      let pages = r.some_page in
      let grown = r.no_more in
      let sm = r.moving.other_small in
      let index : a.other.begin / default_size ≡ 1 = omega arith in
      record {
        from = get_or a.this.buffer ((a.this.end - 1) / default_size) 0;
        to = get_or a.other.buffer (a.other.begin / default_size) 0;
        after = a;
        runs =
            rw
              (
                r.runs,
                page_before_lem a.this.buffer a.this.end (omega arith) w r.moving.this_small,
                page_at_lem a.other.buffer a.other.begin (omega arith),
              )
              refl;
        moving = r.moving;
        room = omega arith;
        no_more = omega arith;
        some_page = omega arith;
        from_cached = IsCached-before a.this.buffer a.this.end (omega arith) w;
        to_cached = λ inside. absurd (inside (omega arith));
      }

  -- The state behind one byte, with the pages of both positions cached.
  pub record Copied (t after : Two ps) (from to : ℕ) (xs ys : List ℕ) : Type 0 where
    pub moving : Moving ps after xs ys
    pub begins : after.other.begin ≡ t.other.begin - 1
    pub ends : after.this.end ≡ t.this.end - 1
    pub this_pages : after.this.buffer ≡ t.this.buffer
    pub other_pages : after.other.buffer ≡ t.other.buffer
    pub from_cached : IsCached after.this.buffer from after.this.end
    pub to_cached : IsCached after.other.buffer to after.other.begin

  pub copy_one_lem :
      (t : Two ps) (x : ℕ) (xs ys : List ℕ)
      → 0 < t.other.begin
      → Moving ps t (xs ++ (x ∷ [])) ys
      → let from = get_or t.this.buffer ((t.this.end - 1) / default_size) 0 in
        let to = get_or t.other.buffer ((t.other.begin - 1) / default_size) 0 in
        Copied t (copy_one ps from to t) from to xs (x ∷ ys)
  unfolding copy_one
  copy_one_lem t x xs ys room v =
      let c = t.memory.cells in
      let to = get_or t.other.buffer ((t.other.begin - 1) / default_size) 0 in
      let (more, same, less) = Span-last c t.this.buffer t.this.begin t.this.end xs x v.this_span in
      let sm = v.this_small in
      let sm' = v.other_small in
      let w = v.this_span.within in
      let o' = v.other_span.order in
      let w' = v.other_span.within in
      let eb : sub64 t.other.begin 1 ≡ t.other.begin - 1 = omega arith in
      let ee : sub64 t.this.end 1 ≡ t.this.end - 1 = omega arith in
      let apart =
        Distinct-apart t.this.buffer t.other.buffer ((t.other.begin - 1) / default_size)
          v.owns.distinct (omega arith) in
      rw (eb, ee, same)
        (record {
          moving = record {
            owns = v.owns;
            this_span =
                Span-write_apart c t.this.buffer t.this.begin (t.this.end - 1) xs to _ x apart less;
            other_span =
                Span-put_front c t.other.buffer t.other.begin t.other.end ys x
                  (Distinct-append_right t.this.buffer t.other.buffer v.owns.distinct) room
                  v.other_span;
            this_small = v.this_small;
            other_small = v.other_small;
          };
          begins = refl;
          ends = refl;
          this_pages = refl;
          other_pages = refl;
          from_cached = λ inside.
              get_elem?-eq-get_or t.this.buffer ((t.this.end - 1) / default_size) 0 (omega arith);
          to_cached = λ inside.
              get_elem?-eq-get_or t.other.buffer ((t.other.begin - 1) / default_size) 0
                (omega arith);
        })

  pub record Moved (out : Outcome (Two ps)) (xs ys : List ℕ) : Type 0 where
    pub result : Two ps
    pub runs : out ≡ ok result
    pub moving : Moving ps result xs ys

  -- The loop returns, and has moved the bytes `ws`.
  pub move_bytes_lem :
      (n : ℕ) (ws : List ℕ) (from to : ℕ) (t : Two ps) (xs ys : List ℕ)
      → length ws ≡ n
      → length t.other.buffer * default_size + n + default_size < 2 ^ 63 + t.other.begin
      → 0 < length t.other.buffer
      → Moving ps t (xs ++ ws) ys
      → IsCached t.this.buffer from t.this.end
      → IsCached t.other.buffer to t.other.begin
      → Moved (move_bytes ps n from to t) xs (ws ++ ys)
  unfolding move_bytes
  move_bytes_lem zero [] from to t xs ys len bound page v cached cached' = record {
    result = t;
    runs = refl;
    moving = rw append-nil at v;
  }
  move_bytes_lem zero (w ∷ ws) from to t xs ys len bound page v cached cached' =
      absurd (omega arith)
  move_bytes_lem (suc n) ws from to t xs ys len bound page v cached cached' =
      let (front, x, split) = unsnoc ws (omega arith) in
      let count : length ws ≡ length front + 1 = ap length split ∙ length-append front (x ∷ []) in
      let total = length-append xs ws in
      let s =
        Span-length t.memory.cells t.this.buffer t.this.begin t.this.end (xs ++ ws) v.this_span in
      let r =
        refresh_lem from to t.memory t.this.buffer t.this.begin t.this.end t.other.buffer
          t.other.begin t.other.end (xs ++ ws) ys (omega arith) (omega arith) page v cached
          cached' in
      let a = r.after in
      let s' =
        Span-length a.memory.cells a.this.buffer a.this.begin a.this.end (xs ++ ws)
          r.moving.this_span in
      let w = r.moving.this_span.within in
      let o' = r.moving.other_span.order in
      let w' = r.moving.other_span.within in
      let grown = r.no_more in
      let to_page =
        block_before_lem a.other.buffer r.to a.other.begin r.room (omega arith) r.moving.other_small
          r.to_cached in
      let from_page =
        block_before_lem a.this.buffer r.from a.this.end (omega arith) w r.moving.this_small
          r.from_cached in
      let v' : Moving ps a ((xs ++ front) ++ (x ∷ [])) ys =
        subst (λ l. Moving ps a l ys)
          (ap (λ l. xs ++ l) split ∙ sym (append_assoc xs front (x ∷ []))) r.moving in
      let c = copy_one_lem a x (xs ++ front) ys r.room v' in
      let begins = c.begins in
      let same : length (copy_one ps _ _ a).other.buffer ≡ length a.other.buffer =
        ap length c.other_pages in
      let from' = get_or a.this.buffer ((a.this.end - 1) / default_size) 0 in
      let to' = get_or a.other.buffer ((a.other.begin - 1) / default_size) 0 in
      let some_left = r.room in
      let some_page = r.some_page in
      let rest =
        move_bytes_lem n front from' to' (copy_one ps from' to' a) xs (x ∷ ys) (omega arith)
          (omega arith) (omega arith) c.moving c.from_cached c.to_cached in
      record {
        result = rest.result;
        runs = rw (r.runs, to_page, from_page) rest.runs;
        moving =
            subst (Moving ps rest.result xs)
              (sym (append_assoc front (x ∷ []) ys) ∙ ap (λ l. l ++ ys) (sym split)) rest.moving;
      }
