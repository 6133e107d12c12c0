-- ===== src/IoBuffer/View.antt =====
-- What an `io_buffer` holds, seen as a list of bytes: the abstract view that the operations of
-- iobuffer/io_buffer.cpp are proved to refine, and the well-formedness that it asks for.
use npoller.Base.{
  ℕ, ◌+◌, ◌-◌, ◌*◌, ◌^◌, ◌≤◌, ◌<◌, ◌≡◌, ◌≢◌, ◌⊎◌, inl, inr, refl, sym, subst, ◌∙◌, List, [], ◌∷◌,
  ◌++◌, length, take, drop, ap, All, All-imp, All-append, All-append_left, All-append_right,
  Distinct, Distinct-append_one, Distinct-append_left, Distinct-last, Outcome, ok, npos, arith,
}
use npoller.PageStore.{PageStore}
use npoller.Pages.{Cells, default_size}
use npoller.Pages.Bytes.{bytes, length-bytes, bytes-drop, bytes-take}
use npoller.IoBuffer.Block.{ControlBlock, Memory, check}

-- The pages differ from one another and from what the store may hand out.
pub record Owns (ps : PageStore) (s : ps.Store) (pages : List ℕ) : Type 0 where
  pub valid : ps.IsValid s
  pub distinct : Distinct pages
  pub ours : All (λ p. ¬ ps.Owned s p) pages

-- A buffer that is not empty and holds `xs`.
pub record Holds (c : Cells) (b : ControlBlock) (xs : List ℕ) : Type 0 where
  pub order : b.begin < b.end
  pub within : b.end ≤ length b.buffer * default_size
  pub held : bytes c b.buffer b.begin (b.end - b.begin) ≡ xs

-- An empty buffer is marked by `begin == -1` and `end == 0`.
pub record IsEmpty (b : ControlBlock) (xs : List ℕ) : Type 0 where
  pub unset : b.begin ≡ npos
  pub at_zero : b.end ≡ 0
  pub nothing : xs ≡ []

pub record Represents (ps : PageStore) (m : Memory ps.Store) (b : ControlBlock) (xs : List ℕ)
    : Type 0 where
  pub owns : Owns ps m.store b.buffer
  -- The pages fit into half the address space.
  pub small : length b.buffer * default_size < 2 ^ 63
  pub view : IsEmpty b xs ⊎ Holds m.cells b xs

-- The call returns, and the buffer is then well-formed and holds `xs`.
pub record Becomes (ps : PageStore) (out : Outcome (Memory ps.Store × ControlBlock)) (xs : List ℕ)
    : Type 0 where
  pub memory : Memory ps.Store
  pub block : ControlBlock
  pub runs : out ≡ ok (memory, block)
  pub represents : Represents ps memory block xs

-- The call returns, has written `dest` and says how long it is, and the buffer then holds `rest`.
pub record Delivers (ps : PageStore)
    (out : Outcome ((ℕ × List ℕ) × (Memory ps.Store × ControlBlock))) (dest rest : List ℕ)
    : Type 0 where
  pub memory : Memory ps.Store
  pub block : ControlBlock
  pub runs : out ≡ ok ((length dest, dest), (memory, block))
  pub represents : Represents ps memory block rest

module _ (ps : PageStore) where
  not-Owned-ne :
      (s : ps.Store) (p : ℕ) (qs : List ℕ)
      → ps.Owned s p
      → All (λ q. ¬ ps.Owned s q) qs
      → All (λ q. q ≢ p) qs
  not-Owned-ne s p qs own h = All-imp _ _ qs (λ q nq e. nq (subst (ps.Owned s) (sym e) own)) h

  not-Owned-get :
      (s : ps.Store) (qs : List ℕ)
      → ps.IsValid s
      → All (λ q. ¬ ps.Owned s q) qs
      → All (λ q. ¬ ps.Owned (ps.get s).1 q) qs
  not-Owned-get s qs v h = All-imp _ _ qs (λ q nq o. nq (ps.Owned-get s q v o).0) h

  get_not-Owned : (s : ps.Store) → ps.IsValid s → ¬ ps.Owned (ps.get s).1 (ps.get s).0
  get_not-Owned s v o = (ps.Owned-get s (ps.get s).0 v o).1 refl

  not-Owned-push : (s : ps.Store) (p q : ℕ) → ¬ ps.Owned s q → q ≢ p → ¬ ps.Owned (ps.push s p) q
  not-Owned-push s p q nq ne o = split (ps.Owned-push s p q o)
    where
      split : ps.Owned s q ⊎ (q ≡ p) → ⊥
      split (inl own) = nq own
      split (inr e) = ne e

  All-not-Owned-push :
      (s : ps.Store) (p : ℕ) (qs : List ℕ)
      → All (λ q. ¬ ps.Owned s q) qs
      → All (λ q. q ≢ p) qs
      → All (λ q. ¬ ps.Owned (ps.push s p) q) qs
  All-not-Owned-push s p [] h n = tt
  All-not-Owned-push s p (q ∷ qs) h n =
      (not-Owned-push s p q h.0 n.0, All-not-Owned-push s p qs h.1 n.1)

  All-ne-sym : (p : ℕ) (qs : List ℕ) → All (λ q. p ≢ q) qs → All (λ q. q ≢ p) qs
  All-ne-sym p qs = All-imp _ _ qs (λ q ne e. ne (sym e))

  -- A page goes back to the store, from the front or from the back of the deque.
  pub Owns-push_front :
      (s : ps.Store) (p : ℕ) (qs : List ℕ) → Owns ps s (p ∷ qs) → Owns ps (ps.push s p) qs
  Owns-push_front s p qs o = record {
    valid = ps.push-IsValid s p o.valid o.ours.0;
    distinct = o.distinct.1;
    ours = All-not-Owned-push s p qs o.ours.1 (All-ne-sym p qs o.distinct.0);
  }

  pub Owns-push_back :
      (s : ps.Store) (p : ℕ) (qs : List ℕ) → Owns ps s (qs ++ (p ∷ [])) → Owns ps (ps.push s p) qs
  Owns-push_back s p qs o = record {
    valid = ps.push-IsValid s p o.valid (All-append_right _ qs (p ∷ []) o.ours).0;
    distinct = Distinct-append_left qs (p ∷ []) o.distinct;
    ours =
        All-not-Owned-push s p qs (All-append_left _ qs (p ∷ []) o.ours)
          (Distinct-last qs p o.distinct);
  }

  -- A page comes from the store, to the back or to the front of the deque.
  pub Owns-get_back :
      (s : ps.Store) (qs : List ℕ) → Owns ps s qs → Owns ps (ps.get s).1 (qs ++ ((ps.get s).0 ∷ []))
  Owns-get_back s qs o = record {
    valid = ps.get-IsValid s o.valid;
    distinct =
        Distinct-append_one qs (ps.get s).0 o.distinct
          (not-Owned-ne s (ps.get s).0 qs (ps.get-Owned s o.valid) o.ours);
    ours =
        All-append _ qs ((ps.get s).0 ∷ []) (not-Owned-get s qs o.valid o.ours)
          (get_not-Owned s o.valid, tt);
  }

  pub Owns-get_front :
      (s : ps.Store) (qs : List ℕ) → Owns ps s qs → Owns ps (ps.get s).1 ((ps.get s).0 ∷ qs)
  Owns-get_front s qs o = record {
    valid = ps.get-IsValid s o.valid;
    distinct = (All-imp _ _ qs (λ q ne e. ne (sym e)) apart, o.distinct);
    ours = (get_not-Owned s o.valid, not-Owned-get s qs o.valid o.ours);
  }
    where
      apart : All (λ q. q ≢ (ps.get s).0) qs
      apart = not-Owned-ne s (ps.get s).0 qs (ps.get-Owned s o.valid) o.ours

-- `check` leaves a well-formed buffer as it is and does not throw.
pub check-Holds :
    (c : Cells) (b : ControlBlock) (xs : List ℕ)
    → length b.buffer * default_size < 2 ^ 63
    → Holds c b xs
    → check b ≡ ok b
unfolding check
check-Holds c b xs small h = ground arith

pub check-IsEmpty : (b : ControlBlock) (xs : List ℕ) → IsEmpty b xs → check b ≡ ok b
unfolding check
check-IsEmpty b xs h = ground arith

pub bytes_none : (c : Cells) (buffer : List ℕ) (b : ℕ) → bytes c buffer b 0 ≡ []
unfolding bytes
bytes_none c buffer b = refl

pub check-Represents :
    (ps : PageStore) (m : Memory ps.Store) (b : ControlBlock) (xs : List ℕ)
    → Represents ps m b xs
    → check b ≡ ok b
check-Represents ps m b xs r = split r.view
  where
    split : IsEmpty b xs ⊎ Holds m.cells b xs → check b ≡ ok b
    split (inl e) = check-IsEmpty b xs e
    split (inr h) = check-Holds m.cells b xs r.small h

-- A call that leaves everything as it is.
pub stays :
    (ps : PageStore) (m : Memory ps.Store) (b : ControlBlock) (xs : List ℕ)
    → Represents ps m b xs
    → Becomes ps (ok (m, b)) xs
stays ps m b xs r = record { memory = m; block = b; runs = refl; represents = r }

-- `check` marks a buffer whose ends have met as empty.
pub check_of_spent :
    (b : ControlBlock) → b.end ≤ b.begin → check b ≡ ok (record b { begin = npos; end = 0 })
unfolding check
check_of_spent b h = ground arith

pub length-Holds :
    (c : Cells) (b : ControlBlock) (xs : List ℕ) → Holds c b xs → length xs ≡ b.end - b.begin
length-Holds c b xs h = ap length (sym h.held) ∙ length-bytes c b.buffer b.begin (b.end - b.begin)

-- Fewer bytes, from the front or from the back.
pub Holds-drop :
    (c : Cells) (b : ControlBlock) (xs : List ℕ) (k : ℕ)
    → b.begin + k < b.end
    → Holds c b xs
    → Holds c (record b { begin = b.begin + k }) (drop k xs)
Holds-drop c b xs k lt h = record {
  order = lt;
  within = h.within;
  held =
      ap (bytes c b.buffer (b.begin + k)) (omega arith)
      ∙ bytes-drop c b.buffer b.begin k (b.end - b.begin) (omega arith)
      ∙ ap (drop k) h.held;
}

pub Holds-take :
    (c : Cells) (b : ControlBlock) (xs : List ℕ) (k : ℕ)
    → b.begin + k < b.end
    → Holds c b xs
    → Holds c (record b { end = b.end - k }) (take (length xs - k) xs)
Holds-take c b xs k lt h = record {
  order = omega arith;
  within = omega (arith, h.within);
  held =
      ap (bytes c b.buffer b.begin) (omega (arith, length-Holds c b xs h))
      ∙ bytes-take c b.buffer b.begin (length xs - k) (b.end - b.begin)
          (omega (arith, length-Holds c b xs h))
      ∙ ap (take (length xs - k)) h.held;
}

-- The bytes at a range of positions, as a part of what the buffer holds.
pub bytes-front :
    (c : Cells) (b : ControlBlock) (xs : List ℕ) (k : ℕ)
    → k ≤ b.end - b.begin
    → Holds c b xs
    → bytes c b.buffer b.begin k ≡ take k xs
bytes-front c b xs k le h =
    bytes-take c b.buffer b.begin k (b.end - b.begin) le ∙ ap (take k) h.held
