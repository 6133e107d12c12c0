-- ===== src/MemContainer/Laws.antt =====
-- `mem_container` (iobuffer/buffer.h) hands out no page twice: it fills the interface that
-- `io_buffer` uses.
use npoller.Base.{
  ℕ, ◌+◌, ◌≤◌, ◌<◌, ◌≡◌, ◌≢◌, ◌⊎◌, inl, inr, refl, sym, Bool-cases, leb, List, [], ◌∷◌, ◌++◌, All,
  All-append, Distinct, Distinct-append_one, dec_lt, arith, In, In-All, not_In-All,
}
use npoller.PageStore.{PageStore}
use npoller.MemContainer.{FreeQueue, MemContainer, alloc, get, push, to_size}

In-append : (p : ℕ) (xs : List ℕ) (q : ℕ) → In p (xs ++ (q ∷ [])) → In p xs ⊎ (p ≡ q)
In-append p [] q (inl e) = inr e
In-append p [] q (inr f) = absurd f
In-append p (x ∷ xs) q (inl e) = inl (inl e)
In-append p (x ∷ xs) q (inr h) = shift (In-append p xs q h)
  where
    shift : In p xs ⊎ (p ≡ q) → In p (x ∷ xs) ⊎ (p ≡ q)
    shift (inl i) = inl (inr i)
    shift (inr e) = inr e

-- What is left when the oldest page is taken.
after_pop :
    (x p next : ℕ) (rest : List ℕ)
    → Distinct (x ∷ rest)
    → All (λ q. q < next) (x ∷ rest)
    → In p rest ⊎ (next ≤ p)
    → (In p (x ∷ rest) ⊎ (next ≤ p)) × (p ≢ x)
after_pop x p next rest d b (inl i) = (inl (inr i), λ e. In-All (λ y. x ≢ y) p rest d.0 i (sym e))
after_pop x p next rest d b (inr h) = (inr h, omega (arith, b.0))

after_push :
    (p q next : ℕ) (items : List ℕ)
    → In q (items ++ (p ∷ [])) ⊎ (next ≤ q)
    → (In q items ⊎ (next ≤ q)) ⊎ (q ≡ p)
after_push p q next items (inr h) = inl (inr h)
after_push p q next items (inl i) = shift (In-append q items p i)
  where
    shift : In q items ⊎ (q ≡ p) → (In q items ⊎ (next ≤ q)) ⊎ (q ≡ p)
    shift (inl j) = inl (inl j)
    shift (inr e) = inr e

module _ (fq : FreeQueue) where
  -- The free pages differ, and all pages given out so far are below `next`.
  pub record IsValid (m : MemContainer fq.Queue) : Type 0 where
    pub distinct : Distinct (fq.items m.container)
    pub below : All (λ p. p < m.next) (fq.items m.container)

  -- A page that `get` may give out: a free one, or one not made yet.
  abbrev pub Owned : MemContainer fq.Queue → ℕ → Type 0
  Owned m p = In p (fq.items m.container) ⊎ (m.next ≤ p)

  All-lt-suc : (n : ℕ) (xs : List ℕ) → All (λ p. p < n) xs → All (λ p. p < n + 1) xs
  All-lt-suc n [] h = tt
  All-lt-suc n (x ∷ xs) h = (omega arith, All-lt-suc n xs h.1)

  pub alloc-IsValid : (m : MemContainer fq.Queue) → IsValid m → IsValid (alloc fq m).1
  unfolding alloc
  alloc-IsValid m v = record { distinct = v.distinct; below = All-lt-suc m.next _ v.below }

  pub alloc-Owned : (m : MemContainer fq.Queue) → IsValid m → Owned m (alloc fq m).0
  unfolding alloc
  alloc-Owned m v = inr (omega arith)

  pub Owned-alloc :
      (m : MemContainer fq.Queue) (p : ℕ)
      → IsValid m
      → Owned (alloc fq m).1 p
      → Owned m p × (p ≢ (alloc fq m).0)
  unfolding alloc
  Owned-alloc m p v (inl i) =
      (inl i, λ e. absurd (omega (arith, In-All (λ q. q < m.next) p _ v.below i)))
  Owned-alloc m p v (inr h) = (inr (omega arith), omega arith)

  pub get-IsValid : (m : MemContainer fq.Queue) → IsValid m → IsValid (get fq m).1
  unfolding get
  get-IsValid m v = elim (Bool-cases (fq.empty m.container)) [
    | inl e ↦ rw e (alloc-IsValid m v)
    | inr e ↦
        let items = fq.pop-items m.container e in
        let d = rw items at v.distinct in
        let b = rw items at v.below in rw e (record { distinct = d.1; below = b.1 })
  ]

  pub get-Owned : (m : MemContainer fq.Queue) → IsValid m → Owned m (get fq m).0
  unfolding get
  get-Owned m v = elim (Bool-cases (fq.empty m.container)) [
    | inl e ↦ rw e (alloc-Owned m v)
    | inr e ↦ rw (e, fq.pop-items m.container e) (inl (inl refl))
  ]

  pub Owned-get :
      (m : MemContainer fq.Queue) (p : ℕ)
      → IsValid m
      → Owned (get fq m).1 p
      → Owned m p × (p ≢ (get fq m).0)
  unfolding get
  Owned-get m p v = elim (Bool-cases (fq.empty m.container)) [
    | inl e ↦ rw e (Owned-alloc m p v)
    | inr e ↦
        let items = fq.pop-items m.container e in
        rw (e, items)
          (after_pop (fq.pop m.container).0 p m.next _ (rw items at v.distinct)
            (rw items at v.below))
  ]

  pub push-IsValid :
      (m : MemContainer fq.Queue) (p : ℕ) → IsValid m → ¬ Owned m p → IsValid (push fq m p)
  unfolding push
  push-IsValid m p v new = elim (Bool-cases (leb (to_size m.size) m.max_size)) [
    | inl e ↦ rw e (record {
      distinct =
          rw (fq.items-push m.container p)
            (Distinct-append_one _ p v.distinct (not_In-All p _ (λ i. new (inl i))));
      below =
          rw (fq.items-push m.container p)
            (All-append (λ q. q < m.next) _ (p ∷ []) v.below (p_below, tt));
    })
    | inr e ↦ rw e v
  ]
    where
      p_below : p < m.next
      p_below = elim (dec_lt p m.next) [ yes h ↦ h | no h ↦ absurd (new (inr (omega arith))) ]

  pub Owned-push :
      (m : MemContainer fq.Queue) (p q : ℕ) → Owned (push fq m p) q → Owned m q ⊎ (q ≡ p)
  unfolding push
  Owned-push m p q = elim (Bool-cases (leb (to_size m.size) m.max_size)) [
    | inl e ↦ rw (e, fq.items-push m.container p) (after_push p q m.next (fq.items m.container))
    | inr e ↦ rw e (λ o. inl o)
  ]

  -- The store of pages that `io_buffer` works with.
  abbrev pub page_store : PageStore
  page_store = record {
    Store = MemContainer fq.Queue;
    get = get fq;
    push = push fq;
    alloc = alloc fq;
    IsValid = IsValid;
    Owned = Owned;
    get-IsValid = get-IsValid;
    get-Owned = get-Owned;
    Owned-get = Owned-get;
    push-IsValid = push-IsValid;
    Owned-push = Owned-push;
    alloc-IsValid = alloc-IsValid;
    alloc-Owned = alloc-Owned;
    Owned-alloc = Owned-alloc;
  }
