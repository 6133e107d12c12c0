-- ===== src/MpscQueue/Order.antt =====
-- The order in which an `mpsc_queue` (queue/mpsc_queue.h) gives its items out: number by number, a
-- number of the local deque from there, any other from the concurrent queue.
use npoller.Base.{
  ℕ, suc, ◌+◌, ◌≤◌, ◌≡◌, ◌⊎◌, inl, inr, refl, List, [], ◌∷◌, ◌++◌, length, All, All-imp, arith,
}

module _ {T : Type 0} where
  -- From number `c` on, the local items `l` and the shared items `k` make up `xs`.
  abbrev pub Merges : ℕ → List (T × ℕ) → List T → List T → Type 0
  Merges c l k [] = (l ≡ []) × (k ≡ [])
  Merges c l k (x ∷ xs) =
      ((rest : List (T × ℕ)) × (l ≡ (x, c) ∷ rest) × Merges (suc c) rest k xs)
      ⊎ ((rest : List T) × (k ≡ x ∷ rest) × Merges (suc c) l rest xs)

  -- The local numbers are from `c` on.
  pub Merges-from :
      (xs : List T) (c : ℕ) (l : List (T × ℕ)) (k : List T) → Merges c l k xs → All (λ e. c ≤ e.1) l
  Merges-from [] c l k m = rw m.0 tt
  Merges-from (x ∷ xs) c l k (inl (rest, e, m)) = rw e (
    omega arith,
    All-imp (λ (t : T × ℕ). suc c ≤ t.1) (λ t. c ≤ t.1) rest (λ t h. omega arith)
        (Merges-from xs (suc c) rest k m),
  )
  Merges-from (x ∷ xs) c l k (inr (rest, e, m)) =
      All-imp (λ (t : T × ℕ). suc c ≤ t.1) (λ t. c ≤ t.1) l (λ t h. omega arith)
        (Merges-from xs (suc c) l rest m)

  -- A local item with the next number comes last.
  pub Merges-local :
      (xs : List T) (c n : ℕ) (l : List (T × ℕ)) (k : List T) (x : T)
      → n ≡ c + length xs
      → Merges c l k xs
      → Merges c (l ++ ((x, n) ∷ [])) k (xs ++ (x ∷ []))
  Merges-local [] c n l k x e m =
      let same : n ≡ c = omega arith in inl ([], rw (m.0, same) refl, (refl, m.1))
  Merges-local (y ∷ xs) c n l k x e (inl (rest, el, m)) =
      inl (rest ++ ((x, n) ∷ []), rw el refl, Merges-local xs (suc c) n rest k x (omega arith) m)
  Merges-local (y ∷ xs) c n l k x e (inr (rest, ek, m)) =
      inr (rest, ek, Merges-local xs (suc c) n l rest x (omega arith) m)

  -- So does a shared one.
  pub Merges-shared :
      (xs : List T) (c : ℕ) (l : List (T × ℕ)) (k : List T) (x : T)
      → Merges c l k xs
      → Merges c l (k ++ (x ∷ [])) (xs ++ (x ∷ []))
  Merges-shared [] c l k x m = inr ([], rw m.1 refl, (m.0, refl))
  Merges-shared (y ∷ xs) c l k x (inl (rest, el, m)) =
      inl (rest, el, Merges-shared xs (suc c) rest k x m)
  Merges-shared (y ∷ xs) c l k x (inr (rest, ek, m)) =
      inr (rest ++ (x ∷ []), rw ek refl, Merges-shared xs (suc c) l rest x m)
