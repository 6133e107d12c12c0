-- ===== src/Tests/Container.antt =====
-- `mem_container` at concrete inputs.
use npoller.Base.{
  ℕ, ◌+◌, ◌≤◌, ◌≡◌, refl, List, [], ◌∷◌, length, All, Distinct, arith, zero, suc, sym,
}
use npoller.MemContainer.{MemContainer, new_container, get, push, alloc, clamp_capacity}
use npoller.MemContainer.Capacity.{IsCounted}
use npoller.Base.{In}
use npoller.MemContainer.Usage.{Uses, here, got, gave_back, page_safety}
use npoller.Tests.Data.{list_queue}

-- Two pages are made, the first is given back and given out again, and given back once more.
abbrev one_free : MemContainer (List ℕ)
one_free = record { container = 50 ∷ []; max_size = 512; size = 1; next = 52 }

one_free-Uses : Uses list_queue (new_container list_queue [] 512 50) [] one_free (51 ∷ [])
unfolding new_container get push alloc
one_free-Uses = gave_back [] 50 (51 ∷ []) (got (gave_back (51 ∷ []) 50 [] (got (got here))))

page_safety_example :
    Distinct (51 ∷ [])
    × All (λ p. ¬ In p (50 ∷ [])) (51 ∷ [])
    × (one_free.size ≡ 1)
    × (1 ≤ clamp_capacity 512 + 1)
page_safety_example =
    page_safety list_queue [] 512 50 one_free (51 ∷ []) refl (omega arith) one_free-Uses

abbrev repeat : ℕ → ℕ → List ℕ
repeat zero p = []
repeat (suc n) p = p ∷ repeat n p

length-repeat : (n p : ℕ) → length (repeat n p) ≡ n
length-repeat zero p = refl
length-repeat (suc n) p = omega (arith, length-repeat n p)

-- As many free pages as the limit.
abbrev full : MemContainer (List ℕ)
full = record { container = repeat 256 7; max_size = 256; size = 256; next = 9 }

full-IsCounted : IsCounted list_queue full
full-IsCounted = record {
  counted = sym (length-repeat 256 7);
  bounded = omega (arith, length-repeat 256 7);
  fits = omega arith;
}
