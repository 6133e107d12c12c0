-- ===== src/PageStore.antt =====
-- The interface between `io_buffer` and the store of free pages behind it (iobuffer/buffer.h):
-- `mem.get()`, `mem.push(ptr)` and `new char[DEFAULT_SIZE]`. A page is named by its address.
-- MemContainer/Laws fills the interface with the `mem_container` of the source.
use npoller.Base.{ℕ, ◌≡◌, ◌≢◌, ◌⊎◌}

pub record PageStore : Type 1 where
  pub Store : Type 0
  pub get : Store → ℕ × Store
  pub push : Store → ℕ → Store
  pub alloc : Store → ℕ × Store
  pub IsValid : Store → Type 0
  -- The pages that the store may hand out now or later.
  pub Owned : Store → ℕ → Type 0
  pub get-IsValid : (s : Store) → IsValid s → IsValid (get s).1
  pub get-Owned : (s : Store) → IsValid s → Owned s (get s).0
  pub Owned-get : (s : Store) (p : ℕ) → IsValid s → Owned (get s).1 p → Owned s p × (p ≢ (get s).0)
  pub push-IsValid : (s : Store) (p : ℕ) → IsValid s → ¬ Owned s p → IsValid (push s p)
  pub Owned-push : (s : Store) (p q : ℕ) → Owned (push s p) q → Owned s q ⊎ (q ≡ p)
  pub alloc-IsValid : (s : Store) → IsValid s → IsValid (alloc s).1
  pub alloc-Owned : (s : Store) → IsValid s → Owned s (alloc s).0
  pub Owned-alloc :
      (s : Store) (p : ℕ) → IsValid s → Owned (alloc s).1 p → Owned s p × (p ≢ (alloc s).0)
