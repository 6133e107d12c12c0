-- ===== src/SpinLock/Backoff.antt =====
-- The waiting loops of `lock()` (spinlock/spin_lock.h): `k` doubles with each failed look at the
-- lock, and goes back to 2 when it reaches 2048.
use npoller.Base.{
  ℕ, zero, suc, ◌+◌, ◌*◌, ◌^◌, ◌≤◌, ◌≡◌, ◌==◌, if◌then◌else◌, dec_lt, ap, ◌∙◌, arith,
}
use native.Mathlib.Nat.{pow-suc}

-- `k *= 2; ... if (k == 2048) k = 2;`
unfoldable pub next_k : ℕ → ℕ
next_k k = if (k * 2) == 2048 then 2 else k * 2

-- `for (size_t j = 0; j <= k; j++) _mm_pause();` runs so often, with `k` already doubled.
unfoldable pub pauses : ℕ → ℕ
pauses k = k * 2 + 1

-- `k` after `n` failed looks.
unfoldable pub k_after : ℕ → ℕ
k_after zero = 1
k_after (suc n) = next_k (k_after n)

pow-le : (e : ℕ) → e ≤ 10 → 2 ^ e ≤ 1024
pow-le zero le = omega arith
pow-le (suc zero) le = omega arith
pow-le (suc (suc zero)) le = omega arith
pow-le (suc (suc (suc zero))) le = omega arith
pow-le (suc (suc (suc (suc zero)))) le = omega arith
pow-le (suc (suc (suc (suc (suc zero))))) le = omega arith
pow-le (suc (suc (suc (suc (suc (suc zero)))))) le = omega arith
pow-le (suc (suc (suc (suc (suc (suc (suc zero))))))) le = omega arith
pow-le (suc (suc (suc (suc (suc (suc (suc (suc zero)))))))) le = omega arith
pow-le (suc (suc (suc (suc (suc (suc (suc (suc (suc zero))))))))) le = omega arith
pow-le (suc (suc (suc (suc (suc (suc (suc (suc (suc (suc zero)))))))))) le = omega arith
pow-le (suc (suc (suc (suc (suc (suc (suc (suc (suc (suc (suc e))))))))))) le = absurd (omega arith)

-- From a power of 2 below 2048 to the next, or back to 2.
next_k_power :
    (e k : ℕ)
    → e ≤ 10
    → k ≡ 2 ^ e
    → (e' : ℕ) × (e' ≤ 10) × (next_k k ≡ 2 ^ e') × (pauses (next_k k) ≤ 2049)
unfolding next_k pauses
next_k_power e k le is = elim (dec_lt e 10) [
  | yes more ↦
      let double : 2 ^ suc e ≡ 2 ^ e * 2 = pow-suc 2 e in
      let bound = pow-le (suc e) more in (suc e, more, ground arith, ground arith)
  | no last ↦
      let ten : e ≡ 10 = omega arith in
      let k_is : k ≡ 1024 = is ∙ ap (λ n. 2 ^ n) ten in (1, omega arith, ground arith, ground arith)
]

-- However long a thread waits, `k` stays a power of 2 up to 1024, so that the `int` never overflows
-- and the `for` loop of one round never pauses more than 2049 times.
k_after_bounds : (n : ℕ) → (e : ℕ) × (e ≤ 10) × (k_after n ≡ 2 ^ e) × (pauses (k_after n) ≤ 2049)
unfolding k_after
k_after_bounds zero = (0, omega arith, omega arith, unfold pauses in omega arith)
k_after_bounds (suc n) = let (e, le, is, _) = k_after_bounds n in next_k_power e (k_after n) le is
