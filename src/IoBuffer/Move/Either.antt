-- ===== src/IoBuffer/Move/Either.antt =====
-- `pop_back_to_other_front_n` and `pop_front_to_other_back_n` (iobuffer/io_buffer.cpp).
use npoller.Base.{ℕ, Outcome, ok, ◌>>=◌}
use npoller.PageStore.{PageStore}
use npoller.IoBuffer.Move.{One, Two}
use npoller.IoBuffer.Move.ToBack.{other_pop_front_to_back_n}
use npoller.IoBuffer.Move.ToFront.{other_pop_back_to_front_n}
use npoller.IoBuffer.Move.SelfBack.{self_pop_front_to_back_n}
use npoller.IoBuffer.Move.SelfFront.{self_pop_back_to_front_n}

module _ (ps : PageStore) where
  -- Two `io_buffer`s have one control block or two.
  pub data Blocks : Type 0 where
    shared : One ps → Blocks
    apart : Two ps → Blocks

  unfoldable pub pop_back_to_other_front_n : ℕ → Blocks → Outcome Blocks
  pop_back_to_other_front_n n (shared t) = self_pop_back_to_front_n ps n t >>= λ t. ok (shared t)
  pop_back_to_other_front_n n (apart t) = other_pop_back_to_front_n ps n t >>= λ t. ok (apart t)

  unfoldable pub pop_front_to_other_back_n : ℕ → Blocks → Outcome Blocks
  pop_front_to_other_back_n n (shared t) = self_pop_front_to_back_n ps n t >>= λ t. ok (shared t)
  pop_front_to_other_back_n n (apart t) = other_pop_front_to_back_n ps n t >>= λ t. ok (apart t)
