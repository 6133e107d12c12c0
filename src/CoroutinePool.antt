-- ===== src/CoroutinePool.antt =====
-- The hand-over of waiting coroutines (coroutine_pool/coroutine_pool.h): the callback of a submitted task,
-- and the coroutines that wait for the result of another. Coroutines and futures themselves are left out.
pub mod Callback
pub mod Waiters
