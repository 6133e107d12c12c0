-- ===== src/Pages.antt =====
-- Pages of `DEFAULT_SIZE` bytes and the copy loops over them (iobuffer/io_buffer.cpp).
-- The bytes of all pages are one map from a page's address and an offset to a byte; a buffer's
-- `std::deque<char *>` is the list of its pages' addresses.
pub mod Bytes
pub mod Copy
use npoller.Base.{
  ℕ, zero, suc, ◌+◌, ◌/◌, ◌%◌, ◌==◌, if◌then◌else◌, List, [], ◌∷◌, get_elem?, Outcome, ok, err,
  checked, ◌>>=◌, ◌&&◌,
}

-- `DEFAULT_SIZE`
abbrev pub default_size : ℕ
default_size = 0x200000

abbrev pub Cells : Type 0
Cells = ℕ → ℕ → ℕ

-- `block[offset] = byte`
abbrev pub write : Cells → ℕ → ℕ → ℕ → Cells
write c block offset byte p o = if (p == block) && (o == offset) then byte else c p o

-- `_buffer[i]`
abbrev pub page_at : List ℕ → ℕ → Outcome ℕ
page_at pages i = checked (get_elem? pages i)

-- `if (pos % DEFAULT_SIZE == 0) block = _buffer[pos / DEFAULT_SIZE];`
pub block_for : List ℕ → ℕ → ℕ → Outcome ℕ
block_for pages block pos =
    if (pos % default_size) == 0 then page_at pages (pos / default_size) else ok block

-- The loop that writes the bytes `src` from position `pos` on, `block` being the cached page.
unfoldable pub copy_in : List ℕ → ℕ → ℕ → List ℕ → Cells → Outcome Cells
unfolding block_for
copy_in pages block pos [] c = ok c
copy_in pages block pos (x ∷ xs) c = do
  b ← block_for pages block pos
  copy_in pages b (pos + 1) xs (write c b (pos % default_size) x)

-- The loop that reads `n` bytes from position `pos` on.
unfoldable pub copy_out : List ℕ → ℕ → ℕ → ℕ → Cells → Outcome (List ℕ)
unfolding block_for
copy_out pages block pos zero c = ok []
copy_out pages block pos (suc n) c = do
  b ← block_for pages block pos
  rest ← copy_out pages b (pos + 1) n c
  ok (c b (pos % default_size) ∷ rest)
