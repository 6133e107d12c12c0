-- ===== src/Pages/Copy.antt =====
-- The copy loops of io_buffer.cpp: caching the page is the same as looking it up for each byte.
use npoller.Base.{
  ℕ, zero, suc, ◌+◌, ◌*◌, ◌/◌, ◌%◌, ◌≤◌, ◌<◌, ◌≡◌, ◌≢◌, refl, ap, ◌∙◌, List, [], ◌∷◌, some, length,
  get_elem?, get_or, get_elem?-eq-get_or, get_elem?-append, ◌-◌, ◌++◌, ok, arith,
}
use npoller.Pages.{Cells, default_size, block_for, copy_in, copy_out}
use npoller.Pages.Bytes.{bytes, write_span}

-- What the loops keep: inside a page, the cached page is the one of the position.
abbrev pub IsCached : List ℕ → ℕ → ℕ → Type 0
IsCached ps block pos = pos % default_size ≢ 0 → get_elem? ps (pos / default_size) ≡ some block

pub block_for_lem :
    (ps : List ℕ) (block pos : ℕ)
    → pos < length ps * default_size
    → IsCached ps block pos
    → block_for ps block pos ≡ ok (get_or ps (pos / default_size) 0)
unfolding block_for
block_for_lem ps block pos h cached =
    ground (arith, cached, get_elem?-eq-get_or ps (pos / default_size) 0 (omega arith))

pub IsCached-next :
    (ps : List ℕ) (pos : ℕ)
    → pos < length ps * default_size
    → IsCached ps (get_or ps (pos / default_size) 0) (pos + 1)
IsCached-next ps pos h inside =
    ap (get_elem? ps) same ∙ get_elem?-eq-get_or ps (pos / default_size) 0 (omega arith)
  where
    same : (pos + 1) / default_size ≡ pos / default_size
    same = omega arith

-- A page that goes from the front changes no cached page.
pub IsCached-drop_page :
    (p : ℕ) (buffer : List ℕ) (block pos : ℕ)
    → default_size ≤ pos
    → IsCached (p ∷ buffer) block pos
    → IsCached buffer block (pos - default_size)
IsCached-drop_page p buffer block pos h cached inside =
    let same : pos / default_size ≡ suc ((pos - default_size) / default_size) = omega arith in
    rw same at (cached (omega arith))

-- Nor does a page more at the end.
pub IsCached-append :
    (xs ys : List ℕ) (block pos : ℕ) → IsCached xs block pos → IsCached (xs ++ ys) block pos
IsCached-append xs ys block pos cached inside =
    get_elem?-append xs ys (pos / default_size) block (cached inside)

pub copy_in_lem :
    (ps : List ℕ) (src : List ℕ) (block pos : ℕ) (c : Cells)
    → pos + length src ≤ length ps * default_size
    → IsCached ps block pos
    → copy_in ps block pos src c ≡ ok (write_span ps pos src c)
unfolding copy_in write_span
copy_in_lem ps [] block pos c h cached = refl
copy_in_lem ps (x ∷ xs) block pos c h cached =
    rw (block_for_lem ps block pos (omega arith) cached)
      (copy_in_lem ps xs _ (pos + 1) _ (omega arith) (IsCached-next ps pos (omega arith)))

pub copy_out_lem :
    (ps : List ℕ) (n block pos : ℕ) (c : Cells)
    → pos + n ≤ length ps * default_size
    → IsCached ps block pos
    → copy_out ps block pos n c ≡ ok (bytes c ps pos n)
unfolding copy_out bytes
copy_out_lem ps zero block pos c h cached = refl
copy_out_lem ps (suc n) block pos c h cached = rw (
  block_for_lem ps block pos (omega arith) cached,
  copy_out_lem ps n (get_or ps (pos / default_size) 0) (pos + 1) c (omega arith)
      (IsCached-next ps pos (omega arith)),
)
