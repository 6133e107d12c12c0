-- ===== src/Pages/Bytes.antt =====
-- The bytes that a range of positions holds, through the list of pages, and what a write does to
-- them. Nothing here follows one function of io_buffer.cpp: it is the view that its theorems use.
use npoller.Base.{
  ℕ, zero, suc, ◌+◌, ◌-◌, ◌*◌, ◌/◌, ◌%◌, ◌≤◌, ◌<◌, ◌≡◌, ◌≢◌, ◌⊎◌, inl, inr, refl, sym, ap, ap₂, ◌∙◌,
  List, [], ◌∷◌, ◌++◌, length, get_or, take, drop, set, Distinct, get_or-injective,
  get_or-append_left, All, All-get_or, get_or-set_ne, arith,
}
use npoller.Pages.{Cells, write, default_size}

abbrev pub byte_at : Cells → List ℕ → ℕ → ℕ
byte_at c pages pos = c (get_or pages (pos / default_size) 0) (pos % default_size)

-- The `n` bytes from position `b` on.
unfoldable pub bytes : Cells → List ℕ → ℕ → ℕ → List ℕ
bytes c pages b zero = []
bytes c pages b (suc n) = byte_at c pages b ∷ bytes c pages (b + 1) n

-- `copy_in` without the cached page.
unfoldable pub write_span : List ℕ → ℕ → List ℕ → Cells → Cells
write_span pages pos [] c = c
write_span pages pos (x ∷ xs) c =
    write_span pages (pos + 1) xs
      (write c (get_or pages (pos / default_size) 0) (pos % default_size) x)

pub length-bytes : (c : Cells) (ps : List ℕ) (b n : ℕ) → length (bytes c ps b n) ≡ n
unfolding bytes
length-bytes c ps b zero = refl
length-bytes c ps b (suc n) = ap suc (length-bytes c ps (b + 1) n)

pub bytes-append :
    (c : Cells) (ps : List ℕ) (b m n : ℕ)
    → bytes c ps b (m + n) ≡ bytes c ps b m ++ bytes c ps (b + m) n
unfolding bytes
bytes-append c ps b zero n = ap₂ (bytes c ps) (omega arith) (omega arith)
bytes-append c ps b (suc m) n =
    ap (bytes c ps b) (suc-shift m n)
    ∙ ap (λ t. byte_at c ps b ∷ t)
        (bytes-append c ps (b + 1) m n
          ∙ ap (λ k. bytes c ps (b + 1) m ++ bytes c ps k n) (omega arith))
  where
    suc-shift : (m n : ℕ) → suc m + n ≡ suc (m + n)
    suc-shift m n = omega arith

-- Pages put behind the others do not change what stands before them.
pub bytes-append_pages :
    (c : Cells) (ps qs : List ℕ) (b n : ℕ)
    → b + n ≤ length ps * default_size
    → bytes c (ps ++ qs) b n ≡ bytes c ps b n
unfolding bytes
bytes-append_pages c ps qs b zero h = refl
bytes-append_pages c ps qs b (suc n) h =
    ap₂ ◌∷◌
      (ap (λ p. c p (b % default_size))
        (get_or-append_left ps qs (b / default_size) 0 (omega arith)))
      (bytes-append_pages c ps qs (b + 1) n (omega arith))

-- A page put in front of the others moves every position up by its size.
pub bytes-cons_page :
    (c : Cells) (p : ℕ) (ps : List ℕ) (b n : ℕ)
    → bytes c (p ∷ ps) (b + default_size) n ≡ bytes c ps b n
unfolding bytes
bytes-cons_page c p ps b zero = refl
bytes-cons_page c p ps b (suc n) =
    ap₂ ◌∷◌ (ap₂ c page offset)
      (ap (λ k. bytes c (p ∷ ps) k n) shift ∙ bytes-cons_page c p ps (b + 1) n)
  where
    page : get_or (p ∷ ps) ((b + default_size) / default_size) 0 ≡ get_or ps (b / default_size) 0
    page = ap (λ k. get_or (p ∷ ps) k 0) (up b)
      where
        up : (b : ℕ) → (b + default_size) / default_size ≡ suc (b / default_size)
        up b = omega arith

    offset : (b + default_size) % default_size ≡ b % default_size
    offset = omega arith

    shift : b + default_size + 1 ≡ b + 1 + default_size
    shift = omega arith

-- Dropping bytes at the front is starting later, dropping at the back is stopping earlier.
pub bytes-drop :
    (c : Cells) (ps : List ℕ) (b k n : ℕ)
    → k ≤ n
    → bytes c ps (b + k) (n - k) ≡ drop k (bytes c ps b n)
unfolding bytes
bytes-drop c ps b zero n h = ap₂ (bytes c ps) (omega arith) (omega arith)
bytes-drop c ps b (suc k) zero h = absurd (omega arith)
bytes-drop c ps b (suc k) (suc n) h =
    ap₂ (bytes c ps) (omega arith) (omega arith) ∙ bytes-drop c ps (b + 1) k n (omega arith)

pub bytes-take :
    (c : Cells) (ps : List ℕ) (b k n : ℕ) → k ≤ n → bytes c ps b k ≡ take k (bytes c ps b n)
unfolding bytes
bytes-take c ps b zero n h = refl
bytes-take c ps b (suc k) zero h = absurd (omega arith)
bytes-take c ps b (suc k) (suc n) h =
    ap (λ t. byte_at c ps b ∷ t) (bytes-take c ps (b + 1) k n (omega arith))

-- Another page in the place of one changes no byte outside it.
pub bytes-set_page :
    (c : Cells) (ps : List ℕ) (i q b n : ℕ)
    → ((i + 1) * default_size ≤ b) ⊎ (b + n ≤ i * default_size)
    → bytes c (set ps i q) b n ≡ bytes c ps b n
unfolding bytes
bytes-set_page c ps i q b zero h = refl
bytes-set_page c ps i q b (suc n) h =
    ap₂ ◌∷◌
      (ap (λ p. c p (b % default_size))
        (get_or-set_ne ps i (b / default_size) q 0 (λ e. omega (arith, h, e))))
      (bytes-set_page c ps i q (b + 1) n (omega (arith, h)))

-- The bytes within one page.
pub bytes-within_page :
    (c : Cells) (ps qs : List ℕ) (b b' n : ℕ)
    → get_or ps (b / default_size) 0 ≡ get_or qs (b' / default_size) 0
    → b % default_size ≡ b' % default_size
    → b % default_size + n ≤ default_size
    → bytes c ps b n ≡ bytes c qs b' n
unfolding bytes
bytes-within_page c ps qs b b' zero page offset h = refl
bytes-within_page c ps qs b b' (suc zero) page offset h = ap₂ ◌∷◌ (ap₂ c page offset) refl
bytes-within_page c ps qs b b' (suc (suc n)) page offset h =
    let same : (b + 1) / default_size ≡ b / default_size = omega arith in
    let same' : (b' + 1) / default_size ≡ b' / default_size = omega arith in
    ap₂ ◌∷◌ (ap₂ c page offset) (
      bytes-within_page c ps qs (b + 1) (b' + 1) (suc n) (rw (same, same') page) (omega arith)
        (omega arith))

-- A write to a page that is none of these changes none of their bytes.
pub bytes-write_apart :
    (c : Cells) (ps : List ℕ) (block offset x b n : ℕ)
    → All (λ p. p ≢ block) ps
    → b + n ≤ length ps * default_size
    → bytes (write c block offset x) ps b n ≡ bytes c ps b n
unfolding bytes
bytes-write_apart c ps block offset x b zero apart h = refl
bytes-write_apart c ps block offset x b (suc n) apart h =
    let ne : get_or ps (b / default_size) 0 ≢ block =
      All-get_or (λ p. p ≢ block) ps (b / default_size) 0 apart (omega arith) in
    ap₂ ◌∷◌ (ground arith) (bytes-write_apart c ps block offset x (b + 1) n apart (omega arith))

module _ (ps : List ℕ) (d : Distinct ps) where
  same_position :
      (q pos : ℕ)
      → q < length ps * default_size
      → pos < length ps * default_size
      → get_or ps (q / default_size) 0 ≡ get_or ps (pos / default_size) 0
      → q % default_size ≡ pos % default_size
      → q ≡ pos
  same_position q pos hq hp page offset = omega (
    arith,
    get_or-injective ps (q / default_size) (pos / default_size) 0 d (omega arith) (omega arith)
        page,
  )

  pub byte_at-write_self :
      (c : Cells) (pos x : ℕ)
      → byte_at (write c (get_or ps (pos / default_size) 0) (pos % default_size) x) ps pos ≡ x
  byte_at-write_self c pos x = ground arith

  pub byte_at-write_ne :
      (c : Cells) (pos x q : ℕ)
      → q < length ps * default_size
      → pos < length ps * default_size
      → q ≢ pos
      → byte_at (write c (get_or ps (pos / default_size) 0) (pos % default_size) x) ps q
        ≡ byte_at c ps q
  byte_at-write_ne c pos x q hq hp ne = ground (arith, same_position q pos hq hp)

  pub byte_at-write_span :
      (src : List ℕ) (pos q : ℕ) (c : Cells)
      → pos + length src ≤ length ps * default_size
      → q < length ps * default_size
      → (q < pos) ⊎ (pos + length src ≤ q)
      → byte_at (write_span ps pos src c) ps q ≡ byte_at c ps q
  unfolding write_span
  byte_at-write_span [] pos q c h hq out = refl
  byte_at-write_span (x ∷ xs) pos q c h hq out =
      byte_at-write_span xs (pos + 1) q _ (omega arith) hq (omega arith)
      ∙ byte_at-write_ne c pos x q hq (omega arith) (omega arith)

  -- A write changes no byte outside its range.
  pub bytes-write_span_out :
      (src : List ℕ) (pos b n : ℕ) (c : Cells)
      → pos + length src ≤ length ps * default_size
      → b + n ≤ length ps * default_size
      → (b + n ≤ pos) ⊎ (pos + length src ≤ b)
      → bytes (write_span ps pos src c) ps b n ≡ bytes c ps b n
  unfolding bytes
  bytes-write_span_out src pos b zero c h hb out = refl
  bytes-write_span_out src pos b (suc n) c h hb out =
      ap₂ ◌∷◌ (byte_at-write_span src pos b c h (omega arith) (omega arith))
        (bytes-write_span_out src pos (b + 1) n c h (omega arith) (omega arith))

  -- A write can be read back.
  pub bytes-write_span_self :
      (src : List ℕ) (pos : ℕ) (c : Cells)
      → pos + length src ≤ length ps * default_size
      → bytes (write_span ps pos src c) ps pos (length src) ≡ src
  unfolding bytes write_span
  bytes-write_span_self [] pos c h = refl
  bytes-write_span_self (x ∷ xs) pos c h =
      ap₂ ◌∷◌
        (byte_at-write_span xs (pos + 1) pos _ (omega arith) (omega arith) (inl (omega arith))
          ∙ byte_at-write_self c pos x)
        (bytes-write_span_self xs (pos + 1) _ (omega arith))

  -- A write of one byte sets that element of the range.
  pub bytes-write :
      (c : Cells) (b n i v pos : ℕ)
      → pos ≡ b + i
      → i < n
      → b + n ≤ length ps * default_size
      → bytes (write c (get_or ps (pos / default_size) 0) (pos % default_size) v) ps b n
        ≡ set (bytes c ps b n) i v
  unfolding bytes write_span
  bytes-write c b zero i v pos e h fits = absurd (omega arith)
  bytes-write c b (suc n) zero v pos e h fits =
      let here : pos ≡ b = omega arith in
      ap₂ ◌∷◌
        (ap (byte_at (write_span ps pos (v ∷ []) c) ps) (sym here) ∙ byte_at-write_self c pos v)
        (bytes-write_span_out (v ∷ []) pos (b + 1) n c (omega arith) (omega arith)
          (inr (omega arith)))
  bytes-write c b (suc n) (suc i) v pos e h fits =
      ap₂ ◌∷◌ (byte_at-write_ne c pos v b (omega arith) (omega arith) (omega arith))
        (bytes-write c (b + 1) n i v pos (omega arith) (omega arith) (omega arith))
