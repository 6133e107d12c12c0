-- ===== src/Logger/Format.antt =====
-- `new_format_str` (sulog/simple_logger.cpp): the format string of a line, in memory of its own.
use npoller.Base.{
  ℕ, zero, suc, ◌+◌, ◌-◌, ◌%◌, ◌^◌, ◌≤◌, ◌<◌, ◌≡◌, ◌⊎◌, ◌↔◌, inl, inr, refl, ap, ap₂, ◌∙◌, Bool,
  true, false, ◌||◌, ◌==◌, ltb, leb, if◌then◌else◌, List, [], ◌∷◌, ◌++◌, append_assoc, length,
  Outcome, ok, err, undefined_behaviour, arith,
}

-- Memory from an address on.
abbrev pub Chars : Type 0
Chars = ℕ → ℕ

abbrev pub put : Chars → ℕ → ℕ → Chars
put m at_pos v p = if p == at_pos then v else m p

-- `memcpy(m + pos, xs, ...)`
unfoldable pub copy_to : Chars → ℕ → List ℕ → Chars
copy_to m pos [] = m
copy_to m pos (x ∷ xs) = copy_to (put m pos x) (pos + 1) xs

-- `FORMAT_SIZE_THRESHOLD`
abbrev pub format_size_threshold : ℕ
format_size_threshold = 512

-- What the memory at `ret_val` holds, `use_stack` and `len`; `m` is the memory at `stack_addr` or what
-- `new char[len]` gives. `len` is an `int`: a sum from 2^31 on is kept modulo 2^32, and from 2^31 on again
-- it is negative. More bytes than there is room for, and a negative index, are undefined.
unfoldable pub new_format_str : List ℕ → List ℕ → List ℕ → Chars → Outcome (Chars × Bool × ℕ)
new_format_str fmt time_str level m =
    let size = length fmt + length time_str + length level + 2 in
    let len = size % 2 ^ 32 in
    let negative = leb (2 ^ 31) len in
    let use_stack = negative || leb len format_size_threshold in
    let room = if use_stack then format_size_threshold else len in
    let m1 = copy_to m 0 time_str in
    let m2 = copy_to m1 (length time_str) level in
    let m3 = copy_to m2 (length time_str + length level) fmt in
    let m4 = put m3 (length time_str + length level + length fmt) b'\n' in
    if negative || ltb room size
    then err undefined_behaviour
    else ok (put m4 (len - 1) 0, use_stack, len)

-- So many bytes of memory.
unfoldable pub chars : Chars → ℕ → ℕ → List ℕ
chars m p zero = []
chars m p (suc n) = m p ∷ chars m (p + 1) n

copy_to-elsewhere :
    (m : Chars) (pos : ℕ) (xs : List ℕ) (p : ℕ)
    → (p < pos) ⊎ (pos + length xs ≤ p)
    → copy_to m pos xs p ≡ m p
unfolding copy_to
copy_to-elsewhere m pos [] p h = refl
copy_to-elsewhere m pos (x ∷ xs) p h =
    copy_to-elsewhere (put m pos x) (pos + 1) xs p (omega arith) ∙ ground arith

chars-copy_to : (m : Chars) (pos : ℕ) (xs : List ℕ) → chars (copy_to m pos xs) pos (length xs) ≡ xs
unfolding chars copy_to
chars-copy_to m pos [] = refl
chars-copy_to m pos (x ∷ xs) =
    ap₂ ◌∷◌ (copy_to-elsewhere (put m pos x) (pos + 1) xs pos (inl (omega arith)) ∙ ground arith)
      (chars-copy_to (put m pos x) (pos + 1) xs)

chars_same :
    (m m' : Chars) (p n : ℕ)
    → ((q : ℕ) → p ≤ q → q < p + n → m q ≡ m' q)
    → chars m p n ≡ chars m' p n
unfolding chars
chars_same m m' p zero h = refl
chars_same m m' p (suc n) h =
    ap₂ ◌∷◌ (h p (omega arith) (omega arith))
      (chars_same m m' (p + 1) n (λ q lo hi. h q (omega arith) (omega arith)))

chars-append : (m : Chars) (p a b : ℕ) → chars m p (a + b) ≡ chars m p a ++ chars m (p + a) b
unfolding chars
chars-append m p zero b = ap₂ (chars m) (omega arith) (omega arith)
chars-append m p (suc a) b =
    ap (chars m p) (suc-shift a b)
    ∙ ap (λ t. m p ∷ t)
        (chars-append m (p + 1) a b ∙ ap (λ k. chars m (p + 1) a ++ chars m k b) (omega arith))
  where
    suc-shift : (m n : ℕ) → suc m + n ≡ suc (m + n)
    suc-shift m n = omega arith

-- A copy behind what is there.
chars_behind :
    (m : Chars) (n : ℕ) (xs ys : List ℕ)
    → chars m 0 n ≡ xs
    → chars (copy_to m n ys) 0 (n + length ys) ≡ xs ++ ys
chars_behind m n xs ys e =
    chars-append (copy_to m n ys) 0 n (length ys)
    ∙ ap₂ ◌++◌
        (chars_same (copy_to m n ys) m 0 n
            (λ q lo hi. copy_to-elsewhere m n ys q (inl (omega arith)))
          ∙ e)
        (ap (λ k. chars (copy_to m n ys) k (length ys)) (omega arith) ∙ chars-copy_to m n ys)

-- What a call of `new_format_str` comes to: the new format string in `len` bytes, which are at most 512 if
-- the array on the stack is used, and nothing changed behind them.
pub record Formatted (fmt time_str level : List ℕ) (m : Chars) (out : Outcome (Chars × Bool × ℕ))
    : Type 0 where
  pub memory : Chars
  pub use_stack : Bool
  pub len : ℕ
  pub runs : out ≡ ok (memory, use_stack, len)
  pub text : chars memory 0 len ≡ time_str ++ (level ++ (fmt ++ (b'\n' ∷ 0 ∷ [])))
  pub behind : (p : ℕ) → len ≤ p → memory p ≡ m p
  pub on_stack : (use_stack ≡ true) ↔ (len ≤ format_size_threshold)

-- As long as the time, the level, the format and two bytes more stay below 2^31, `new_format_str` returns.
-- The new format string is the time, the level, the format, a line end and a zero, `len` bytes in all. It is
-- written from the beginning of the memory on, nothing behind its `len` bytes is touched, and the array on
-- the stack is used exactly if its 512 bytes are enough.
pub new_format_str_lem :
    (fmt time_str level : List ℕ) (m : Chars)
    → length fmt + length time_str + length level + 2 < 2 ^ 31
    → Formatted fmt time_str level m (new_format_str fmt time_str level m)
unfolding new_format_str copy_to chars
new_format_str_lem fmt time_str level m bound =
    let t = length time_str in
    let l = length level in
    let f = length fmt in
    let m1 = copy_to m 0 time_str in
    let m2 = copy_to m1 t level in
    let m3 = copy_to m2 (t + l) fmt in
    let m4 = copy_to m3 (t + l + f) (b'\n' ∷ []) in
    let e1 : chars m1 0 t ≡ time_str = chars-copy_to m 0 time_str in
    let e2 : chars m2 0 (t + l) ≡ time_str ++ level = chars_behind m1 t time_str level e1 in
    let e3 : chars m3 0 (t + l + f) ≡ (time_str ++ level) ++ fmt =
      chars_behind m2 (t + l) _ fmt e2 in
    let e4 : chars m4 0 (t + l + f + 1) ≡ ((time_str ++ level) ++ fmt) ++ (b'\n' ∷ []) =
      chars_behind m3 (t + l + f) _ (b'\n' ∷ []) e3 in
    let e5 : chars (copy_to m4 (t + l + f + 1) (0 ∷ [])) 0 (t + l + f + 1 + 1)
        ≡ (((time_str ++ level) ++ fmt) ++ (b'\n' ∷ [])) ++ (0 ∷ []) =
      chars_behind m4 (t + l + f + 1) _ (0 ∷ []) e4 in
    let last : f + t + l + 2 - 1 ≡ t + l + f + 1 = omega arith in
    let all : f + t + l + 2 ≡ t + l + f + 1 + 1 = omega arith in
    let same : (f + t + l + 2) % 2 ^ 32 ≡ f + t + l + 2 = omega arith in
    let positive : leb (2 ^ 31) (f + t + l + 2) ≡ false = ground arith in
    let fits : ltb
          (if leb (f + t + l + 2) format_size_threshold
            then format_size_threshold
            else f + t + l + 2)
          (f + t + l + 2)
        ≡ false =
      ground arith in
    rw (same, positive, fits)
      (record {
        memory = put (put m3 (t + l + f) b'\n') (f + t + l + 2 - 1) 0;
        use_stack = leb (f + t + l + 2) format_size_threshold;
        len = f + t + l + 2;
        runs = refl;
        text = rw (last, all) (e5 ∙ simp append_assoc);
        behind = λ p behind.
            let untouched : put (put m3 (t + l + f) b'\n') (f + t + l + 2 - 1) 0 p ≡ m3 p =
              ground arith in
            untouched
            ∙ copy_to-elsewhere m2 (t + l) fmt p (inr (omega arith))
            ∙ copy_to-elsewhere m1 t level p (inr (omega arith))
            ∙ copy_to-elsewhere m 0 time_str p (inr (omega arith));
        on_stack = ground arith;
      })
