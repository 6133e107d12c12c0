-- ===== src/Logger/Handles.antt =====
-- The calls on one `simple_logger` (sulog/simple_logger.h, sulog/simple_logger.cpp): the files it holds.
use npoller.Base.{
  ℕ, ◌+◌, ◌≡◌, refl, sym, ◌∙◌, Bool, true, false, Bool-cases, not, ◌||◌, ltb, leb, if◌then◌else◌,
  inl, inr, List, [], ◌∷◌, Option, none, some, arith,
}
use npoller.Logger.Clock.{LogTimeStrategy}
use npoller.Logger.File.{
  LogLevel, level_rank, level_text, bad_file_descriptor, is_open_state, Logger, Opening, open_file,
  close_if, reopen_if_need, add_line, Answers, vfprintf, print_open, print, print_text_open,
  print_text, log_format, log_text, fclose, new_logger, is_error, is_some,
}

-- How many files a pointer holds.
abbrev pub held : Option (List ℕ) → ℕ
held none = 0
held (some file) = 1

-- Each file that was opened is closed or held, and an open state has a file.
pub record Inv (l : Logger) : Type 0 where
  pub balance : l.opened ≡ l.closed + held l.fp
  pub file : is_open_state l.state ≡ true → held l.fp ≡ 1

close_if-closed : (fp : Option (List ℕ)) (l : Logger) → (close_if fp l).closed ≡ l.closed + held fp
close_if-closed none l = omega arith
close_if-closed (some file) l = refl

close_if-opened : (fp : Option (List ℕ)) (l : Logger) → (close_if fp l).opened ≡ l.opened
close_if-opened none l = refl
close_if-opened (some file) l = refl

-- Opening a file when none is held.
open_file-Inv : (o : Opening) (l : Logger) → l.opened ≡ l.closed → Inv (open_file o l)
unfolding open_file
open_file-Inv o l none_held = elim (Bool-cases o.opens) [
  | inl opens ↦ rw opens (record { balance = omega arith; file = λ e. refl })
  | inr fails ↦ rw fails (record { balance = omega arith; file = λ e. cc })
]

reopen-Inv : (need : Bool) (o : Opening) (l : Logger) → Inv l → Inv (reopen_if_need need o l)
unfolding reopen_if_need
reopen-Inv need o l v = elim (Bool-cases (need || not (is_open_state l.state))) [
  | inl again ↦ rw again (
      open_file-Inv o (close_if l.fp l)
        (omega (arith, v.balance, close_if-closed l.fp l, close_if-opened l.fp l)))
  | inr kept ↦ rw kept v
]

add_line-Inv :
    (fp : Option (List ℕ)) (text : List ℕ) (l : Logger) → Inv l → Inv (add_line fp text l)
add_line-Inv none text l v = v
add_line-Inv (some file) text l v = record { balance = v.balance; file = v.file }

spoil-Inv : (l : Logger) → Inv l → Inv (record l { state = bad_file_descriptor })
spoil-Inv l v = record { balance = v.balance; file = λ e. cc }

if-Inv : (b : Bool) (l m : Logger) → Inv l → Inv m → Inv (if b then l else m)
if-Inv true l m v w = v
if-Inv false l m v w = w

print_open-Inv : (text : List ℕ) (a : Answers) (l : Logger) → Inv l → Inv (print_open text a l).1
unfolding print_open vfprintf
print_open-Inv text a l v = elim (Bool-cases (is_open_state l.state)) [
  | inr shut ↦ rw shut v
  | inl opened ↦
      let w : Inv (if a.printed then add_line l.fp (a.expand text) l else l) =
        if-Inv a.printed (add_line l.fp (a.expand text) l) l (add_line-Inv l.fp (a.expand text) l v)
          v in
      rw opened (if-Inv a.bad _ _ (spoil-Inv _ w) w)
]

print_text_open-Inv :
    (text : List ℕ) (a : Answers) (l : Logger) → Inv l → Inv (print_text_open text a l).1
unfolding print_text_open
print_text_open-Inv text a l v = elim (Bool-cases (is_open_state l.state)) [
  | inr shut ↦ rw shut v
  | inl opened ↦
      rw opened (if-Inv (is_some a.count) (add_line l.fp text l) l (add_line-Inv l.fp text l v) v)
]

print-Inv :
    (level format : List ℕ) (a : Answers) (l : Logger) → Inv l → Inv (print level format a l)
unfolding print
print-Inv level format a l v =
    let w = print_open-Inv _ a _ (reopen-Inv _ a.first l v) in
    if-Inv _ _ _ (reopen-Inv true a.second _ w) w

print_text-Inv :
    (level text : List ℕ) (a : Answers) (l : Logger) → Inv l → Inv (print_text level text a l)
unfolding print_text
print_text-Inv level text a l v =
    let w = print_text_open-Inv _ a _ (reopen-Inv _ a.first l v) in
    if-Inv _ _ _ (reopen-Inv true a.second _ w) w

pub data Call : Type 0 where
  call_format call_text : LogLevel → List ℕ → Answers → Call

unfoldable pub step : Call → Logger → Logger
step (call_format level format a) l = log_format level format a l
step (call_text level text a) l = log_text level text a l

unfoldable pub run : List Call → Logger → Logger
run [] l = l
run (c ∷ calls) l = run calls (step c l)

step-Inv : (c : Call) (l : Logger) → Inv l → Inv (step c l)
unfolding step log_format log_text
step-Inv (call_format level format a) l v =
    if-Inv (ltb (level_rank level) (level_rank l.level)) l _ v
      (print-Inv (level_text level) format a l v)
step-Inv (call_text level text a) l v =
    if-Inv (is_error level || leb (level_rank l.level) (level_rank level)) _ l
      (print_text-Inv (level_text level) text a l v) v

run-Inv : (calls : List Call) (l : Logger) → Inv l → Inv (run calls l)
unfolding run
run-Inv [] l v = v
run-Inv (c ∷ calls) l v = run-Inv calls (step c l) (step-Inv c l v)

-- Whatever is logged, and whatever the C library says, a logger never loses or closes twice a file: while it
-- lives, the files opened are those closed and the one it holds, and it holds one whenever its state is
-- open; the destructor's `fclose` closes that one and leaves none.
pub files_balance :
    (name : List ℕ) (level : LogLevel) (sync : Bool) (name_strategy log_strategy : LogTimeStrategy)
    (o : Opening) (calls : List Call)
    → let l = run calls (new_logger name level sync name_strategy log_strategy o) in
      (l.opened ≡ l.closed + held l.fp)
      × (is_open_state l.state ≡ true → held l.fp ≡ 1)
      × ((fclose l).closed ≡ l.opened)
      × ((fclose l).fp ≡ none)
unfolding new_logger fclose
files_balance name level sync name_strategy log_strategy o calls =
    let l = run calls (new_logger name level sync name_strategy log_strategy o) in
    let v =
      run-Inv calls (new_logger name level sync name_strategy log_strategy o)
        (open_file-Inv o _ refl) in
    (v.balance, v.file, close_if-closed l.fp l ∙ sym v.balance, refl)
