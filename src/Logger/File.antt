-- ===== src/Logger/File.antt =====
-- The file of a `simple_logger` (sulog/simple_logger.h, sulog/simple_logger.cpp). What the C library says
-- is an argument of each call. Where the code reads a variable that it has not set, the value that the
-- variable happens to have is an argument too.
use npoller.Base.{
  ℕ, ◌+◌, ltb, leb, Bool, true, false, not, ◌&&◌, ◌||◌, if◌then◌else◌, List, [], ◌∷◌, ◌++◌, length,
  Option, none, some,
}
use npoller.Logger.Clock.{LogTimeStrategy, Clock, LogTime, no_log_time, time_now, time_rename}

-- `log_level`
pub data LogLevel : Type 0 where
  debug_level info_level warn_level error_level no_level : LogLevel

abbrev pub level_rank : LogLevel → ℕ
level_rank debug_level = 0
level_rank info_level = 1
level_rank warn_level = 2
level_rank error_level = 3
level_rank no_level = 4

abbrev pub level_text : LogLevel → List ℕ
level_text debug_level = b' ' ∷ b'D' ∷ b'E' ∷ b'B' ∷ b'U' ∷ b'G' ∷ b' ' ∷ []
level_text info_level = b' ' ∷ b'I' ∷ b'N' ∷ b'F' ∷ b'O' ∷ b' ' ∷ []
level_text warn_level = b' ' ∷ b'W' ∷ b'A' ∷ b'R' ∷ b'N' ∷ b' ' ∷ []
level_text error_level = b' ' ∷ b'E' ∷ b'R' ∷ b'R' ∷ b'O' ∷ b'R' ∷ b' ' ∷ []
level_text no_level = []

-- `file_state`
pub data FileState : Type 0 where
  open_state non_associated bad_file_descriptor : FileState

abbrev pub is_open_state : FileState → Bool
is_open_state open_state = true
is_open_state _ = false

-- `fp` is the name of the file behind the pointer, or `none` for a null pointer. `opened` and `closed` count
-- the calls of `fopen` that gave a file and of `fclose`. `lines` are the lines printed so far, each with the
-- name of the file.
pub record Logger : Type 0 where
  pub name : List ℕ
  pub name_strategy : LogTimeStrategy
  pub log_strategy : LogTimeStrategy
  pub is_sync : Bool
  pub level : LogLevel
  pub state : FileState
  pub name_time : LogTime
  pub fp : Option (List ℕ)
  pub opened : ℕ
  pub closed : ℕ
  pub lines : List (List ℕ × List ℕ)

-- What an `open_file` meets: the time, and whether `fopen` gives a file.
pub record Opening : Type 0 where
  pub clock : Clock
  pub opens : Bool

-- ".log"
abbrev pub suffix : List ℕ
suffix = b'.' ∷ b'l' ∷ b'o' ∷ b'g' ∷ []

unfoldable pub open_file : Opening → Logger → Logger
open_file o l =
    let (time_str, now) = time_now l.name_strategy o.clock no_log_time in
    if o.opens
    then record l {
      fp = some (l.name ++ (time_str ++ suffix));
      state = open_state;
      name_time = now;
      opened = l.opened + 1;
    }
    else record l { fp = none; state = non_associated }

-- `::fclose(fp)`, if there is a file.
abbrev pub close_if : Option (List ℕ) → Logger → Logger
close_if none l = l
close_if (some file) l = record l { closed = l.closed + 1 }

unfoldable pub reopen_if_need : Bool → Opening → Logger → Logger
reopen_if_need need_reopen o l =
    if need_reopen || not (is_open_state l.state) then open_file o (close_if l.fp l) else l

-- A line into the file behind `fp`.
abbrev pub add_line : Option (List ℕ) → List ℕ → Logger → Logger
add_line none text l = l
add_line (some file) text l = record l { lines = l.lines ++ ((file, text) ∷ []) }

-- What printing meets: the times of its three looks at the clock, the files that may be opened, the text that
-- `::vfprintf` makes of a format with the arguments of the call, whether it gives more than 0, whether `::fflush` gives 0 and whether `errno` is then `EBADF`; for
-- `::fprintf` the number of characters, or `none` where it is negative; and the values of
-- `need_rename` and `write_success` before they are set.
pub record Answers : Type 0 where
  pub now : Clock
  pub first : Opening
  pub second : Opening
  pub expand : List ℕ → List ℕ
  pub printed : Bool
  pub flushed : Bool
  pub bad : Bool
  pub count : Option ℕ
  pub need_rename : Bool
  pub write_success : Bool

-- `vfprintf(int, const char *, va_list)`: whether it succeeds.
unfoldable pub vfprintf : List ℕ → Answers → Logger → Bool × Logger
vfprintf text a l =
    let l1 = if a.printed then add_line l.fp (a.expand text) l else l in
    (
      a.printed && (if l.is_sync then a.flushed else true),
      if a.bad then record l1 { state = bad_file_descriptor } else l1,
    )

-- `print(const char *, const char *, va_list)`, from the time on.
unfoldable pub print_open : List ℕ → Answers → Logger → Bool × Logger
print_open text a l = if is_open_state l.state then vfprintf text a l else (false, l)

unfoldable pub print : List ℕ → List ℕ → Answers → Logger → Logger
print level format a l =
    let (time_str, need_rename) =
      time_rename l.name_strategy l.name_time l.log_strategy a.now a.need_rename in
    let (write_success, l2) =
      print_open (time_str ++ (level ++ (format ++ (b'\n' ∷ [])))) a
        (reopen_if_need need_rename a.first l) in
    if not write_success then reopen_if_need true a.second l2 else l2

-- `count >= ...`: a negative `count` becomes the largest of all `size_t`.
abbrev pub enough : Option ℕ → ℕ → Bool
enough none n = true
enough (some count) n = leb n count

abbrev pub is_some : Option ℕ → Bool
is_some none = false
is_some (some n) = true

-- The middle of `print(const char *, const std::string &)`.
unfoldable pub print_text_open : List ℕ → Answers → Logger → Bool × Logger
print_text_open text a l =
    if is_open_state l.state
    then (
      a.write_success && (enough a.count (length text) && (if l.is_sync then a.flushed else true)),
      if is_some a.count then add_line l.fp text l else l,
    )
    else (a.write_success, l)

-- `print(const char *, const std::string &)`
unfoldable pub print_text : List ℕ → List ℕ → Answers → Logger → Logger
print_text level text a l =
    let (time_str, need_rename) =
      time_rename l.name_strategy l.name_time l.log_strategy a.now a.need_rename in
    let (write_success, l2) =
      print_text_open (time_str ++ (level ++ (text ++ (b'\n' ∷ [])))) a
        (reopen_if_need need_rename a.first l) in
    if not write_success then reopen_if_need true a.second l2 else l2

-- `debug`, `info`, `warn` and `error` with a format.
unfoldable pub log_format : LogLevel → List ℕ → Answers → Logger → Logger
log_format level format a l =
    if ltb (level_rank level) (level_rank l.level) then l else print (level_text level) format a l

abbrev pub is_error : LogLevel → Bool
is_error error_level = true
is_error _ = false

-- `debug`, `info`, `warn` and `error` with a text; `error` does not look at the level.
unfoldable pub log_text : LogLevel → List ℕ → Answers → Logger → Logger
log_text level text a l =
    if is_error level || leb (level_rank l.level) (level_rank level)
    then print_text (level_text level) text a l
    else l

-- `is_debug_enable()`
unfoldable pub is_debug_enable : Logger → Bool
is_debug_enable l = leb (level_rank l.level) (level_rank debug_level)

-- `simple_logger::fclose()`, as the destructor calls it.
unfoldable pub fclose : Logger → Logger
fclose l = record (close_if l.fp l) { fp = none }

-- The constructor, with no file at first.
unfoldable pub new_logger :
    List ℕ → LogLevel → Bool → LogTimeStrategy → LogTimeStrategy → Opening → Logger
new_logger name level sync name_strategy log_strategy o = open_file o (record {
  name = name;
  name_strategy = name_strategy;
  log_strategy = log_strategy;
  is_sync = sync;
  level = level;
  state = non_associated;
  name_time = no_log_time;
  fp = none;
  opened = 0;
  closed = 0;
  lines = [];
})
