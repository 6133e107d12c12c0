-- ===== src/Tests/Logging.antt =====
-- The logger at concrete inputs.
use npoller.Base.{◌+◌, ◌≡◌, refl, true, false, [], ◌∷◌, none, some, arith}
use npoller.Logger.Clock.{no_time, day, millisecond, Clock, time, time_rename}
use npoller.Logger.Names.{IsDate, read_day, time-read_day, rename_within_day}
use npoller.Logger.Format.{Chars, Formatted, new_format_str, new_format_str_lem}
use npoller.Logger.File.{
  debug_level, info_level, warn_level, is_open_state, Logger, Opening, open_file, Answers,
  new_logger, fclose, reopen_if_need,
}
use npoller.Logger.Handles.{held, call_format, call_text, run, files_balance}

-- The 5th of May 2019 at 10:20:30, an hour later, and the early morning of two months' 5th.
abbrev morning : Clock
morning = record {
  tm_year = 119;
  tm_mon = 4;
  tm_mday = 5;
  tm_hour = 10;
  tm_min = 20;
  tm_sec = 30;
  tv_usec = 7000;
}

abbrev later : Clock
later = record {
  tm_year = 119;
  tm_mon = 4;
  tm_mday = 5;
  tm_hour = 11;
  tm_min = 20;
  tm_sec = 30;
  tv_usec = 7000;
}

abbrev night : Clock
night = record {
  tm_year = 119;
  tm_mon = 4;
  tm_mday = 5;
  tm_hour = 2;
  tm_min = 0;
  tm_sec = 0;
  tv_usec = 0;
}

abbrev next_month : Clock
next_month = record {
  tm_year = 119;
  tm_mon = 5;
  tm_mday = 5;
  tm_hour = 2;
  tm_min = 0;
  tm_sec = 0;
  tv_usec = 0;
}

morning-IsDate : IsDate morning
morning-IsDate = record {
  year = omega arith;
  mon = omega arith;
  mday = omega arith;
  hour_of_day = omega arith;
}

later-IsDate : IsDate later
later-IsDate = record {
  year = omega arith;
  mon = omega arith;
  mday = omega arith;
  hour_of_day = omega arith;
}

night-IsDate : IsDate night
night-IsDate = record {
  year = omega arith;
  mon = omega arith;
  mday = omega arith;
  hour_of_day = omega arith;
}

next_month-IsDate : IsDate next_month
next_month-IsDate = record {
  year = omega arith;
  mon = omega arith;
  mday = omega arith;
  hour_of_day = omega arith;
}

time-read_day_example : read_day (time millisecond morning) ≡ (119, 4, 5)
time-read_day_example = time-read_day millisecond morning (omega arith) (λ e. cc) morning-IsDate

-- The text "ab" with a time "t" and a level " ", over memory of zeros.
abbrev zeros : Chars
zeros p = 0

new_format_str_lem_example :
    Formatted
      (97 ∷ 98 ∷ [])
      (116 ∷ [])
      (32 ∷ [])
      zeros
      (new_format_str (97 ∷ 98 ∷ []) (116 ∷ []) (32 ∷ []) zeros)
new_format_str_lem_example =
    new_format_str_lem (97 ∷ 98 ∷ []) (116 ∷ []) (32 ∷ []) zeros (omega arith)

abbrev opening : Opening
opening = record { clock = morning; opens = true }

abbrev answers : Answers
answers = record {
  now = morning;
  first = opening;
  second = opening;
  printed = true;
  flushed = true;
  expand = λ text. text;
  bad = false;
  count = some 40;
  need_rename = false;
  write_success = true;
}

abbrev logger : Logger
logger = new_logger (b'l' ∷ []) info_level false day no_time opening

files_balance_example :
    let l =
      run
        (call_format warn_level (97 ∷ []) answers ∷ call_text debug_level (98 ∷ []) answers ∷ [])
        logger in
    (l.opened ≡ l.closed + held l.fp)
    × (is_open_state l.state ≡ true → held l.fp ≡ 1)
    × ((fclose l).closed ≡ l.opened)
    × ((fclose l).fp ≡ none)
files_balance_example =
    files_balance (b'l' ∷ []) info_level false day no_time opening
      (call_format warn_level (97 ∷ []) answers ∷ call_text debug_level (98 ∷ []) answers ∷ [])

-- The logger with times in its lines, and its file of the later hour.
abbrev timed : Logger
timed = record logger { log_strategy = millisecond }

rename_within_day_example :
    let p = open_file opening timed in
    let need = (time_rename p.name_strategy p.name_time p.log_strategy later false).1 in
    let m = reopen_if_need need (record { clock = later; opens = true }) p in
    (m.fp ≡ p.fp) × (m.closed ≡ p.closed + 1) × (m.opened ≡ p.opened + 1)
unfolding new_logger open_file
rename_within_day_example =
    rename_within_day timed morning later false refl (λ e. cc) morning-IsDate later-IsDate refl refl
      refl (omega arith) (omega arith)
