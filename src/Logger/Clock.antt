-- ===== src/Logger/Clock.antt =====
-- The times of the logger: `log_time` (sulog/base_logger.h) and the three `time` of
-- sulog/simple_logger.cpp. What `localtime_r` and `gettimeofday` give is an argument, a `Clock`.
use npoller.Base.{
  ℕ, ◌+◌, ◌/◌, ◌%◌, ◌^◌, ◌==◌, ltb, Bool, true, false, not, ◌&&◌, ◌||◌, if◌then◌else◌, List, [],
  ◌∷◌, ◌++◌,
}

-- `log_time_strategy`
pub data LogTimeStrategy : Type 0 where
  no_time month day hour minute second millisecond : LogTimeStrategy

-- The numbers of its enumerators.
abbrev pub rank : LogTimeStrategy → ℕ
rank no_time = 0
rank month = 10
rank day = 9
rank hour = 8
rank minute = 7
rank second = 6
rank millisecond = 5

-- `struct tm`, with `tv_usec`.
pub record Clock : Type 0 where
  pub tm_year : ℕ
  pub tm_mon : ℕ
  pub tm_mday : ℕ
  pub tm_hour : ℕ
  pub tm_min : ℕ
  pub tm_sec : ℕ
  pub tv_usec : ℕ

pub record LogTime : Type 0 where
  pub year : ℕ
  pub month_of_year : ℕ
  pub date : ℕ
  pub hour_of_day : ℕ
  pub init : ℕ

-- `log_time()`
abbrev pub no_log_time : LogTime
no_log_time = record { year = 0; month_of_year = 0; date = 0; hour_of_day = 0; init = 0 }

-- `set_val`, into bit fields of 12, 4, 5 and 5 bits.
unfoldable pub set_val : Clock → LogTime
set_val c = record {
  year = c.tm_year % 2 ^ 12;
  month_of_year = c.tm_mon % 2 ^ 4;
  date = c.tm_mday % 2 ^ 5;
  hour_of_day = c.tm_hour % 2 ^ 5;
  init = 1;
}

-- `is_init()`, which says that the value was not set.
abbrev pub is_init : LogTime → Bool
is_init t = t.init == 0

-- `equal`. In this member function `month` and `hour` name the members of that name, which hide the
-- enumerators; `day` is the enumerator.
unfoldable pub equal : LogTimeStrategy → LogTime → LogTime → Bool
equal strategy t other =
    (ltb t.month_of_year (rank strategy)
      || ((t.year == other.year) && (t.month_of_year == other.month_of_year)))
    && ((ltb (rank day) (rank strategy) || (t.date == other.date))
        && (ltb t.hour_of_day (rank strategy) || (t.hour_of_day == other.hour_of_day)))

-- `%Y` of a year with four digits, the fields of two digits, and `%03d`.
abbrev pub four_digits : ℕ → List ℕ
four_digits n =
    (b'0' + n / 1000 % 10) ∷ (b'0' + n / 100 % 10) ∷ (b'0' + n / 10 % 10) ∷ (b'0' + n % 10) ∷ []

abbrev pub two_digits : ℕ → List ℕ
two_digits n = (b'0' + n / 10 % 10) ∷ (b'0' + n % 10) ∷ []

abbrev pub three_digits : ℕ → List ℕ
three_digits n = (b'0' + n / 100 % 10) ∷ (b'0' + n / 10 % 10) ∷ (b'0' + n % 10) ∷ []

abbrev pub month_text : Clock → List ℕ
month_text c = four_digits (c.tm_year + 1900) ++ (b'-' ∷ two_digits (c.tm_mon + 1))

abbrev pub day_text : Clock → List ℕ
day_text c = month_text c ++ (b'-' ∷ two_digits c.tm_mday)

abbrev pub hour_text : Clock → List ℕ
hour_text c = day_text c ++ (b'-' ∷ two_digits c.tm_hour)

abbrev pub minute_text : Clock → List ℕ
minute_text c = hour_text c ++ (b':' ∷ two_digits c.tm_min)

abbrev pub second_text : Clock → List ℕ
second_text c = minute_text c ++ (b':' ∷ two_digits c.tm_sec)

-- `std::string time(log_time_strategy)`
unfoldable pub time : LogTimeStrategy → Clock → List ℕ
time no_time c = []
time month c = month_text c
time day c = day_text c
time hour c = hour_text c
time minute c = minute_text c
time second c = second_text c
time millisecond c = second_text c ++ (b'-' ∷ three_digits (c.tv_usec / 1000 % 1000))

abbrev pub is_no_time : LogTimeStrategy → Bool
is_no_time no_time = true
is_no_time _ = false

-- `std::string time(log_time_strategy, log_time &now)`: the text, and `now` afterwards.
unfoldable pub time_now : LogTimeStrategy → Clock → LogTime → List ℕ × LogTime
time_now strategy c now = (time strategy c, if is_no_time strategy then now else set_val c)

-- `std::string time(log_time_strategy, bool &need_rename)`: the text, and `need_rename` afterwards; the
-- arguments are `name_strategy`, `name_time`, `strategy`, the clock and what `need_rename` was.
unfoldable pub time_rename :
    LogTimeStrategy → LogTime → LogTimeStrategy → Clock → Bool → List ℕ × Bool
time_rename name_strategy name_time strategy c need_rename =
    if is_no_time strategy then ([], need_rename) else (
      time strategy c,
      if is_init name_time
          then false
          else if not (equal name_strategy name_time (set_val c))
          then true
          else need_rename,
    )
