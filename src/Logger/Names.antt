-- ===== src/Logger/Names.antt =====
-- The names of log files against `equal` (sulog/base_logger.h).
use npoller.Base.{
  ℕ, ap, sym, ◌∙◌, inl, inr, not, Bool, ◌⊎◌, ◌++◌, ◌+◌, ◌-◌, ◌*◌, ◌/◌, ◌%◌, ◌≤◌, ◌<◌, ◌≡◌, ◌≢◌,
  refl, true, false, List, [], ◌∷◌, arith, if◌then◌else◌,
}
use npoller.Logger.Clock.{
  LogTimeStrategy, no_time, month, day, hour, minute, second, millisecond, Clock, set_val, equal,
  time, time_now, time_rename, is_no_time, rank,
}
use npoller.Logger.File.{Logger, open_file, reopen_if_need}

-- What `localtime_r` gives, up to the year 9999.
pub record IsDate (c : Clock) : Type 0 where
  pub year : c.tm_year + 1900 < 10000
  pub mon : c.tm_mon < 12
  pub mday : c.tm_mday < 32
  pub hour_of_day : c.tm_hour < 24

-- The date that a text with the strategy `day` shows.
unfoldable pub read_day : List ℕ → ℕ × ℕ × ℕ
read_day (a ∷ b ∷ c ∷ d ∷ dash ∷ e ∷ f ∷ dash' ∷ g ∷ h ∷ rest) = (
  (a - b'0') * 1000 + (b - b'0') * 100 + (c - b'0') * 10 + (d - b'0') - 1900,
  (e - b'0') * 10 + (f - b'0') - 1,
  (g - b'0') * 10 + (h - b'0'),
)
read_day _ = (0, 0, 0)

read_fields :
    (c : Clock) (rest : List ℕ)
    → IsDate c
    → read_day (time day c ++ rest) ≡ (c.tm_year, c.tm_mon, c.tm_mday)
unfolding read_day time
read_fields c rest v =
    let y : (b'0' + (c.tm_year + 1900) / 1000 % 10 - b'0') * 1000
          + (b'0' + (c.tm_year + 1900) / 100 % 10 - b'0') * 100
          + (b'0' + (c.tm_year + 1900) / 10 % 10 - b'0') * 10
          + (b'0' + (c.tm_year + 1900) % 10 - b'0')
          - 1900
        ≡ c.tm_year =
      omega (arith, v.year) in
    let m : (b'0' + (c.tm_mon + 1) / 10 % 10 - b'0') * 10 + (b'0' + (c.tm_mon + 1) % 10 - b'0') - 1
        ≡ c.tm_mon =
      omega (arith, v.mon) in
    let d : (b'0' + c.tm_mday / 10 % 10 - b'0') * 10 + (b'0' + c.tm_mday % 10 - b'0') ≡ c.tm_mday =
      omega (arith, v.mday) in
    λ i. (y i, m i, d i)

-- With any strategy from `day` on, the date can be read back off the text.
pub time-read_day :
    (strategy : LogTimeStrategy) (c : Clock)
    → rank strategy ≤ 9
    → strategy ≢ no_time
    → IsDate c
    → read_day (time strategy c) ≡ (c.tm_year, c.tm_mon, c.tm_mday)
unfolding time
time-read_day no_time c fine some_time v = absurd (some_time refl)
time-read_day month c fine some_time v = absurd (omega arith)
time-read_day day c fine some_time v = read_fields c [] v
time-read_day hour c fine some_time v = read_fields c _ v
time-read_day minute c fine some_time v = read_fields c _ v
time-read_day second c fine some_time v = read_fields c _ v
time-read_day millisecond c fine some_time v = read_fields c _ v

is_no_time-false : (strategy : LogTimeStrategy) → strategy ≢ no_time → is_no_time strategy ≡ false
is_no_time-false no_time h = absurd (h refl)
is_no_time-false month h = refl
is_no_time-false day h = refl
is_no_time-false hour h = refl
is_no_time-false minute h = refl
is_no_time-false second h = refl
is_no_time-false millisecond h = refl

other_hour :
    (c d : Clock)
    → IsDate c
    → IsDate d
    → 9 ≤ c.tm_hour
    → c.tm_hour ≢ d.tm_hour
    → equal day (set_val c) (set_val d) ≡ false
unfolding equal set_val
other_hour c d v w late other = ground (arith, v.hour_of_day, w.hour_of_day)

early_date :
    (c d : Clock)
    → c.tm_mon < 9
    → c.tm_hour < 9
    → c.tm_mday ≡ d.tm_mday
    → equal day (set_val c) (set_val d) ≡ true
unfolding equal set_val
early_date c d early morning same = ground arith

-- What is asked when the file has been opened.
renamed :
    (c d : Clock) (strategy : LogTimeStrategy) (need_rename : Bool)
    → strategy ≢ no_time
    → (time_rename day (set_val c) strategy d need_rename).1
      ≡ (if not (equal day (set_val c) (set_val d)) then true else need_rename)
unfolding time_rename set_val
renamed c d strategy need_rename some_time = rw (is_no_time-false strategy some_time) refl

-- A logger whose names have the strategy `day` and whose lines have one that is not `no` opens a file at `c`,
-- from 9 o'clock on. Where it then prints at `d`, a different hour of the same day, it closes that file and
-- opens one of the same name again. Both times are dates up to the year 9999, and `fopen` gives a file each
-- time.
pub rename_within_day :
    (l : Logger) (c d : Clock) (need_rename : Bool)
    → l.name_strategy ≡ day
    → l.log_strategy ≢ no_time
    → IsDate c
    → IsDate d
    → c.tm_year ≡ d.tm_year
    → c.tm_mon ≡ d.tm_mon
    → c.tm_mday ≡ d.tm_mday
    → 9 ≤ c.tm_hour
    → c.tm_hour ≢ d.tm_hour
    → let p = open_file (record { clock = c; opens = true }) l in
      let need = (time_rename p.name_strategy p.name_time p.log_strategy d need_rename).1 in
      let m = reopen_if_need need (record { clock = d; opens = true }) p in
      (m.fp ≡ p.fp) × (m.closed ≡ p.closed + 1) × (m.opened ≡ p.opened + 1)
unfolding open_file time_now reopen_if_need time
rename_within_day l c d need_rename by_day some_time v w y m same late other =
    let need : (time_rename day (set_val c) l.log_strategy d need_rename).1 ≡ true =
      renamed c d l.log_strategy need_rename some_time
      ∙ (rw (other_hour c d v w late other) refl) in
    rw (by_day, need, y, m, same) (refl, refl, refl)

-- With `day` for the names, a file opened at `c`, before 9 o'clock on a day of the first nine months, is not
-- left on the same day of another month or year, though the name is another: `need_rename` keeps the value
-- that it happens to have.
rename_missed :
    (c d : Clock) (strategy : LogTimeStrategy) (need_rename : Bool)
    → IsDate c
    → IsDate d
    → strategy ≢ no_time
    → c.tm_mon < 9
    → c.tm_hour < 9
    → c.tm_mday ≡ d.tm_mday
    → (c.tm_year ≢ d.tm_year) ⊎ (c.tm_mon ≢ d.tm_mon)
    → (time day d ≢ time day c)
      × ((time_rename day (set_val c) strategy d need_rename).1 ≡ need_rename)
rename_missed c d strategy need_rename v w some_time early morning same other = (
  λ e.
      let shown : (d.tm_year, d.tm_mon, d.tm_mday) ≡ (c.tm_year, c.tm_mon, c.tm_mday) =
        sym (time-read_day day d (omega arith) (λ n. cc) w)
        ∙ ap read_day e
        ∙ time-read_day day c (omega arith) (λ n. cc) v in
      apart other (ap (λ t. t.0) shown) (ap (λ t. t.1) shown),
  renamed c d strategy need_rename some_time ∙ (rw (early_date c d early morning same) refl),
)
  where
    apart :
        (c.tm_year ≢ d.tm_year) ⊎ (c.tm_mon ≢ d.tm_mon)
        → d.tm_year ≡ c.tm_year
        → d.tm_mon ≡ c.tm_mon
        → ⊥
    apart (inl ne) y m = ne (sym y)
    apart (inr ne) y m = ne (sym m)
