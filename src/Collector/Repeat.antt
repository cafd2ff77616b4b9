-- ===== src/Collector/Repeat.antt =====
-- internal/collector/repeat.go: repeated identical failures as a first report and summaries.
-- A method returns the new tracker and the line to log, "" for none.
pub mod Laws
use arex.Prelude.{ℕ, suc, ◌+◌, ◌/◌, ◌%◌, not, String, str_eq, itoa, ◌+s◌, ltb, ◌==◌, if◌then◌else◌}
use arex.Prelude.Int.{pos, negsuc}
use arex.GoTime.{Time, Duration, since, second}

abbrev pub summary_every : ℕ
summary_every = 10

pub record RepeatTracker : Type 0 where
  pub last : String
  pub count : ℕ
  pub since_time : Time
  pub since_last_report : ℕ

abbrev pub new_tracker : RepeatTracker
new_tracker = record { last = ""; count = 0; since_time = 0; since_last_report = 0 }

-- Duration.String of a whole number of seconds.
unfoldable pub seconds_text : ℕ → String
seconds_text s =
    if ltb s 60
    then itoa s +s "s"
    else if ltb s 3600
    then itoa (s / 60) +s "m" +s itoa (s % 60) +s "s"
    else itoa (s / 3600) +s "h" +s itoa (s % 3600 / 60) +s "m" +s itoa (s % 60) +s "s"

-- `d.Round(time.Second)` as text: halves go away from zero.
unfoldable pub rounded_text : Duration → String
rounded_text (pos n) = seconds_text ((n + 500000000) / second)
rounded_text (negsuc n) =
    let s = (suc n + 500000000) / second in if s == 0 then "0s" else "-" +s seconds_text s

unfoldable pub observe : RepeatTracker → String → Time → RepeatTracker × String
observe r msg now =
    if not (str_eq msg r.last)
    then (record { last = msg; count = 1; since_time = now; since_last_report = 0 }, msg)
    else if ltb (r.since_last_report + 1) summary_every
    then (record r { count = r.count + 1; since_last_report = r.since_last_report + 1 }, "")
    else (
      record r { count = r.count + 1; since_last_report = 0 },
      msg
          +s " (still failing: "
          +s itoa (r.count + 1)
          +s " attempts over "
          +s rounded_text (since now r.since_time)
          +s ")",
    )

unfoldable pub recovered : RepeatTracker → Time → RepeatTracker × String
recovered r now = if r.count == 0 then (r, "") else (
  record r { last = ""; count = 0; since_last_report = 0 },
  "recovered after "
      +s itoa r.count
      +s " failed attempts over "
      +s rounded_text (since now r.since_time),
)
