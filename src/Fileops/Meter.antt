-- ===== src/Fileops/Meter.antt =====
-- internal/fileops/meter.go: the meter of an operation that reports its progress. Its lock makes
-- each call one step; the scan, the ticker and the copy are orders of such steps.
pub mod Account
pub mod Tests
use shfm.Common.{
  ℕ, suc, ◌+◌, Bool, true, false, Option, none, some, List, [], ◌∷◌, max, if◌then◌else◌,
}
use shfm.Common.Int.{ℤ, pos, negsuc}

-- `cur` is what the function of the file being copied answers now.
pub record Meter : Type 0 where
  pub done : ℕ
  pub cur : Option ℕ
  pub total : ℕ
  pub files : ℕ
  pub files_total : ℕ
  pub known : Bool

-- The progress that is reported; a total of -1 is not known yet.
pub record Progress : Type 0 where
  pub done : ℕ
  pub total : ℤ
  pub files : ℕ
  pub files_total : ℤ

abbrev pub value_of : Option ℕ → ℕ
value_of none = 0
value_of (some n) = n

abbrev minus_one : ℤ
minus_one = negsuc 0

report_as : Bool → ℕ → Meter → Progress
report_as true d m = record {
  done = d;
  total = pos (max m.total d);
  files = m.files;
  files_total = pos (max m.files_total m.files);
}
report_as false d m = record {
  done = d;
  total = minus_one;
  files = m.files;
  files_total = minus_one;
}

unfoldable pub report : Meter → Progress
unfolding report_as
report m = report_as m.known (m.done + value_of m.cur) m

pub add_total : ℕ → ℕ → Meter → Meter
add_total n files m = record m { total = m.total + n; files_total = m.files_total + files }

pub set_cur : Meter → Meter
set_cur m = record m { cur = some 0 }

pub file_done : ℕ → Bool → Meter → Meter
file_done n good m = record m {
  done = m.done + n;
  cur = none;
  files = if good then suc m.files else m.files;
}

-- meterReader's Read of `n` bytes
pub count_read : ℕ → Meter → Meter
count_read n m = record m { done = m.done + n }

-- What the function of a file answers later on, while there is one.
advance : ℕ → Option ℕ → Option ℕ
advance n none = none
advance n (some k) = some n

-- The end of the scan, or finish.
pub all_known : Meter → Meter
all_known m = record m { known = true }

-- What happens to a meter; `advanced n` is the file's copy getting on to `n` bytes.
pub data Event : Type 0 where
  found : ℕ → ℕ → Event
  started : Event
  advanced : ℕ → Event
  ended : ℕ → Bool → Event
  was_read : ℕ → Event
  scanned : Event

unfoldable pub step : Event → Meter → Meter
unfolding add_total set_cur file_done advance count_read all_known
step (found n files) m = add_total n files m
step started m = set_cur m
step (advanced n) m = record m { cur = advance n m.cur }
step (ended n good) m = file_done n good m
step (was_read n) m = count_read n m
step scanned m = all_known m

-- startMeter
abbrev pub new_meter : Meter
new_meter = record { done = 0; cur = none; total = 0; files = 0; files_total = 0; known = false }

unfoldable pub run : List Event → Meter → Meter
unfolding step
run [] m = m
run (e ∷ es) m = run es (step e m)
