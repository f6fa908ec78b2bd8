-- ===== src/Fileops/Meter/Account.antt =====
-- What the meter of internal/fileops/meter.go reports, from everything that happened to it.
use shfm.Common.{
  ℕ, suc, ◌+◌, ◌≡◌, refl, ap, ◌∙◌, Bool, true, false, Option, none, some, List, [], ◌∷◌, max, arith,
  if◌then◌else◌, is_some,
}
use shfm.Common.Int.{ℤ, pos, negsuc}
use shfm.Fileops.Meter.{
  Meter, Event, found, started, advanced, ended, was_read, scanned, new_meter, value_of, report_as,
  report, advance, step, run,
}

-- The events are given with the latest first.
-- The bytes of the file that is being copied: those of its last count, and none once it ended.
pub current : List Event → Option ℕ
current [] = none
current (started ∷ es) = some 0
current (ended n good ∷ es) = none
current (advanced n ∷ es) = let before = current es in if is_some before then some n else none
current (found n files ∷ es) = current es
current (was_read n ∷ es) = current es
current (scanned ∷ es) = current es

-- The bytes of the files that ended, by what they were counted for at their end, and what was read.
pub counted : List Event → ℕ
counted [] = 0
counted (ended n good ∷ es) = n + counted es
counted (was_read n ∷ es) = n + counted es
counted (e ∷ es) = counted es

pub good_files : List Event → ℕ
good_files [] = 0
good_files (ended n true ∷ es) = suc (good_files es)
good_files (e ∷ es) = good_files es

pub found_bytes : List Event → ℕ
found_bytes [] = 0
found_bytes (found n files ∷ es) = n + found_bytes es
found_bytes (e ∷ es) = found_bytes es

pub found_files : List Event → ℕ
found_files [] = 0
found_files (found n files ∷ es) = files + found_files es
found_files (e ∷ es) = found_files es

pub was_scanned : List Event → Bool
was_scanned [] = false
was_scanned (scanned ∷ es) = true
was_scanned (e ∷ es) = was_scanned es

-- The meter of a history.
abbrev Agrees : List Event → Meter → Type 0
Agrees h m =
    (m.done ≡ counted h)
    × (m.cur ≡ current h)
    × (m.files ≡ good_files h)
    × (m.total ≡ found_bytes h)
    × (m.files_total ≡ found_files h)
    × (m.known ≡ was_scanned h)

advance-current : (n : ℕ) (o : Option ℕ) → advance n o ≡ (if is_some o then some n else none)
unfolding advance
advance-current n none = refl
advance-current n (some k) = refl

step-Agrees : (e : Event) (h : List Event) (m : Meter) → Agrees h m → Agrees (e ∷ h) (step e m)
unfolding step advance current counted good_files found_bytes found_files was_scanned
step-Agrees (found n files) h m (d, c, f, t, u, k) = (d, c, f, omega arith, omega arith, k)
step-Agrees started h m (d, c, f, t, u, k) = (d, refl, f, t, u, k)
step-Agrees (advanced n) h m (d, c, f, t, u, k) =
    (d, ap (advance n) c ∙ advance-current n (current h), f, t, u, k)
step-Agrees (ended n true) h m (d, c, f, t, u, k) = (omega arith, refl, ap suc f, t, u, k)
step-Agrees (ended n false) h m (d, c, f, t, u, k) = (omega arith, refl, f, t, u, k)
step-Agrees (was_read n) h m (d, c, f, t, u, k) = (omega arith, c, f, t, u, k)
step-Agrees scanned h m (d, c, f, t, u, k) = (d, c, f, t, u, refl)

pub history : List Event → List Event → List Event
history [] h = h
history (e ∷ es) h = history es (e ∷ h)

run-Agrees : (es h : List Event) (m : Meter) → Agrees h m → Agrees (history es h) (run es m)
unfolding run history
run-Agrees [] h m a = a
run-Agrees (e ∷ es) h m a = run-Agrees es (e ∷ h) (step e m) (step-Agrees e h m a)

-- The totals that a report of `done` bytes and `files` files shows.
abbrev pub shows_total : Bool → ℕ → ℕ → ℤ
shows_total known total done = if known then pos (max total done) else negsuc 0

report_as-fields :
    (b : Bool) (d : ℕ) (m : Meter)
    → ((report_as b d m).done ≡ d)
      × ((report_as b d m).files ≡ m.files)
      × ((report_as b d m).total ≡ shows_total b m.total d)
      × ((report_as b d m).files_total ≡ shows_total b m.files_total m.files)
unfolding report_as
report_as-fields true d m = (refl, refl, refl, refl)
report_as-fields false d m = (refl, refl, refl, refl)

-- Whatever happens to a meter, in whatever order, and whether files end well or not: it reports the
-- bytes that the files that ended were counted for, the bytes that were read, and the last count of
-- the file that is being copied; the files that ended well; and totals that are unknown until the
-- scan ended, and then those that were found, raised to what is reported as done.
pub report-run :
    (es : List Event)
    → let h = history es [] in
      let p = report (run es new_meter) in
      (p.done ≡ counted h + value_of (current h))
      × (p.files ≡ good_files h)
      × (p.total ≡ shows_total (was_scanned h) (found_bytes h) (counted h + value_of (current h)))
      × (p.files_total ≡ shows_total (was_scanned h) (found_files h) (good_files h))
unfolding report current counted good_files found_bytes found_files was_scanned
report-run es =
    let m = run es new_meter in
    let h = history es [] in
    let (d, c, f, t, u, k) = run-Agrees es [] new_meter (refl, refl, refl, refl, refl, refl) in
    let (p, q, r, s) = report_as-fields m.known (m.done + value_of m.cur) m in
    let done : m.done + value_of m.cur ≡ counted h + value_of (current h) =
      ap (λ x. x + value_of m.cur) d ∙ ap (λ o. counted h + value_of o) c in
    (
      p ∙ done,
      q ∙ f,
      r
          ∙ (ap (λ b. shows_total b m.total (m.done + value_of m.cur)) k
              ∙ (ap (λ x. shows_total (was_scanned h) x (m.done + value_of m.cur)) t
                  ∙ ap (shows_total (was_scanned h) (found_bytes h)) done)),
      s
          ∙ (ap (λ b. shows_total b m.files_total m.files) k
              ∙ (ap (λ x. shows_total (was_scanned h) x m.files) u
                  ∙ ap (shows_total (was_scanned h) (found_files h)) f)),
    )
