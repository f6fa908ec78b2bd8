-- ===== src/Fileops/Meter/Tests.antt =====
-- A file of five bytes is copied, and one that fails after three: the reported bytes go back by them.
use shfm.Common.{◌+◌, ◌≡◌, refl, true, false, List, [], ◌∷◌, ◌++◌}
use shfm.Fileops.Meter.{
  Event, started, advanced, ended, found, scanned, new_meter, value_of, report, run,
}
use shfm.Fileops.Meter.Account.{
  history, counted, current, good_files, found_bytes, found_files, was_scanned, shows_total,
  report-run,
}

abbrev failing : List Event
failing = started ∷ advanced 5 ∷ ended 5 true ∷ found 9 2 ∷ scanned ∷ started ∷ advanced 3 ∷ []

report-run_example :
    let h = history failing [] in
    let p = report (run failing new_meter) in
    (p.done ≡ counted h + value_of (current h))
    × (p.files ≡ good_files h)
    × (p.total ≡ shows_total (was_scanned h) (found_bytes h) (counted h + value_of (current h)))
    × (p.files_total ≡ shows_total (was_scanned h) (found_files h) (good_files h))
report-run_example = report-run failing

eight : (report (run failing new_meter)).done ≡ 8
unfolding report run
eight = refl

five_again : (report (run (failing ++ ended 0 false ∷ []) new_meter)).done ≡ 5
unfolding report run
five_again = refl
