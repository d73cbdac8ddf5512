-- ===== src/Scripts/StaticAnalysis/Run/Laws.antt =====
-- When the check of the sources passes.
use mathlib.Core.List.{Memᴰ}
use climate_chain.Shared.{
  ◌≡◌, refl, sym, ap, ◌∙◌, ◌⊎◌, inl, inr, Bool, true, false, not, ◌&&◌, Option, none, some, String,
  List, [], ◌∷◌, ◌++◌, All, arith, Bool-cases,
}
use climate_chain.Js.{Result, ok, throw, bind_ok, ok_inj, throw-ne-ok}
use climate_chain.Scripts.StaticAnalysis.Scan.{Finding, scan_file}
use climate_chain.Scripts.StaticAnalysis.Slither.{
  StaticAnalysisOptions, SlitherCommand, build_slither_args,
}
use climate_chain.Scripts.StaticAnalysis.Run.{
  Outcome, Shell, succeeded, is_out_of_sync, resolve_slither_command, ensure_hardhat_build_info,
  rebuild_hardhat_artifacts, then_run, write_report_if_requested, run_again, report_run,
  run_command, with_command, run_slither_if_available, scan_files, reject_findings,
  run_fallback_static_scan, fall_back, main,
}

some_inj : {A : Type 0} {a b : A} → some a ≡ some b → a ≡ b
some_inj h = grind arith

-- The file was read and the scan finds nothing in it.
abbrev pub IsClean : String × Result String → Type 0
IsClean (file_path, read) =
    (content : String) × (read ≡ ok content) × (scan_file file_path content ≡ [])

append-eq-nil : {A : Type 0} (xs ys : List A) → xs ++ ys ≡ [] → (xs ≡ []) × (ys ≡ [])
append-eq-nil [] ys h = (refl, h)
append-eq-nil (x ∷ xs) ys h = cc

scan_files_nil :
    (files : List (String × Result String)) → scan_files files ≡ ok [] → All IsClean files
unfolding scan_files
scan_files_nil [] done = tt
scan_files_nil ((file_path, read) ∷ files) done =
    let (content, was_read, more) = bind_ok read _ [] done in
    let (others, scanned, same) = bind_ok (scan_files files) _ [] more in
    let (here, there) = append-eq-nil (scan_file file_path content) others (ok_inj same) in
    ((content, was_read, here), scan_files_nil files (scanned ∙ ap ok there))

reject_findings_ok : (fs : List Finding) → reject_findings fs ≡ ok tt → fs ≡ []
reject_findings_ok [] done = refl
reject_findings_ok (f ∷ fs) done = elim (throw-ne-ok done) [ ]

run_fallback_static_scan_ok :
    (files : List (String × Result String))
    → run_fallback_static_scan files ≡ ok tt
    → All IsClean files
unfolding run_fallback_static_scan
run_fallback_static_scan_ok files done =
    let (fs, scanned, accepted) = bind_ok (scan_files files) _ tt done in
    scan_files_nil files (scanned ∙ ap ok (reject_findings_ok fs accepted))

module _ {W : Type 0} (shell : Shell W) where
  then_run_ok :
      {A B : Type 0} (m : Result A × W) (f : A → W → Result B × W) (b : B)
      → (then_run shell m f).0 ≡ ok b
      → (a : A) × (m.0 ≡ ok a) × ((f a m.1).0 ≡ ok b)
  then_run_ok (ok a, w) f b done = (a, refl, done)
  then_run_ok (throw e, w) f b done = elim (throw-ne-ok done) [ ]

  resolve_slither_command-Mem :
      (candidates : List SlitherCommand) (w : W) (command : SlitherCommand)
      → (resolve_slither_command shell candidates w).0 ≡ some command
      → Memᴰ command candidates
  unfolding resolve_slither_command
  resolve_slither_command-Mem [] w command done = cc
  resolve_slither_command-Mem (c ∷ cs) w command done =
      let (o, w') = shell.spawn c.command c.availability_args w in
      elim (Bool-cases (not o.failed && succeeded o)) [
        | inl available ↦
            Memᴰ.head (sym (some_inj (rw (available, resolve_slither_command) at done)))
        | inr missing ↦ Memᴰ.tail (
            resolve_slither_command-Mem cs w' command
              (rw (missing, resolve_slither_command) at done))
      ]

  -- Every candidate was tried, one after the other, and none answered.
  abbrev pub NoneAvailable : List SlitherCommand → W → Type 0
  NoneAvailable [] w = Unit
  NoneAvailable (c ∷ cs) w =
      ((not (shell.spawn c.command c.availability_args w).0.failed
          && succeeded (shell.spawn c.command c.availability_args w).0)
        ≡ false)
      × NoneAvailable cs (shell.spawn c.command c.availability_args w).1

  resolve_slither_command-NoneAvailable :
      (candidates : List SlitherCommand) (w : W)
      → (resolve_slither_command shell candidates w).0 ≡ none
      → NoneAvailable candidates w
  unfolding resolve_slither_command
  resolve_slither_command-NoneAvailable [] w done = tt
  resolve_slither_command-NoneAvailable (c ∷ cs) w done =
      let (o, w') = shell.spawn c.command c.availability_args w in
      elim (Bool-cases (not o.failed && succeeded o)) [
        | inl available ↦
            let absurd : some c ≡ none = rw (available, resolve_slither_command) at done in cc
        | inr missing ↦ (
          missing,
          resolve_slither_command-NoneAvailable cs w'
              (rw (missing, resolve_slither_command) at done),
        )
      ]

  -- A run of the command on the build's arguments ended with status 0.
  abbrev pub RanClean : StaticAnalysisOptions → SlitherCommand → Type 0
  RanClean options command =
      (w : W) × (succeeded
          (shell.spawn command.command (build_slither_args command.run_args options.profile) w).0
        ≡ true)

  report_run_ok :
      (options : StaticAnalysisOptions) (o : Outcome) (w : W) (b : Bool)
      → (report_run shell options o w).0 ≡ ok b
      → (b ≡ true) × (succeeded o ≡ true)
  unfolding report_run
  report_run_ok options o w b done =
      let (u, written, more) =
        then_run_ok (write_report_if_requested shell options.output_path o.output w) _ b done in
      elim (Bool-cases (succeeded o)) [
        | inl clean ↦ (sym (ok_inj (rw (clean) at more)), clean)
        | inr failed ↦ elim (throw-ne-ok (rw (failed) at more)) [ ]
      ]

  -- The outcome that counts is that of the last run.
  run_again-last :
      (command : SlitherCommand) (args : List String) (w : W) (first : Outcome × W) (o : Outcome)
      → shell.spawn command.command args w ≡ first
      → (run_again shell command args first).0 ≡ ok o
      → (w' : W) × ((shell.spawn command.command args w').0 ≡ o)
  unfolding run_again
  run_again-last command args w (o', w') o this done =
      elim (Bool-cases (not (succeeded o') && is_out_of_sync o'.output)) [
        | inl stale ↦
            let again : (then_run shell (rebuild_hardhat_artifacts shell w')
                  (λ u w2. let (o2, w3) = shell.spawn command.command args w2 in (ok o2, w3))).0
                ≡ ok o =
              rw (stale) at done in
            let (u, rebuilt, same) = then_run_ok (rebuild_hardhat_artifacts shell w') _ o again in
            (_, ok_inj same)
        | inr settled ↦ (w, ap (λ x. x.0) this ∙ ok_inj (rw (settled) at done))
      ]

  run_command_ok :
      (options : StaticAnalysisOptions) (command : SlitherCommand) (w : W) (b : Bool)
      → (run_command shell options command w).0 ≡ ok b
      → (b ≡ true) × RanClean options command
  unfolding run_command
  run_command_ok options command w b done =
      let args = build_slither_args command.run_args options.profile in
      let (u, built, more) = then_run_ok (ensure_hardhat_build_info shell w) _ b done in
      let w' = (ensure_hardhat_build_info shell w).1 in
      let m = run_again shell command args (shell.spawn command.command args w') in
      let (o, ran, reported) = then_run_ok m (report_run shell options) b more in
      let (yes_true, clean) = report_run_ok options o m.1 b reported in
      let (last, at_last) = run_again-last command args w' _ o refl ran in
      (yes_true, (last, ap succeeded at_last ∙ clean))

  with_command_ok :
      (options : StaticAnalysisOptions) (found : Option SlitherCommand × W) (b : Bool)
      → (with_command shell options found).0 ≡ ok b
      → ((command : SlitherCommand) × (found.0 ≡ some command) × RanClean options command)
        ⊎ ((found.0 ≡ none) × (b ≡ false))
  unfolding with_command
  with_command_ok options (none, w) b done = inr (refl, sym (ok_inj done))
  with_command_ok options (some command, w) b done =
      inl (command, refl, (run_command_ok options command w b done).1)

  fell_back :
      (files : List (String × Result String)) (b : Bool) (w : W)
      → b ≡ false
      → (fall_back shell files b w).0 ≡ ok tt
      → run_fallback_static_scan files ≡ ok tt
  unfolding fall_back
  fell_back files true w not_run done = cc
  fell_back files false w not_run done = done

  -- The script passes only if one of the candidates ran with the build's arguments and ended with status
  -- 0, or if no candidate is available, and then every file was read and the scan finds nothing in any.
  pub main-RanClean :
      (candidates : List SlitherCommand) (options : StaticAnalysisOptions)
      (files : List (String × Result String)) (w : W)
      → (main shell candidates options files w).0 ≡ ok tt
      → ((command : SlitherCommand) × Memᴰ command candidates × RanClean options command)
        ⊎ (NoneAvailable candidates w × All IsClean files)
  unfolding main run_slither_if_available
  main-RanClean candidates options files w done =
      let found = resolve_slither_command shell candidates w in
      let (b, ran, more) =
        then_run_ok (with_command shell options found) (fall_back shell files) tt done in
      elim (with_command_ok options found b ran) [
        | inl (command, chosen, clean) ↦
            inl (command, resolve_slither_command-Mem candidates w command chosen, clean)
        | inr (missing, not_run) ↦ inr (
          resolve_slither_command-NoneAvailable candidates w missing,
          run_fallback_static_scan_ok files
              (fell_back files b (with_command shell options found).1 not_run more),
        )
      ]
