-- ===== src/Scripts/StaticAnalysis/Run.antt =====
-- `main` of static-analysis.ts. The shell is a state of a type that only the parameters know.
pub mod Laws
use climate_chain.Shared.{
  ℕ, ◌==◌, Bool, true, false, not, ◌&&◌, ◌||◌, Option, none, some, String, List, [], ◌∷◌, ◌++◌,
  length, truthy, or_else, if◌then◌else◌,
}
use climate_chain.Shared.Text.{append, join, show, to_lower}
use climate_chain.Js.{Value, Result, ok, throw, ◌>>=◌}
use climate_chain.Registry.Json.{error}
use climate_chain.Scripts.StaticAnalysis.Scan.{Finding, after_prefix, scan_file}
use climate_chain.Scripts.StaticAnalysis.Slither.{
  StaticAnalysisProfile, StaticAnalysisOptions, SlitherCommand, build_slither_args,
}

-- What `spawnSync` gives: `failed` where there is an `error`, and no status where a signal ended it.
pub record Outcome : Type 0 where
  pub failed : Bool
  pub status : Option ℕ
  pub signal : Option String
  pub output : String

-- Commands, the test for build information, and the writing of a report.
pub record Shell (W : Type 0) : Type 0 where
  pub spawn : String → List String → W → Outcome × W
  pub has_build_info : W → Bool
  pub write_report : String → String → W → Result (Unit {0}) × W
  pub npx : String

abbrev pub succeeded : Outcome → Bool
succeeded o = elim o.status [ none ↦ false | some status ↦ status == 0 ]

abbrev status_label : Outcome → String
status_label o = elim o.status [ none ↦ "null" | some status ↦ show status ]

abbrev ending_of : Outcome → String
ending_of o =
    join "" (" (status: " ∷ status_label o ∷ ", signal: " ∷ or_else o.signal "none" ∷ ")." ∷ [])

-- Whether the second text stands in the first.
occurs : String → String → Bool
unfolding after_prefix
occurs String.[] part = elim (after_prefix part String.[]) [ none ↦ false | some rest ↦ true ]
occurs (String.◌∷◌ c s) part =
    let later = occurs s part in
    elim (after_prefix part (String.◌∷◌ c s)) [ none ↦ later | some rest ↦ true ]

-- `/out of sync with the build artifacts on disk/i`
unfoldable pub is_out_of_sync : String → Bool
unfolding occurs
is_out_of_sync output = occurs (to_lower output) "out of sync with the build artifacts on disk"

module _ {W : Type 0} (shell : Shell W) where
  -- The first candidate that is available.
  resolve_slither_command : List SlitherCommand → W → Option SlitherCommand × W
  resolve_slither_command [] w = (none, w)
  resolve_slither_command (candidate ∷ candidates) w =
      let (o, w') = shell.spawn candidate.command candidate.availability_args w in
      elim (not o.failed && succeeded o) [
        | true ↦ (some candidate, w')
        | false ↦ resolve_slither_command candidates w'
      ]

  ensure_hardhat_build_info : W → Result (Unit {0}) × W
  ensure_hardhat_build_info w =
      if shell.has_build_info w
      then (ok tt, w)
      else let (o, w') = shell.spawn shell.npx ("hardhat" ∷ "compile" ∷ []) w in
        if succeeded o then (ok tt, w') else (
          throw (error ("Hardhat compile failed while preparing Slither input" ∷ ending_of o ∷ [])),
          w',
        )

  run_hardhat_command : String → W → Result (Unit {0}) × W
  run_hardhat_command arg w =
      let (o, w') = shell.spawn shell.npx ("hardhat" ∷ arg ∷ []) w in
      if succeeded o
      then (ok tt, w')
      else (throw (error ("Hardhat " ∷ arg ∷ " failed" ∷ ending_of o ∷ [])), w')

  abbrev pub then_run : {A B : Type 0} → Result A × W → (A → W → Result B × W) → Result B × W
  then_run (ok a, w) f = f a w
  then_run (throw e, w) f = (throw e, w)

  rebuild_hardhat_artifacts : W → Result (Unit {0}) × W
  unfolding run_hardhat_command
  rebuild_hardhat_artifacts w =
      then_run (run_hardhat_command "clean" w) (λ u w'. run_hardhat_command "compile" w')

  write_report_if_requested : Option String → String → W → Result (Unit {0}) × W
  write_report_if_requested output_path report w =
      if truthy output_path
      then shell.write_report (or_else output_path "") (append report "\n") w
      else (ok tt, w)

  -- One rebuild and one more run where the artifacts are out of date.
  run_again : SlitherCommand → List String → Outcome × W → Result Outcome × W
  unfolding rebuild_hardhat_artifacts
  run_again command args (o, w) =
      if not (succeeded o) && is_out_of_sync o.output
      then then_run (rebuild_hardhat_artifacts w)
          (λ u w'. let (o', w'') = shell.spawn command.command args w' in (ok o', w''))
      else (ok o, w)

  report_run : StaticAnalysisOptions → Outcome → W → Result Bool × W
  unfolding write_report_if_requested
  report_run options o w =
      then_run (write_report_if_requested options.output_path o.output w) (λ u w'.
        if succeeded o then (ok true, w') else (
          throw (
              error (
                "Slither exited with status "
                ∷ status_label o
                ∷ " (signal: "
                ∷ or_else o.signal "none"
                ∷ "). This may indicate findings or an execution/configuration error; inspect the output above for root cause."
                ∷ [])),
          w',
        ))

  run_command : StaticAnalysisOptions → SlitherCommand → W → Result Bool × W
  unfolding ensure_hardhat_build_info run_again report_run
  run_command options command w = then_run (ensure_hardhat_build_info w) (λ u w'.
      let args = build_slither_args command.run_args options.profile in
      then_run (run_again command args (shell.spawn command.command args w')) (report_run options))

  with_command : StaticAnalysisOptions → Option SlitherCommand × W → Result Bool × W
  unfolding run_command
  with_command options (none, w) = (ok false, w)
  with_command options (some command, w) = run_command options command w

  unfoldable pub run_slither_if_available :
      List SlitherCommand → StaticAnalysisOptions → W → Result Bool × W
  unfolding with_command resolve_slither_command
  run_slither_if_available candidates options w =
      with_command options (resolve_slither_command candidates w)

-- `runFallbackStaticScan`, on the collected files and what reading each gives.
scan_files : List (String × Result String) → Result (List Finding)
scan_files [] = ok []
scan_files ((file_path, read) ∷ files) = do
  content ← read
  others ← scan_files files
  ok (scan_file file_path content ++ others)

abbrev reject_findings : List Finding → Result (Unit {0})
reject_findings [] = ok tt
reject_findings (f ∷ fs) =
    throw (error ("Fallback static scan found " ∷ show (length (f ∷ fs)) ∷ " issue(s)." ∷ []))

unfoldable pub run_fallback_static_scan : List (String × Result String) → Result (Unit {0})
unfolding scan_files
run_fallback_static_scan files = do findings ← scan_files files; reject_findings findings

module _ {W : Type 0} (shell : Shell W) where
  fall_back : List (String × Result String) → Bool → W → Result (Unit {0}) × W
  fall_back files true w = (ok tt, w)
  fall_back files false w = (run_fallback_static_scan files, w)

  -- `main`; the result is the script's exit code, 0 or 1.
  unfoldable pub main :
      List SlitherCommand
      → StaticAnalysisOptions
      → List (String × Result String)
      → W
      → Result (Unit {0}) × W
  unfolding fall_back
  main candidates options files w =
      then_run shell (run_slither_if_available shell candidates options w) (fall_back files)
