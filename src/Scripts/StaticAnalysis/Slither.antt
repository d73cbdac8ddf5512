-- ===== src/Scripts/StaticAnalysis/Slither.antt =====
-- The options and the commands of static-analysis.ts.
use climate_chain.Shared.{
  Bool, true, false, not, ◌||◌, Option, none, some, String, List, [], ◌∷◌, ◌++◌, map, str_eq,
  truthy, or_else, if◌then◌else◌,
}
use climate_chain.Shared.Text.{append, join}
use climate_chain.Js.{Result, ok, throw}
use climate_chain.Scripts.StaticAnalysis.Scan.{after_prefix}

pub data StaticAnalysisProfile : Type 0 where
  stage4 full : StaticAnalysisProfile

pub record StaticAnalysisOptions : Type 0 where
  pub profile : StaticAnalysisProfile
  pub output_path : Option String

pub record SlitherCommand : Type 0 where
  pub command : String
  pub availability_args : List String
  pub run_args : List String
  pub label : String

abbrev slither_excluded_detectors : String
slither_excluded_detectors = join "," (
    "arbitrary-send-eth" ∷ "incorrect-equality" ∷ "reentrancy-no-eth" ∷ "reentrancy-benign"
    ∷ "reentrancy-events" ∷ [])

-- `candidate === "stage4" || candidate === "full"`
abbrev profile_named : String → Option StaticAnalysisProfile
profile_named name =
    if str_eq name "stage4" then some stage4 else if str_eq name "full" then some full else none

-- What one argument says by itself.
apply_argument : String → StaticAnalysisOptions → StaticAnalysisOptions
apply_argument arg options = elim (after_prefix "--profile=" arg) [
  | some name ↦ record options { profile = or_else (profile_named name) options.profile }
  | none ↦ elim (after_prefix "--output=" arg) [
    | some path ↦ record options { output_path = some path }
    | none ↦ options
  ]
]

-- The arguments from the third on; `--profile` takes the next one only where that is a profile.
parse_arguments : List String → StaticAnalysisOptions → StaticAnalysisOptions
unfolding apply_argument
parse_arguments [] options = options
parse_arguments (arg ∷ []) options = apply_argument arg options
parse_arguments (arg ∷ (next ∷ rest)) options = elim (str_eq arg "--profile") [
  | true ↦ elim (profile_named next) [
    | some profile ↦ parse_arguments rest (record options { profile = profile })
    | none ↦ parse_arguments (next ∷ rest) options
  ]
  | false ↦ elim (str_eq arg "--output") [
    | true ↦ parse_arguments rest (record options { output_path = some next })
    | false ↦ parse_arguments (next ∷ rest) (apply_argument arg options)
  ]
]

-- The second argument is `STATIC_ANALYSIS_REPORT_PATH`.
unfoldable pub parse_options : List String → Option String → StaticAnalysisOptions
unfolding parse_arguments
parse_options arguments report_path =
    parse_arguments arguments (record { profile = stage4; output_path = report_path })

unfoldable pub build_slither_args : List String → StaticAnalysisProfile → List String
build_slither_args run_args full =
    run_args ++ "--hardhat-ignore-compile" ∷ "--exclude-dependencies" ∷ []
build_slither_args run_args stage4 =
    run_args
    ++ "--hardhat-ignore-compile" ∷ "--exclude-dependencies" ∷ "--exclude-low"
      ∷ "--exclude-informational" ∷ "--exclude-optimization" ∷ "--exclude"
      ∷ slither_excluded_detectors ∷ []

abbrev select {ℓ} : {A : Type ℓ} → (A → Bool) → List A → List A
select keep [] = []
select keep (x ∷ xs) = let rest = select keep xs in if keep x then x ∷ rest else rest

-- The platform, `LOCALAPPDATA`, the file system and the order of `localeCompare`.
pub record Machine : Type 0 where
  pub is_windows : Bool
  pub local_app_data : Option String
  pub path : List String → String
  pub dirname : String → String
  pub directories : String → Result (List String)
  pub exists : String → Bool
  pub sort_descending : List String → List String

abbrev or_nothing : {A : Type 0} → Result (List A) → List A
or_nothing (ok xs) = xs
or_nothing (throw e) = []

unfoldable pub get_windows_python_executables : Machine → List String
get_windows_python_executables machine =
    if not machine.is_windows || not (truthy machine.local_app_data)
    then []
    else let root = machine.path (or_else machine.local_app_data "" ∷ "Programs" ∷ "Python" ∷ []) in
      machine.sort_descending (
        select machine.exists (
          map (λ name. machine.path (root ∷ name ∷ "python.exe" ∷ []))
            (or_nothing (machine.directories root))))

abbrev as_module : String → String → SlitherCommand
as_module command label = record {
  command = command;
  availability_args = "-m" ∷ "slither" ∷ "--version" ∷ [];
  run_args = "-m" ∷ "slither" ∷ "." ∷ [];
  label = label;
}

abbrev as_binary : String → String → SlitherCommand
as_binary command label = record {
  command = command;
  availability_args = "--version" ∷ [];
  run_args = "." ∷ [];
  label = label;
}

-- The candidates of each Python of Windows.
windows_candidates : Machine → List String → List SlitherCommand
windows_candidates machine [] = []
windows_candidates machine (python ∷ pythons) =
    let slither = machine.path (machine.dirname python ∷ "Scripts" ∷ "slither.exe" ∷ []) in
    let rest =
      as_module python (append python " -m slither") ∷ windows_candidates machine pythons in
    if machine.exists slither then as_binary slither slither ∷ rest else rest

unfoldable pub get_slither_candidates : Machine → List SlitherCommand
unfolding windows_candidates get_windows_python_executables
get_slither_candidates machine =
    as_binary "slither" "slither binary"
    ∷ as_module "python" "python -m slither"
    ∷ as_module "python3" "python3 -m slither"
    ∷ as_module "py" "py -m slither"
    ∷ windows_candidates machine (get_windows_python_executables machine)
