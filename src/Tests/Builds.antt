-- ===== src/Tests/Builds.antt =====
-- Runs of the build's checks of the contracts.
use mathlib.Core.List.{Memᴰ}
use climate_chain.Shared.{ℕ, String, ◌≡◌, refl, ◌⊎◌, true, none, some, List, [], ◌∷◌, All, is_some}
use climate_chain.Shared.Text.{split, trim}
use climate_chain.Js.{Number, whole, pos, Value, str, obj, field, end, Result, ok}
use climate_chain.Scripts.StaticAnalysis.Sanitize.{sanitize_line_for_scan}
use climate_chain.Scripts.StaticAnalysis.Sanitize.Grammar.{
  Line, plain, divide, quoted, escape, bare, open_comment, code_of, leaves_open, spell,
}
use climate_chain.Scripts.StaticAnalysis.Sanitize.Laws.{sanitize_line_for_scan-spell}
use climate_chain.Scripts.StaticAnalysis.Scan.{scan_file}
use climate_chain.Scripts.StaticAnalysis.Slither.{StaticAnalysisOptions, stage4, SlitherCommand}
use climate_chain.Scripts.StaticAnalysis.Run.{Shell, Outcome}
use climate_chain.Scripts.StaticAnalysis.Run
use climate_chain.Scripts.StaticAnalysis.Run.Laws.{RanClean, NoneAvailable, IsClean, main-RanClean}
use climate_chain.Scripts.ContractSize.{ContractSizeEntry}
use climate_chain.Scripts.ContractSize

-- `x */a/b"\"/*"/* tx.origin`
abbrev test_line : Line
test_line = record {
  opening = some ("x" ∷ " " ∷ []);
  pieces = plain "a" ∷ divide "b" ∷ quoted "\"" (escape "\"" ∷ bare "/" ∷ bare "*" ∷ []) ∷ [];
  ending = open_comment (" " ∷ "t" ∷ []);
}

sanitize_line_for_scan-spell_example :
    sanitize_line_for_scan (spell test_line) (is_some test_line.opening) ≡ record {
      sanitized_line = code_of test_line.pieces;
      ends_in_block_comment = leaves_open test_line.ending;
    }
sanitize_line_for_scan-spell_example =
    sanitize_line_for_scan-spell test_line
      (refl, (refl, ((refl, refl), ((refl, (tt, (refl, (refl, tt)))), tt))), refl)

-- No command is found.
abbrev bare_shell : Shell ℕ
bare_shell = record {
  spawn =
      λ command args w. (record { failed = true; status = none; signal = none; output = "" }, w);
  has_build_info = λ w. true;
  write_report = λ path report w. (ok tt, w);
  npx = "npx";
}

abbrev slither : SlitherCommand
slither = record {
  command = "slither";
  availability_args = "--version" ∷ [];
  run_args = "." ∷ [];
  label = "slither binary";
}

abbrev options : StaticAnalysisOptions
options = record { profile = stage4; output_path = none }

abbrev sources : List (String × Result String)
sources = ("a.sol", ok "x = 1; // tx.origin") ∷ []

passed : (Run.main bare_shell (slither ∷ []) options sources 0).0 ≡ ok tt
unfolding Run.main Run.run_slither_if_available Run.run_fallback_static_scan scan_file split trim
    sanitize_line_for_scan
passed = refl

main-RanClean_example :
    ((command : SlitherCommand) × Memᴰ command (slither ∷ []) × RanClean bare_shell options command)
    ⊎ (NoneAvailable bare_shell (slither ∷ []) 0 × All IsClean sources)
main-RanClean_example = main-RanClean bare_shell (slither ∷ []) options sources 0 passed

abbrev artifact : String → String → Result Value
artifact name bytecode =
    ok (obj (field "contractName" (str name) (field "deployedBytecode" (str bytecode) end)))

abbrev artifacts : Result (List (Result Value))
artifacts = ok (
    artifact "InsuranceProvider" "0x6001"
    ∷ artifact "Other" "0x"
    ∷ artifact "InsurancePolicy" "0x"
    ∷ artifact "MockWeatherOracle" "6001"
    ∷ [])

abbrev sizes : List ContractSizeEntry
sizes =
    record { contract_name = "InsuranceProvider"; deployed_bytecode_bytes = 2 }
    ∷ record { contract_name = "InsurancePolicy"; deployed_bytecode_bytes = 0 }
    ∷ record { contract_name = "MockWeatherOracle"; deployed_bytecode_bytes = 2 }
    ∷ []

abbrev one : String → Number
one text = whole (pos 1)
