-- ===== src/Tests/Sources.antt =====
-- Runs of the scan of sources on small texts.
use climate_chain.Shared.{String, ◌≡◌, refl, [], ◌∷◌, map, true}
use climate_chain.Scripts.StaticAnalysis.Scan.{
  scan_file, directory, file, FileEntries, none_left, entry, collect_solidity_files,
}
use climate_chain.Scripts.StaticAnalysis.Sanitize.{sanitize_line_for_scan}
use climate_chain.Shared.Text.{append, split, trim}

abbrev risky : String
risky = "a = tx.origin;\r\n // tx.origin\nxtx.origin\n foo.delegatecall  (x)\n\"selfdestruct(\""

risky_found : map (λ f. f.line) (scan_file "a.sol" risky) ≡ 1 ∷ 4 ∷ []
unfolding scan_file split trim sanitize_line_for_scan
risky_found = refl

sanitized_run :
    sanitize_line_for_scan "x */ b \"s\\\"//\" /* " true
    ≡ record { sanitized_line = " b  "; ends_in_block_comment = true }
unfolding sanitize_line_for_scan
sanitized_run = refl

abbrev tree : FileEntries
tree =
    entry (file "a.sol")
      (entry (directory "mocks" (entry (file "b.sol") none_left)) (entry (file "c.md") none_left))

collected :
    collect_solidity_files (λ dir name. append dir (append "/" name)) "src" tree
    ≡ "src/a.sol" ∷ "src/mocks/b.sol" ∷ []
collected = refl
