-- ===== src/Scripts/StaticAnalysis/Scan.antt =====
-- `patterns`, `collectSolidityFiles` and `scanFile` of static-analysis.ts. Each regular expression is a
-- word with a boundary before it, and either a boundary or an opening parenthesis after it.
use climate_chain.Shared.{
  ℕ, suc, ◌==◌, Bool, true, false, not, ◌&&◌, ◌||◌, Option, none, some, String, List, [], ◌∷◌, ◌++◌,
  leb, str_eq, if◌then◌else◌,
}
use Prim.Native.Char.{code}
use climate_chain.Shared.Text.{is_space, split, trim}
use climate_chain.Scripts.StaticAnalysis.Sanitize.{sanitize_line_for_scan}

-- `called` is `\s*\(` at the end of the expression, where the others have `\b`.
pub record StaticPattern : Type 0 where
  pub name : String
  pub word : String
  pub called : Bool
  pub message : String

pub record Finding : Type 0 where
  pub file_path : String
  pub line : ℕ
  pub name : String
  pub message : String
  pub snippet : String

abbrev pub patterns : List StaticPattern
patterns =
    record {
      name = "tx-origin";
      word = "tx.origin";
      called = false;
      message = "Avoid tx.origin for authorization checks.";
    }
    ∷ record {
      name = "delegatecall";
      word = "delegatecall";
      called = true;
      message = "delegatecall introduces high-risk execution context coupling.";
    }
    ∷ record {
      name = "selfdestruct";
      word = "selfdestruct";
      called = true;
      message = "selfdestruct is deprecated and can break system assumptions.";
    }
    ∷ record {
      name = "callcode";
      word = "callcode";
      called = true;
      message = "callcode is deprecated and unsafe; avoid using it.";
    }
    ∷ record {
      name = "signature-string-encoding";
      word = "abi.encodeWithSignature";
      called = true;
      message = "Prefer typed abi.encodeCall instead of string-based signatures.";
    }
    ∷ []

-- `\w`
abbrev is_word : ℕ → Bool
is_word c = (leb 48 c && leb c 57) || (leb 65 c && leb c 90) || c == 95 || (leb 97 c && leb c 122)

abbrev pub starts_word : String → Bool
starts_word String.[] = false
starts_word (String.◌∷◌ c s) = is_word (code c)

-- What follows the prefix, if the text has it.
unfoldable pub after_prefix : String → String → Option String
after_prefix String.[] s = some s
after_prefix (String.◌∷◌ p ps) String.[] = none
after_prefix (String.◌∷◌ p ps) (String.◌∷◌ c s) =
    let rest = after_prefix ps s in if code p == code c then rest else none

abbrev starts_call : String → Bool
starts_call String.[] = false
starts_call (String.◌∷◌ c s) =
    let later = starts_call s in if is_space (code c) then later else code c == 40

abbrev ends_well : StaticPattern → Option String → Bool
ends_well pattern none = false
ends_well pattern (some rest) = if pattern.called then starts_call rest else not (starts_word rest)

-- `regex.test(text)`, after a word character or not.
test_from : StaticPattern → Bool → String → Bool
test_from pattern after_word String.[] = false
test_from pattern after_word (String.◌∷◌ c s) =
    let later = test_from pattern (is_word (code c)) s in
    (not after_word && ends_well pattern (after_prefix pattern.word (String.◌∷◌ c s))) || later

unfoldable pub test : StaticPattern → String → Bool
unfolding test_from after_prefix
test pattern text = test_from pattern false text

-- The findings of one sanitized line.
unfoldable pub scan_line : String → ℕ → String → List StaticPattern → List Finding
unfolding test
scan_line file_path line sanitized [] = []
scan_line file_path line sanitized (pattern ∷ rest) =
    let others = scan_line file_path line sanitized rest in
    if test pattern sanitized
    then record {
      file_path = file_path;
      line = line;
      name = pattern.name;
      message = pattern.message;
      snippet = trim sanitized;
    }
      ∷ others
    else others

-- The loop from line `line` on.
scan_lines : String → ℕ → Bool → List String → List Finding
unfolding scan_line
scan_lines file_path line in_block_comment [] = []
scan_lines file_path line in_block_comment (text ∷ rest) =
    let result = sanitize_line_for_scan text in_block_comment in
    let others = scan_lines file_path (suc line) result.ends_in_block_comment rest in
    if str_eq (trim result.sanitized_line) ""
    then others
    else scan_line file_path line result.sanitized_line patterns ++ others

drop_return : String → String
drop_return String.[] = String.[]
drop_return (String.◌∷◌ c String.[]) = if code c == 13 then String.[] else String.◌∷◌ c String.[]
drop_return (String.◌∷◌ c (String.◌∷◌ d s)) = String.◌∷◌ c (drop_return (String.◌∷◌ d s))

-- `split(/\r?\n/)`: a return goes with the line feed after it.
split_lines : List String → List String
unfolding drop_return
split_lines [] = []
split_lines (last ∷ []) = last ∷ []
split_lines (piece ∷ (next ∷ rest)) = drop_return piece ∷ split_lines (next ∷ rest)

unfoldable pub scan_file : String → String → List Finding
unfolding scan_lines split_lines
scan_file file_path content = scan_lines file_path 1 false (split_lines (split 10 content))

-- A directory of sources. Anything that is neither a file nor a directory is `other`.
mutual
  pub data FileEntry : Type 0 where
    directory : String → FileEntries → FileEntry
    file : String → FileEntry
    other : String → FileEntry

  pub data FileEntries : Type 0 where
    none_left : FileEntries
    entry : FileEntry → FileEntries → FileEntries

-- `name.endsWith(suffix)`
abbrev ends_with : String → String → Bool
ends_with suffix String.[] = str_eq String.[] suffix
ends_with suffix (String.◌∷◌ c s) =
    let later = ends_with suffix s in str_eq (String.◌∷◌ c s) suffix || later

abbrev mutual
  collect_entry : (String → String → String) → String → FileEntry → List String
  collect_entry join dir (directory name entries) =
      collect_solidity_files join (join dir name) entries
  collect_entry join dir (file name) = if ends_with ".sol" name then join dir name ∷ [] else []
  collect_entry join dir (other name) = []

  -- `path.join` is a parameter.
  pub collect_solidity_files : (String → String → String) → String → FileEntries → List String
  collect_solidity_files join dir none_left = []
  collect_solidity_files join dir (entry e es) =
      collect_entry join dir e ++ collect_solidity_files join dir es
