-- ===== src/Scripts/StaticAnalysis/Sanitize.antt =====
-- `sanitizeLineForScan` of static-analysis.ts. Lines are read by code points; the characters that are
-- tested are all of the basic plane, so the result is that of the loop on UTF-16 units.
pub mod Grammar
pub mod Rounds
pub mod Laws
use climate_chain.Shared.{
  ℕ, ◌==◌, Bool, true, false, not, ◌&&◌, ◌||◌, Option, none, some, String, if◌then◌else◌,
}
use Prim.Native.Char.{Char, code}
use climate_chain.Shared.Text.{append}

pub record SanitizedLine : Type 0 where
  pub sanitized_line : String
  pub ends_in_block_comment : Bool

-- The variables of the loop; `in_string` holds the quote that ends the string.
pub record Scanner : Type 0 where
  pub in_block_comment : Bool
  pub in_string : Option ℕ
  pub escaped : Bool
  pub sanitized : String

abbrev pub slash : ℕ
slash = 47

abbrev pub star : ℕ
star = 42

abbrev pub backslash : ℕ
backslash = 92

abbrev pub is_quote : ℕ → Bool
is_quote c = c == 34 || c == 39

-- What one round does: `return`, or `continue` one or two characters further.
pub data Move : Type 0 where
  stop : Move
  one : Scanner → Move
  two : Scanner → Move

-- `nextChar === expected`, where there may be no next character.
abbrev pub is_next : Option ℕ → ℕ → Bool
is_next none expected = false
is_next (some c) expected = c == expected

in_quotes : Scanner → ℕ → ℕ → Move
in_quotes s quote c =
    if s.escaped
    then one (record s { escaped = false })
    else if c == backslash
    then one (record s { escaped = true })
    else if c == quote
    then one (record s { in_string = none })
    else one s

in_code : Scanner → Char → Option ℕ → Move
in_code s c next =
    if code c == slash && is_next next slash
    then stop
    else if code c == slash && is_next next star
    then two (record s { in_block_comment = true })
    else if is_quote (code c)
    then one (record s { in_string = some (code c) })
    else one (record s { sanitized = append s.sanitized (String.◌∷◌ c String.[]) })

-- One round of the loop.
move : Scanner → Char → Option ℕ → Move
unfolding in_quotes in_code
move s c next =
    if s.in_block_comment
    then (if code c == star && is_next next slash
        then two (record s { in_block_comment = false })
        else one s)
    else elim s.in_string [ some quote ↦ in_quotes s quote (code c) | none ↦ in_code s c next ]

abbrev finished : Scanner → SanitizedLine
finished s = record { sanitized_line = s.sanitized; ends_in_block_comment = s.in_block_comment }

abbrev commented : Scanner → SanitizedLine
commented s = record { sanitized_line = s.sanitized; ends_in_block_comment = false }

-- The loop, on the characters that are left.
pub sanitize_from : Scanner → String → SanitizedLine
unfolding move
sanitize_from s String.[] = finished s
sanitize_from s (String.◌∷◌ c String.[]) = elim (move s c none) [
  | stop ↦ commented s
  | one s' ↦ finished s'
  | two s' ↦ finished s'
]
sanitize_from s (String.◌∷◌ c (String.◌∷◌ d rest)) = elim (move s c (some (code d))) [
  | stop ↦ commented s
  | one s' ↦ sanitize_from s' (String.◌∷◌ d rest)
  | two s' ↦ sanitize_from s' rest
]

unfoldable pub sanitize_line_for_scan : String → Bool → SanitizedLine
unfolding sanitize_from
sanitize_line_for_scan line starts_in_block_comment =
    sanitize_from
      (record {
        in_block_comment = starts_in_block_comment;
        in_string = none;
        escaped = false;
        sanitized = "";
      })
      line
