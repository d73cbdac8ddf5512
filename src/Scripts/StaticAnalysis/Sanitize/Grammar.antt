-- ===== src/Scripts/StaticAnalysis/Sanitize/Grammar.antt =====
-- Lines of Solidity as code, strings and comments: an account of `sanitizeLineForScan` that does not
-- follow its loop.
use climate_chain.Shared.{
  ◌==◌, Bool, true, false, ◌&&◌, ◌||◌, Option, none, some, String, ◌≡◌, List, [], ◌∷◌, All,
}
use Prim.Native.Char.{Char, code}
use climate_chain.Scripts.StaticAnalysis.Sanitize.{slash, star, backslash, is_quote}

pub data Letter : Type 0 where
  bare : Char → Letter
  escape : Char → Letter

-- A character of code, a slash and a character of code, a string in its quotes, or a comment in its marks.
pub data Piece : Type 0 where
  plain : Char → Piece
  divide : Char → Piece
  quoted : Char → List Letter → Piece
  comment : List Char → Piece

-- What follows the pieces: nothing, a line comment, or a string or comment that the line does not close.
pub data Ending : Type 0 where
  nothing : Ending
  line_comment : String → Ending
  open_comment : List Char → Ending
  open_string : Char → List Letter → Ending

-- `opening` is the rest of a comment that an earlier line opened.
pub record Line : Type 0 where
  pub opening : Option (List Char)
  pub pieces : List Piece
  pub ending : Ending

abbrev pub spell_chars : List Char → String → String
spell_chars [] rest = rest
spell_chars (c ∷ cs) rest = String.◌∷◌ c (spell_chars cs rest)

abbrev pub spell_letters : List Letter → String → String
spell_letters [] rest = rest
spell_letters (bare c ∷ ls) rest = String.◌∷◌ c (spell_letters ls rest)
spell_letters (escape c ∷ ls) rest = String.◌∷◌ "\\" (String.◌∷◌ c (spell_letters ls rest))

abbrev pub spell_piece : Piece → String → String
spell_piece (plain c) rest = String.◌∷◌ c rest
spell_piece (divide c) rest = String.◌∷◌ "/" (String.◌∷◌ c rest)
spell_piece (quoted q ls) rest = String.◌∷◌ q (spell_letters ls (String.◌∷◌ q rest))
spell_piece (comment cs) rest =
    String.◌∷◌ "/" (String.◌∷◌ "*" (spell_chars cs (String.◌∷◌ "*" (String.◌∷◌ "/" rest))))

abbrev pub spell_pieces : List Piece → String → String
spell_pieces [] rest = rest
spell_pieces (p ∷ ps) rest = spell_piece p (spell_pieces ps rest)

abbrev pub spell_ending : Ending → String
spell_ending nothing = String.[]
spell_ending (line_comment s) = String.◌∷◌ "/" (String.◌∷◌ "/" s)
spell_ending (open_comment cs) = String.◌∷◌ "/" (String.◌∷◌ "*" (spell_chars cs String.[]))
spell_ending (open_string q ls) = String.◌∷◌ q (spell_letters ls String.[])

abbrev pub spell_opening : Option (List Char) → String → String
spell_opening none rest = rest
spell_opening (some cs) rest = spell_chars cs (String.◌∷◌ "*" (String.◌∷◌ "/" rest))

-- The text of a line.
abbrev pub spell : Line → String
spell l = spell_opening l.opening (spell_pieces l.pieces (spell_ending l.ending))

-- The code of a line.
abbrev pub code_of : List Piece → String
code_of [] = String.[]
code_of (plain c ∷ ps) = String.◌∷◌ c (code_of ps)
code_of (divide c ∷ ps) = String.◌∷◌ "/" (String.◌∷◌ c (code_of ps))
code_of (quoted q ls ∷ ps) = code_of ps
code_of (comment cs ∷ ps) = code_of ps

abbrev pub leaves_open : Ending → Bool
leaves_open (open_comment cs) = true
leaves_open e = false

-- No star with a slash after it.
abbrev pub closes : List Char → Bool
closes [] = false
closes (c ∷ []) = false
closes (c ∷ (d ∷ cs)) = (code c == star && code d == slash) || closes (d ∷ cs)

abbrev pub IsCode : Char → Type 0
IsCode c = (code c == slash || is_quote (code c)) ≡ false

abbrev pub IsLetter : Char → Letter → Type 0
IsLetter q (bare c) = (code c == backslash || code c == code q) ≡ false
IsLetter q (escape c) = Unit

abbrev pub IsString : Char → List Letter → Type 0
IsString q ls = (is_quote (code q) ≡ true) × All (IsLetter q) ls

abbrev pub IsPiece : Piece → Type 0
IsPiece (plain c) = IsCode c
IsPiece (divide c) = IsCode c × ((code c == star) ≡ false)
IsPiece (quoted q ls) = IsString q ls
IsPiece (comment cs) = closes cs ≡ false

abbrev pub IsEnding : Ending → Type 0
IsEnding nothing = Unit
IsEnding (line_comment s) = Unit
IsEnding (open_comment cs) = closes cs ≡ false
IsEnding (open_string q ls) = IsString q ls

abbrev pub IsOpening : Option (List Char) → Type 0
IsOpening none = Unit
IsOpening (some cs) = closes cs ≡ false

-- The parts of the line are what they are said to be.
abbrev pub IsLine : Line → Type 0
IsLine l = IsOpening l.opening × All IsPiece l.pieces × IsEnding l.ending
