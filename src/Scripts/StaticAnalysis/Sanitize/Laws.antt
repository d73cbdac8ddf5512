-- ===== src/Scripts/StaticAnalysis/Sanitize/Laws.antt =====
-- What is left of a line.
use climate_chain.Shared.{
  false, Option, none, some, String, ◌≡◌, refl, sym, ap, ◌∙◌, List, [], ◌∷◌, All, is_some,
}
use Prim.Native.Char.{Char, code}
use text.Mathlib.TextLemmas.{nil-append, cons-append, append-nil, append_assoc}
use climate_chain.Shared.Text.{append}
use climate_chain.Scripts.StaticAnalysis.Sanitize.{
  move, in_code, sanitize_from, sanitize_line_for_scan,
}
use climate_chain.Scripts.StaticAnalysis.Sanitize.Grammar.{
  Piece, plain, divide, quoted, comment, Ending, nothing, line_comment, open_comment, open_string,
  Line, spell_chars, spell_letters, spell_piece, spell_pieces, spell_ending, spell_opening,
  IsOpening, spell, code_of, leaves_open, IsPiece, IsEnding, IsLine,
}
use climate_chain.Scripts.StaticAnalysis.Sanitize.Rounds.{
  coding, quoting, letter, sanitize_plain, sanitize_comment, sanitize_open_comment,
  sanitize_letters, open_quote, close_quote, sanitize_slash, sanitize_mark,
}

append-letter :
    (acc : String) (c : Char) (s : String)
    → append (append acc (letter c)) s ≡ append acc (String.◌∷◌ c s)
append-letter acc c s =
    append_assoc acc (letter c) s
    ∙ ap (append acc) (cons-append c "" s ∙ ap (λ x. String.◌∷◌ c x) (nil-append s))

-- A piece adds its code to what is kept.
sanitize_piece :
    (p : Piece) (acc rest : String)
    → IsPiece p
    → sanitize_from (coding acc) (spell_piece p rest)
      ≡ sanitize_from (coding (append acc (code_of (p ∷ [])))) rest
sanitize_piece (plain c) acc rest h = sanitize_plain c acc rest h
sanitize_piece (divide c) acc rest (h, n) =
    sanitize_slash c acc rest h n
    ∙ sanitize_plain c (append acc (letter "/")) rest h
    ∙ ap (λ kept. sanitize_from (coding kept) rest) (append-letter acc "/" (letter c))
sanitize_piece (quoted q ls) acc rest (h, letters) =
    open_quote q acc (spell_letters ls (String.◌∷◌ q rest)) h
    ∙ sanitize_letters q ls acc (String.◌∷◌ q rest) letters
    ∙ close_quote q acc rest h
    ∙ ap (λ kept. sanitize_from (coding kept) rest) (sym (append-nil acc))
sanitize_piece (comment cs) acc rest h =
    sanitize_mark acc (spell_chars cs (String.◌∷◌ "*" (String.◌∷◌ "/" rest)))
    ∙ sanitize_comment cs acc rest h
    ∙ ap (λ kept. sanitize_from (coding kept) rest) (sym (append-nil acc))

code_of-cons :
    (p : Piece) (ps : List Piece) → append (code_of (p ∷ [])) (code_of ps) ≡ code_of (p ∷ ps)
code_of-cons (plain c) ps = cons-append c "" (code_of ps) ∙ ap (λ x. String.◌∷◌ c x) (nil-append _)
code_of-cons (divide c) ps =
    cons-append "/" (letter c) (code_of ps)
    ∙ ap (λ x. String.◌∷◌ "/" x)
        (cons-append c "" (code_of ps) ∙ ap (λ x. String.◌∷◌ c x) (nil-append _))
code_of-cons (quoted q ls) ps = nil-append (code_of ps)
code_of-cons (comment cs) ps = nil-append (code_of ps)

sanitize_pieces :
    (ps : List Piece) (acc rest : String)
    → All IsPiece ps
    → sanitize_from (coding acc) (spell_pieces ps rest)
      ≡ sanitize_from (coding (append acc (code_of ps))) rest
sanitize_pieces [] acc rest h = ap (λ kept. sanitize_from (coding kept) rest) (sym (append-nil acc))
sanitize_pieces (p ∷ ps) acc rest (first, h) =
    sanitize_piece p acc (spell_pieces ps rest) first
    ∙ sanitize_pieces ps (append acc (code_of (p ∷ []))) rest h
    ∙ ap (λ kept. sanitize_from (coding kept) rest)
        (append_assoc acc (code_of (p ∷ [])) (code_of ps) ∙ ap (append acc) (code_of-cons p ps))

sanitize_open_string :
    (q : Char) (acc : String)
    → sanitize_from (quoting (code q) acc) String.[]
      ≡ record { sanitized_line = acc; ends_in_block_comment = false }
unfolding sanitize_from
sanitize_open_string q acc = refl

sanitize_ending :
    (e : Ending) (acc : String)
    → IsEnding e
    → sanitize_from (coding acc) (spell_ending e)
      ≡ record { sanitized_line = acc; ends_in_block_comment = leaves_open e }
unfolding sanitize_from move in_code
sanitize_ending nothing acc h = refl
sanitize_ending (line_comment s) acc h = refl
sanitize_ending (open_comment cs) acc h =
    sanitize_mark acc (spell_chars cs String.[]) ∙ sanitize_open_comment cs acc h
sanitize_ending (open_string q ls) acc (h, letters) =
    open_quote q acc (spell_letters ls String.[]) h
    ∙ sanitize_letters q ls acc String.[] letters
    ∙ sanitize_open_string q acc

sanitize_outside :
    (ps : List Piece) (e : Ending)
    → All IsPiece ps
    → IsEnding e
    → sanitize_from (coding "") (spell_pieces ps (spell_ending e))
      ≡ record { sanitized_line = code_of ps; ends_in_block_comment = leaves_open e }
sanitize_outside ps e h k =
    sanitize_pieces ps "" (spell_ending e) h
    ∙ ap (λ kept. sanitize_from (coding kept) (spell_ending e)) (nil-append (code_of ps))
    ∙ sanitize_ending e (code_of ps) k

sanitize_opening :
    (o : Option (List Char)) (rest : String)
    → IsOpening o
    → sanitize_from
        (record { in_block_comment = is_some o; in_string = none; escaped = false; sanitized = "" })
        (spell_opening o rest)
      ≡ sanitize_from (coding "") rest
sanitize_opening none rest h = refl
sanitize_opening (some cs) rest h = sanitize_comment cs "" rest h

-- A line that is made of code, strings in quotes, with escapes, and comments, and may begin within a
-- comment and end within a comment or a string, is sanitized to its code, all of it and in its order, and the
-- scanner says that a comment stays open exactly where the line leaves one open.
pub sanitize_line_for_scan-spell :
    (l : Line)
    → IsLine l
    → sanitize_line_for_scan (spell l) (is_some l.opening)
      ≡ record { sanitized_line = code_of l.pieces; ends_in_block_comment = leaves_open l.ending }
unfolding sanitize_line_for_scan
sanitize_line_for_scan-spell l (opening, pieces, ending) =
    sanitize_opening l.opening (spell_pieces l.pieces (spell_ending l.ending)) opening
    ∙ sanitize_outside l.pieces l.ending pieces ending
