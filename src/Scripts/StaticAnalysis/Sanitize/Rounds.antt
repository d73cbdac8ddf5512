-- ===== src/Scripts/StaticAnalysis/Sanitize/Rounds.antt =====
-- What the loop does with each kind of text.
use climate_chain.Shared.{
  ℕ, ◌==◌, true, false, none, some, String, ◌≡◌, refl, ◌∙◌, List, [], ◌∷◌, arith, All,
}
use Prim.Native.Char.{Char, code}
use climate_chain.Shared.Text.{append}
use climate_chain.Scripts.StaticAnalysis.Sanitize.{
  Scanner, star, is_quote, move, in_code, in_quotes, sanitize_from,
}
use climate_chain.Scripts.StaticAnalysis.Sanitize.Grammar.{
  Letter, bare, escape, spell_chars, spell_letters, closes, IsCode, IsLetter,
}

abbrev pub coding : String → Scanner
coding acc = record { in_block_comment = false; in_string = none; escaped = false; sanitized = acc }

abbrev pub commenting : String → Scanner
commenting acc = record {
  in_block_comment = true;
  in_string = none;
  escaped = false;
  sanitized = acc;
}

abbrev pub quoting : ℕ → String → Scanner
quoting q acc = record {
  in_block_comment = false;
  in_string = some q;
  escaped = false;
  sanitized = acc;
}

abbrev pub letter : Char → String
letter c = String.◌∷◌ c String.[]

pub sanitize_plain :
    (c : Char) (acc rest : String)
    → IsCode c
    → sanitize_from (coding acc) (String.◌∷◌ c rest)
      ≡ sanitize_from (coding (append acc (letter c))) rest
unfolding sanitize_from move in_code
sanitize_plain c acc String.[] h = ground arith
sanitize_plain c acc (String.◌∷◌ d rest) h = ground arith

pub sanitize_comment :
    (cs : List Char) (acc rest : String)
    → closes cs ≡ false
    → sanitize_from (commenting acc) (spell_chars cs (String.◌∷◌ "*" (String.◌∷◌ "/" rest)))
      ≡ sanitize_from (coding acc) rest
unfolding sanitize_from move
sanitize_comment [] acc rest h = refl
sanitize_comment (c ∷ []) acc rest h = ground arith
sanitize_comment (c ∷ (d ∷ cs)) acc rest h = ground (arith, sanitize_comment (d ∷ cs) acc rest)

pub sanitize_open_comment :
    (cs : List Char) (acc : String)
    → closes cs ≡ false
    → sanitize_from (commenting acc) (spell_chars cs String.[])
      ≡ record { sanitized_line = acc; ends_in_block_comment = true }
unfolding sanitize_from move
sanitize_open_comment [] acc h = refl
sanitize_open_comment (c ∷ []) acc h = ground arith
sanitize_open_comment (c ∷ (d ∷ cs)) acc h = ground (arith, sanitize_open_comment (d ∷ cs) acc)

pub sanitize_bare :
    (q c : Char) (acc rest : String)
    → IsLetter q (bare c)
    → sanitize_from (quoting (code q) acc) (String.◌∷◌ c rest)
      ≡ sanitize_from (quoting (code q) acc) rest
unfolding sanitize_from move in_quotes
sanitize_bare q c acc String.[] h = ground arith
sanitize_bare q c acc (String.◌∷◌ d rest) h = ground arith

pub sanitize_escape :
    (q c : Char) (acc rest : String)
    → sanitize_from (quoting (code q) acc) (String.◌∷◌ "\\" (String.◌∷◌ c rest))
      ≡ sanitize_from (quoting (code q) acc) rest
unfolding sanitize_from move in_quotes
sanitize_escape q c acc String.[] = refl
sanitize_escape q c acc (String.◌∷◌ d rest) = refl

pub sanitize_letters :
    (q : Char) (ls : List Letter) (acc rest : String)
    → All (IsLetter q) ls
    → sanitize_from (quoting (code q) acc) (spell_letters ls rest)
      ≡ sanitize_from (quoting (code q) acc) rest
sanitize_letters q [] acc rest h = refl
sanitize_letters q (bare c ∷ ls) acc rest (b, h) =
    sanitize_bare q c acc (spell_letters ls rest) b ∙ sanitize_letters q ls acc rest h
sanitize_letters q (escape c ∷ ls) acc rest (b, h) =
    sanitize_escape q c acc (spell_letters ls rest) ∙ sanitize_letters q ls acc rest h

pub open_quote :
    (q : Char) (acc rest : String)
    → is_quote (code q) ≡ true
    → sanitize_from (coding acc) (String.◌∷◌ q rest) ≡ sanitize_from (quoting (code q) acc) rest
unfolding sanitize_from move in_code
open_quote q acc String.[] h = ground arith
open_quote q acc (String.◌∷◌ d rest) h = ground arith

pub close_quote :
    (q : Char) (acc rest : String)
    → is_quote (code q) ≡ true
    → sanitize_from (quoting (code q) acc) (String.◌∷◌ q rest) ≡ sanitize_from (coding acc) rest
unfolding sanitize_from move in_quotes
close_quote q acc String.[] h = ground arith
close_quote q acc (String.◌∷◌ d rest) h = ground arith

pub sanitize_slash :
    (c : Char) (acc rest : String)
    → IsCode c
    → (code c == star) ≡ false
    → sanitize_from (coding acc) (String.◌∷◌ "/" (String.◌∷◌ c rest))
      ≡ sanitize_from (coding (append acc (letter "/"))) (String.◌∷◌ c rest)
unfolding sanitize_from move in_code
sanitize_slash c acc rest h n = ground arith

pub sanitize_mark :
    (acc rest : String)
    → sanitize_from (coding acc) (String.◌∷◌ "/" (String.◌∷◌ "*" rest))
      ≡ sanitize_from (commenting acc) rest
unfolding sanitize_from move in_code
sanitize_mark acc rest = refl
