-- ===== src/Shared/Text.antt =====
-- Text built by template literals: decimal numerals and joined parts.
use Prim.Native.Nat.{ℕ, zero, suc, ◌/◌, ◌%◌}
use Prim.Native.Char.{Char, code}
use Prim.Native.String.{String, ◌++◌}
use mathlib.Core.List.{List, [], ◌∷◌}
use mathlib.Core.Bool.{Bool, ◌&&◌, ◌||◌}
use text.Mathlib.Text.{◌==◌ as str_eq}
use climate_chain.Shared.Tests.{ltb, leb, ◌==◌, if◌then◌else◌}

abbrev digit : ℕ → String
digit zero = "0"
digit (suc zero) = "1"
digit (suc (suc zero)) = "2"
digit (suc (suc (suc zero))) = "3"
digit (suc (suc (suc (suc zero)))) = "4"
digit (suc (suc (suc (suc (suc zero))))) = "5"
digit (suc (suc (suc (suc (suc (suc zero)))))) = "6"
digit (suc (suc (suc (suc (suc (suc (suc zero))))))) = "7"
digit (suc (suc (suc (suc (suc (suc (suc (suc zero)))))))) = "8"
digit _ = "9"

-- Each round drops a digit, so `n + 1` rounds are enough for `n`.
show_from : ℕ → ℕ → String → String
show_from zero n acc = acc
show_from (suc rounds) n acc =
    let more = show_from rounds (n / 10) (digit (n % 10) ++ acc) in
    if ltb n 10 then digit n ++ acc else more

-- The decimal numeral of a natural number, as `${n}` and `String(n)` write it.
unfoldable pub show : ℕ → String
unfolding show_from
show n = show_from (suc n) n ""

-- `parts.join(separator)`
unfoldable pub join : String → List String → String
join separator [] = ""
join separator (x ∷ []) = x
join separator (x ∷ xs) = x ++ separator ++ join separator xs

-- The code points of a text.
abbrev pub codes : String → List ℕ
codes String.[] = []
codes (String.◌∷◌ c s) = code c ∷ codes s

abbrev pub append : String → String → String
append s t = s ++ t

abbrev pub letters : List (Char × Char)
letters =
    ("A", "a")
    ∷ ("B", "b")
    ∷ ("C", "c")
    ∷ ("D", "d")
    ∷ ("E", "e")
    ∷ ("F", "f")
    ∷ ("G", "g")
    ∷ ("H", "h")
    ∷ ("I", "i")
    ∷ ("J", "j")
    ∷ ("K", "k")
    ∷ ("L", "l")
    ∷ ("M", "m")
    ∷ ("N", "n")
    ∷ ("O", "o")
    ∷ ("P", "p")
    ∷ ("Q", "q")
    ∷ ("R", "r")
    ∷ ("S", "s")
    ∷ ("T", "t")
    ∷ ("U", "u")
    ∷ ("V", "v")
    ∷ ("W", "w")
    ∷ ("X", "x")
    ∷ ("Y", "y")
    ∷ ("Z", "z")
    ∷ []

unfoldable pub lower_from : List (Char × Char) → Char → Char
lower_from [] c = c
lower_from ((upper, lower) ∷ pairs) c = if code upper == code c then lower else lower_from pairs c

unfoldable pub lower_char : Char → Char
unfolding lower_from
lower_char c = lower_from letters c

-- `toLowerCase()` on ASCII. The texts that the program folds are hexadecimal addresses, or are
-- compared with "true" and "1", which no letter outside ASCII folds to.
unfoldable pub to_lower : String → String
unfolding lower_char
to_lower String.[] = String.[]
to_lower (String.◌∷◌ c s) = String.◌∷◌ (lower_char c) (to_lower s)

-- White space and line ends of ECMAScript.
unfoldable pub is_space : ℕ → Bool
is_space c =
    (leb 9 c && leb c 13)
    || c == 32
    || c == 160
    || c == 5760
    || (leb 8192 c && leb c 8202)
    || c == 8232
    || c == 8233
    || c == 8239
    || c == 8287
    || c == 12288
    || c == 65279

trim_start : String → String
trim_start String.[] = String.[]
trim_start (String.◌∷◌ c s) = if is_space (code c) then trim_start s else String.◌∷◌ c s

trim_end : String → String
trim_end String.[] = String.[]
trim_end (String.◌∷◌ c s) =
    let rest = trim_end s in
    if is_space (code c) && str_eq rest "" then String.[] else String.◌∷◌ c rest

-- `trim()`
unfoldable pub trim : String → String
unfolding is_space trim_start trim_end
trim s = trim_end (trim_start s)

-- `split(separator)` for a separator of one character: the piece that is being read comes first.
split_on : ℕ → String → String → List String
split_on separator current String.[] = current ∷ []
split_on separator current (String.◌∷◌ c s) =
    let cut = current ∷ split_on separator "" s in
    let longer = split_on separator (current ++ String.◌∷◌ c String.[]) s in
    if code c == separator then cut else longer

unfoldable pub split : ℕ → String → List String
unfolding split_on
split separator s = split_on separator "" s
