-- ===== src/EthAmount.antt =====
-- backend/src/common/utils/eth-amount.util.ts: decimal ETH amounts as exact numbers of wei.
-- A text is its list of code points; only ASCII digits and the dot pass the pattern. A bigint is a
-- natural number.
pub mod Digits
pub mod Exact
use climate_chain.Shared.{
  ℕ, zero, suc, ◌+◌, ◌-◌, ◌*◌, ◌/◌, ◌%◌, ◌^◌, ◌≤◌, ◌<◌, min, String, ◌≡◌, refl, sym, ap, ◌∙◌, ◌≢◌,
  ◌↔◌, ◌⊎◌, inl, inr, Bool, true, false, not, ◌&&◌, ◌||◌, Option, none, some, List, [], ◌∷◌, ◌++◌,
  map, arith, str_eq, eq_iff, eq_refl, ltb, leb, ◌==◌, if◌then◌else◌, Bool-cases, Option-cases,
  includes, or_else, is_some, length, take, drop, All, All-append, replicate, All-map, All-zip,
  length-append, take-append-drop, length-take, length-drop, leb→le,
}
use Prim.Native.Char.{code}
use climate_chain.Shared.Text
use climate_chain.Js.{Value, error_object, end, Result, ok, throw}
use climate_chain.EthAmount.Digits.{all_digits, all_zeros, value_from}

-- The text before the first dot, and the text after it: `amount.split(".")` for at most one dot.
unfoldable pub split_dot : List ℕ → List ℕ × Option (List ℕ)
split_dot [] = ([], none)
split_dot (c ∷ s) =
    let (whole, fraction) = split_dot s in if c == b'.' then ([], some s) else (c ∷ whole, fraction)

-- `\d{lo,hi}`, over the whole text.
unfoldable pub digit_run : (lo hi : ℕ) → List ℕ → Bool
digit_run lo hi s = all_digits s && leb lo (length s) && leb (length s) hi

-- `\d{1,30}(\.\d{1,18})?`
unfoldable pub has_shape : List ℕ → Option (List ℕ) → Bool
unfolding digit_run
has_shape whole none = digit_run 1 30 whole
has_shape whole (some fraction) = digit_run 1 30 whole && digit_run 1 18 fraction

-- `0+(\.0+)?`, over a text of that shape.
unfoldable pub is_zero_amount : List ℕ → Option (List ℕ) → Bool
is_zero_amount whole none = all_zeros whole
is_zero_amount whole (some fraction) = all_zeros whole && all_zeros fraction

-- `POSITIVE_ETH_AMOUNT_REGEX.test(amount)`
unfoldable pub positive_eth_amount : List ℕ → Bool
unfolding has_shape is_zero_amount split_dot
positive_eth_amount amount =
    let (whole, fraction) = split_dot amount in
    has_shape whole fraction && not (is_zero_amount whole fraction)

abbrev pub eth_decimals : ℕ
eth_decimals = 18

abbrev pub wei_per_eth : ℕ
wei_per_eth = 10 ^ 18

-- `${fraction}${"0".repeat(18)}`.slice(0, 18)
unfoldable pub padded_fraction : List ℕ → List ℕ
padded_fraction fraction = take eth_decimals (fraction ++ replicate eth_decimals b'0')

unfoldable pub wei_of : List ℕ → Option (List ℕ) → ℕ
unfolding padded_fraction value_from
wei_of whole fraction =
    value_from 0 whole * wei_per_eth + value_from 0 (padded_fraction (or_else fraction []))

unfoldable pub parse_eth_to_wei : String → Result ℕ
unfolding positive_eth_amount wei_of split_dot
parse_eth_to_wei amount =
    let (whole, fraction) = split_dot (Text.codes amount) in
    if positive_eth_amount (Text.codes amount)
    then ok (wei_of whole fraction)
    else throw (error_object (Text.append "Invalid ETH amount: " amount) end)
