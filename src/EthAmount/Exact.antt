-- ===== src/EthAmount/Exact.antt =====
-- `parseEthToWei` loses nothing: the number of wei is the decimal amount, exactly.
use climate_chain.Shared.{
  ℕ, zero, suc, ◌+◌, ◌-◌, ◌*◌, ◌^◌, ◌≤◌, ◌<◌, String, ◌≡◌, refl, sym, ap, ◌∙◌, true, false, Option,
  none, some, List, [], ◌∷◌, ◌++◌, arith, or_else, length, take, replicate,
}
use mathlib.Core.Path.{subst}
use native.Mathlib.Nat.{pow-suc, pow-zero, add-zero, add-suc, mul-le-mul_right, pow-le-pow_right}
use native.Mathlib.Decide.{dec_lt}
use climate_chain.Js.{ok}
use climate_chain.Shared.Text.{codes}
use climate_chain.EthAmount.{
  split_dot, digit_run, has_shape, is_zero_amount, positive_eth_amount, padded_fraction, wei_of,
  parse_eth_to_wei, wei_per_eth,
}
use climate_chain.EthAmount.Digits.{
  all_digits, all_zeros, value_from, value_from-eq, value_from-append, value_from-zeros,
  value_from-lt, value_from-pos, all_digits-append, all_zeros-append, pow_ten_pos,
}

take-replicate : (n m : ℕ) → n ≤ m → take {A = ℕ} n (replicate m b'0') ≡ replicate n b'0'
take-replicate zero m h = refl
take-replicate (suc n) zero h = absurd (omega arith)
take-replicate (suc n) (suc m) h = ap (λ s. b'0' ∷ s) (take-replicate n m (omega arith))

take-append-replicate :
    (n m : ℕ) (s : List ℕ)
    → length s ≤ n
    → n ≤ length s + m
    → take n (s ++ replicate m b'0') ≡ s ++ replicate (n - length s) b'0'
take-append-replicate n m [] h k =
    rw (take-replicate n m (omega arith)) (ap (λ i. replicate i b'0') (omega arith))
take-append-replicate zero m (c ∷ s) h k = absurd (omega arith)
take-append-replicate (suc n) m (c ∷ s) h k =
    ap (λ t. c ∷ t)
      (take-append-replicate n m s (omega arith) (omega arith)
        ∙ ap (λ i. s ++ replicate i b'0') (omega arith))

pow_add : (n m : ℕ) → 10 ^ (n + m) ≡ 10 ^ n * 10 ^ m
pow_add n zero = rw (add-zero, pow-zero) (omega arith)
pow_add n (suc m) = rw (add-suc, pow-suc, pow-suc, pow_add n m) (omega arith)

pow_split : (f : ℕ) → f ≤ 18 → 10 ^ 18 ≡ 10 ^ (18 - f) * 10 ^ f
pow_split f h = let e : 18 ≡ 18 - f + f = omega arith in ap (λ i. 10 ^ i) e ∙ pow_add (18 - f) f

scale : (w f p q : ℕ) → (w * (q * p) + f * q) * p ≡ (w * p + f) * (q * p)
scale w f p q = omega arith

-- The padded fraction is the fraction scaled to 18 digits.
padded_fraction_value :
    (s : List ℕ)
    → length s ≤ 18
    → value_from 0 (padded_fraction s) ≡ value_from 0 s * 10 ^ (18 - length s)
unfolding padded_fraction
padded_fraction_value s h = rw (take-append-replicate 18 18 s h (omega arith)) (
    value_from-append 0 s (replicate (18 - length s) b'0')
    ∙ value_from-zeros (value_from 0 s) (18 - length s))

module _ (whole : List ℕ) (fraction : Option (List ℕ))
    (shape : has_shape whole fraction ≡ true) where
  abbrev digits_after : List ℕ
  digits_after = or_else fraction []

  fraction_short : length digits_after ≤ 18
  unfolding has_shape digit_run
  fraction_short = ground arith

  -- Wei times 10 ^ f is the amount's digits, read without the dot, times 10 ^ 18.
  wei_of_exact :
      wei_of whole fraction * 10 ^ length digits_after
      ≡ value_from 0 (whole ++ digits_after) * wei_per_eth
  unfolding wei_of
  wei_of_exact =
      let f : ℕ = length digits_after in
      let whole_power : wei_per_eth ≡ 10 ^ (18 - f) * 10 ^ f = pow_split f fraction_short in
      let joined : value_from 0 (whole ++ digits_after)
          ≡ value_from 0 whole * 10 ^ f + value_from 0 digits_after =
        value_from-append 0 whole digits_after ∙ value_from-eq (value_from 0 whole) digits_after in
      rw (padded_fraction_value digits_after fraction_short, joined)
        (subst
          (λ m.
            (value_from 0 whole * m + value_from 0 digits_after * 10 ^ (18 - f)) * 10 ^ f
            ≡ (value_from 0 whole * 10 ^ f + value_from 0 digits_after) * m)
          (sym whole_power)
          (scale (value_from 0 whole) (value_from 0 digits_after) (10 ^ f) (10 ^ (18 - f))))

  whole_digits : (all_digits whole ≡ true) × (length whole ≤ 30)
  unfolding has_shape digit_run
  whole_digits = ground arith

  fraction_digits : all_digits digits_after ≡ true
  unfolding has_shape digit_run all_digits
  fraction_digits = ground arith

  wei_of-pos : is_zero_amount whole fraction ≡ false → 0 < wei_of whole fraction
  unfolding is_zero_amount all_zeros
  wei_of-pos nonzero =
      let some_digit : all_zeros (whole ++ digits_after) ≡ false =
        all_zeros-append whole digits_after ∙ ground arith in
      let digits : 0 < value_from 0 (whole ++ digits_after) =
        value_from-pos (whole ++ digits_after)
          (all_digits-append whole digits_after whole_digits.0 fraction_digits) some_digit in
      elim (dec_lt 0 (wei_of whole fraction)) [
        | yes p ↦ p
        | no p ↦
            let nothing : wei_of whole fraction ≡ 0 = omega arith in
            absurd (omega (arith, rw nothing at wei_of_exact))
      ]

  wei_of-lt : wei_of whole fraction < 10 ^ 48
  unfolding wei_of
  wei_of-lt =
      let f : ℕ = length digits_after in
      let whole_power : wei_per_eth ≡ 10 ^ (18 - f) * 10 ^ f = pow_split f fraction_short in
      let few : 10 ^ length whole ≤ 10 ^ 30 = pow-le-pow_right (omega arith) whole_digits.1 in
      let room : (value_from 0 digits_after + 1) * 10 ^ (18 - f) ≤ 10 ^ f * 10 ^ (18 - f) =
        let less : value_from 0 digits_after + 1 ≤ 10 ^ f =
          omega (arith, value_from-lt digits_after fraction_digits) in
        mul-le-mul_right (10 ^ (18 - f)) less in
      let small : value_from 0 digits_after * 10 ^ (18 - f) < wei_per_eth =
        rw whole_power (omega (arith, pow_ten_pos (18 - f))) in
      rw (padded_fraction_value digits_after fraction_short)
        (omega (arith, value_from-lt whole whole_digits.0))

-- The text that a split stands for.
abbrev pub rejoin : List ℕ → Option (List ℕ) → List ℕ
rejoin whole none = whole
rejoin whole (some fraction) = whole ++ b'.' ∷ fraction

split_dot-rejoin : (s : List ℕ) → rejoin (split_dot s).0 (split_dot s).1 ≡ s
unfolding split_dot
split_dot-rejoin [] = refl
split_dot-rejoin (c ∷ s) = ground (arith, split_dot-rejoin s)

-- An accepted amount `whole.fraction` is worth exactly the number that its digits write, scaled to 18
-- decimals, whatever the length of the fraction; it is positive and fits 160 bits.
pub parse_eth_to_wei_exact :
    (amount : String) (wei : ℕ)
    → parse_eth_to_wei amount ≡ ok wei
    → let (whole, fraction) = split_dot (codes amount) in
      (codes amount ≡ rejoin whole fraction)
      × (wei * 10 ^ length (or_else fraction [])
          ≡ value_from 0 (whole ++ or_else fraction []) * 10 ^ 18)
      × (0 < wei)
      × (wei < 10 ^ 48)
unfolding parse_eth_to_wei positive_eth_amount
parse_eth_to_wei_exact amount wei h =
    let whole : List ℕ = (split_dot (codes amount)).0 in
    let fraction : Option (List ℕ) = (split_dot (codes amount)).1 in
    let shape : has_shape whole fraction ≡ true = ground arith in
    let nonzero : is_zero_amount whole fraction ≡ false = ground arith in
    let worth : wei_of whole fraction ≡ wei = ground arith in
    (
      sym (split_dot-rejoin (codes amount)),
      rw worth at (wei_of_exact whole fraction shape),
      rw worth at (wei_of-pos whole fraction shape nonzero),
      rw worth at (wei_of-lt whole fraction shape),
    )
