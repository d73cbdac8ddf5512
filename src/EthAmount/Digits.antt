-- ===== src/EthAmount/Digits.antt =====
-- Runs of decimal digits and the number that they write, as `BigInt` reads it.
use climate_chain.Shared.{
  ℕ, zero, suc, ◌+◌, ◌-◌, ◌*◌, ◌^◌, ◌≤◌, ◌<◌, ◌≡◌, refl, ◌∙◌, inl, inr, Bool, true, false, ◌&&◌,
  List, [], ◌∷◌, ◌++◌, arith, leb, ◌==◌, Bool-cases, length, replicate,
}
use native.Mathlib.Nat.{pow-suc, mul-le-mul_right}

unfoldable pub all_digits : List ℕ → Bool
all_digits [] = true
all_digits (c ∷ s) = leb b'0' c && leb c b'9' && all_digits s

unfoldable pub all_zeros : List ℕ → Bool
all_zeros [] = true
all_zeros (c ∷ s) = c == b'0' && all_zeros s

unfoldable pub value_from : ℕ → List ℕ → ℕ
value_from acc [] = acc
value_from acc (c ∷ s) = value_from (acc * 10 + (c - b'0')) s

pub pow_ten_pos : (n : ℕ) → 0 < 10 ^ n
pow_ten_pos zero = omega arith
pow_ten_pos (suc n) = omega (arith, pow_ten_pos n, pow-suc 10 n)

regroup : (a d p v : ℕ) → (a * 10 + d) * p + v ≡ a * (p * 10) + ((0 + d) * p + v)
regroup a d p v = omega arith

pub value_from-eq : (acc : ℕ) (s : List ℕ) → value_from acc s ≡ acc * 10 ^ length s + value_from 0 s
unfolding value_from
value_from-eq acc [] = omega arith
value_from-eq acc (c ∷ s) =
    value_from-eq (acc * 10 + (c - b'0')) s
    ∙ regroup acc (c - b'0') (10 ^ length s) (value_from 0 s)
    ∙ rw (pow-suc, value_from-eq (0 + (c - b'0')) s)

pub value_from-append :
    (acc : ℕ) (s t : List ℕ) → value_from acc (s ++ t) ≡ value_from (value_from acc s) t
unfolding value_from
value_from-append acc [] t = refl
value_from-append acc (c ∷ s) t = value_from-append (acc * 10 + (c - b'0')) s t

pub value_from-zeros : (acc n : ℕ) → value_from acc (replicate n b'0') ≡ acc * 10 ^ n
unfolding value_from
value_from-zeros acc zero = omega arith
value_from-zeros acc (suc n) = value_from-zeros (acc * 10 + 0) n ∙ rw pow-suc (omega arith)

pub value_from-lt : (s : List ℕ) → all_digits s ≡ true → value_from 0 s < 10 ^ length s
unfolding value_from all_digits
value_from-lt [] h = omega arith
value_from-lt (c ∷ s) h =
    let small : c - b'0' ≤ 9 = ground arith in
    let rest : all_digits s ≡ true = ground arith in
    omega (
      arith,
      value_from-eq (0 + (c - b'0')) s,
      value_from-lt s rest,
      pow-suc 10 (length s),
      mul-le-mul_right (10 ^ length s) small,
    )

-- Digits that are not all zeros write a positive number.
pub value_from-pos : (s : List ℕ) → all_digits s ≡ true → all_zeros s ≡ false → 0 < value_from 0 s
unfolding value_from all_digits all_zeros
value_from-pos [] d z = cc
value_from-pos (c ∷ s) d z = elim (Bool-cases (c == b'0')) [
  | inl same ↦
      omega
        (arith, value_from-eq (0 + (c - b'0')) s, value_from-pos s (ground arith) (ground arith))
  | inr other ↦
      let large : 1 ≤ c - b'0' = ground arith in
      omega (
        arith,
        value_from-eq (0 + (c - b'0')) s,
        mul-le-mul_right (10 ^ length s) large,
        pow_ten_pos (length s),
      )
]

pub all_digits-append :
    (s t : List ℕ) → all_digits s ≡ true → all_digits t ≡ true → all_digits (s ++ t) ≡ true
unfolding all_digits
all_digits-append [] t h k = k
all_digits-append (c ∷ s) t h k = ground (arith, all_digits-append s t)

pub all_zeros-append : (s t : List ℕ) → all_zeros (s ++ t) ≡ (all_zeros s && all_zeros t)
unfolding all_zeros
all_zeros-append [] t = refl
all_zeros-append (c ∷ s) t = ground (arith, all_zeros-append s t)
