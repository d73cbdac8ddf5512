-- ===== src/EvmAddress/Laws.antt =====
-- The canonical form of an address.
use climate_chain.Shared.{ℕ, zero, suc, String, ◌≡◌, refl, sym, true, arith, ◌<◌, ◌⊎◌, All}
use Prim.Native.Char.{Char, code}
use climate_chain.Shared.Text.{codes, to_lower, lower_char}
use climate_chain.Shared.Lower.{code-lower_char, lower_char_idem}
use climate_chain.Js.{ok}
use climate_chain.EvmAddress.{
  is_hex_digit, hex_run, matches_evm_address, normalize_evm_address, parse_evm_address,
}

is_hex_digit-lower_char : (c : Char) → is_hex_digit (code (lower_char c)) ≡ is_hex_digit (code c)
unfolding is_hex_digit
is_hex_digit-lower_char c = ground (arith, code-lower_char c)

hex_run-to_lower : (n : ℕ) (s : String) → hex_run n (to_lower s) ≡ hex_run n s
unfolding hex_run to_lower
hex_run-to_lower zero String.[] = refl
hex_run-to_lower zero (String.◌∷◌ c s) = refl
hex_run-to_lower (suc n) String.[] = refl
hex_run-to_lower (suc n) (String.◌∷◌ c s) =
    ground (arith, is_hex_digit-lower_char c, hex_run-to_lower n s)

to_lower_idem : (s : String) → to_lower (to_lower s) ≡ to_lower s
unfolding to_lower
to_lower_idem String.[] = refl
to_lower_idem (String.◌∷◌ c s) = cc (lower_char_idem c, to_lower_idem s)

matches_evm_address-to_lower :
    (s : String) → matches_evm_address s ≡ true → matches_evm_address (to_lower s) ≡ true
unfolding matches_evm_address to_lower
matches_evm_address-to_lower String.[] h = cc
matches_evm_address-to_lower (String.◌∷◌ c String.[]) h = cc
matches_evm_address-to_lower (String.◌∷◌ c (String.◌∷◌ d s)) h =
    ground (arith, code-lower_char c, code-lower_char d, hex_run-to_lower 40 s)

-- No letter from A to Z.
abbrev pub HasNoCapital : String → Type 0
HasNoCapital s = All (λ c. (c < b'A') ⊎ (b'Z' < c)) (codes s)

to_lower-HasNoCapital : (s : String) → HasNoCapital (to_lower s)
unfolding to_lower
to_lower-HasNoCapital String.[] = tt
to_lower-HasNoCapital (String.◌∷◌ c s) =
    (ground (arith, code-lower_char c), to_lower-HasNoCapital s)

-- The pipe's result is its input in lower case: again an address, without capitals, and its own
-- canonical form, which the pipe accepts and returns unchanged.
pub parse_evm_address_canonical :
    (value address : String)
    → parse_evm_address value ≡ ok address
    → (address ≡ to_lower value)
      × HasNoCapital address
      × (matches_evm_address address ≡ true)
      × (parse_evm_address address ≡ ok address)
unfolding parse_evm_address normalize_evm_address
parse_evm_address_canonical value address h =
    let valid : matches_evm_address value ≡ true = ground arith in
    let lowered : to_lower value ≡ address = ground arith in
    let again : matches_evm_address address ≡ true =
      rw (← lowered) (matches_evm_address-to_lower value valid) in
    let fixed : to_lower address ≡ address = rw (← lowered) (to_lower_idem value) in
    (sym lowered, rw (← lowered) (to_lower-HasNoCapital value), again, rw (again, fixed))
