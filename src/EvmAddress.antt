-- ===== src/EvmAddress.antt =====
-- backend/src/common/utils/evm-address.util.ts and common/pipes/parse-evm-address.pipe.ts.
pub mod Laws
use climate_chain.Shared.{
  ℕ, zero, suc, ◌+◌, ◌-◌, ◌*◌, ◌/◌, ◌%◌, ◌^◌, ◌≤◌, ◌<◌, min, max, String, ◌≡◌, refl, sym, ap, ◌∙◌,
  ◌≢◌, ◌↔◌, ◌⊎◌, inl, inr, Bool, true, false, not, ◌&&◌, ◌||◌, Option, none, some, List, [], ◌∷◌,
  map, arith, str_eq, eq_iff, eq_refl, ltb, leb, ◌==◌, if◌then◌else◌, Bool-cases, Option-cases,
  includes, or_else, is_some, truthy, length, take, drop, All, All-append, get_elem?, replicate,
  All-map, All-zip, length-append, take-append-drop, length-take, length-drop, leb→le,
}
use Prim.Native.Char.{code}
use Prim.Native.String.{◌++◌}
use climate_chain.Shared.Text.{to_lower}
use climate_chain.Js.{
  Value, undefined, str, http, error_object, end, as_string, ExceptionClass, Result, ok, throw,
}

unfoldable pub is_hex_digit : ℕ → Bool
is_hex_digit c =
    (leb b'0' c && leb c b'9') || (leb b'a' c && leb c b'f') || (leb b'A' c && leb c b'F')

-- `[a-fA-F0-9]{n}` over the whole text.
unfoldable pub hex_run : ℕ → String → Bool
unfolding is_hex_digit
hex_run zero String.[] = true
hex_run zero (String.◌∷◌ c s) = false
hex_run (suc n) String.[] = false
hex_run (suc n) (String.◌∷◌ c s) = is_hex_digit (code c) && hex_run n s

-- `/^0x[a-fA-F0-9]{40}$/`
unfoldable pub matches_evm_address : String → Bool
unfolding hex_run
matches_evm_address (String.◌∷◌ c (String.◌∷◌ d s)) =
    code c == b'0' && code d == b'x' && hex_run 40 s
matches_evm_address s = false

unfoldable pub is_evm_address : Value → Bool
unfolding matches_evm_address
is_evm_address value = elim (as_string value) [ none ↦ false | some s ↦ matches_evm_address s ]

abbrev pub zero_address : String
zero_address = "0x0000000000000000000000000000000000000000"

unfoldable pub is_zero_address : String → Bool
is_zero_address value = str_eq (to_lower value) zero_address

unfoldable pub normalize_evm_address : String → String
normalize_evm_address value = to_lower value

-- `string_of` is `String(value)`, for the message.
unfoldable pub assert_usable_address : (Value → String) → Value → String → Result String
unfolding is_evm_address is_zero_address
assert_usable_address string_of value label = elim (as_string value) [
  | none ↦ throw (
      error_object
        (label
          ++ " is not a valid 0x-prefixed 20-byte address (received: "
          ++ string_of value
          ++ ")")
        end)
  | some s ↦
      if not (matches_evm_address s)
      then throw (
          error_object
            (label ++ " is not a valid 0x-prefixed 20-byte address (received: " ++ s ++ ")") end)
      else if is_zero_address s
      then throw (error_object (label ++ " must not be the zero address") end)
      else ok s
]

-- `ParseEvmAddressPipe.transform`
unfoldable pub parse_evm_address : String → Result String
unfolding matches_evm_address
parse_evm_address value =
    if not (matches_evm_address value)
    then throw (
        http ExceptionClass.bad_request
          (str ("\"" ++ value ++ "\" is not a valid 0x-prefixed 20-byte EVM address")) undefined)
    else ok (normalize_evm_address value)
