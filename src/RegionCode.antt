-- ===== src/RegionCode.antt =====
-- backend/src/common/utils/region-code.util.ts: regions as `bytes32`. The codec of ethers and the hash
-- of the placeholder region are parameters; `Buffer.byteLength(region, "utf8")` is `len`.
pub mod Laws
use climate_chain.Shared.{
  ℕ, zero, suc, ◌+◌, ◌-◌, ◌*◌, ◌/◌, ◌%◌, ◌^◌, ◌≤◌, ◌<◌, min, max, String, ◌≡◌, refl, sym, ap, ◌∙◌,
  ◌≢◌, ◌↔◌, ◌⊎◌, inl, inr, Bool, true, false, not, ◌&&◌, ◌||◌, Option, none, some, List, [], ◌∷◌,
  map, arith, str_eq, eq_iff, eq_refl, ltb, leb, ◌==◌, if◌then◌else◌, Bool-cases, Option-cases,
  includes, or_else, is_some, truthy, length, take, drop, All, All-append, get_elem?, replicate,
  All-map, All-zip, length-append, take-append-drop, length-take, length-drop, leb→le,
}
use Prim.Native.String.{◌++◌, len}
use climate_chain.Shared.Text.{show}
use climate_chain.Js.{Value, error_object, end, Result, ok, throw}
use climate_chain.Policy.Constants.{max_region_code_length}

abbrev pub zero_bytes32 : String
zero_bytes32 = "0x0000000000000000000000000000000000000000000000000000000000000000"

-- `encodeBytes32String` and `decodeBytes32String`.
pub record Bytes32 : Type 0 where
  pub encode : String → Result String
  pub decode : String → Result String

unfoldable pub encode_region_code : Bytes32 → String → Result String
encode_region_code codec region =
    if str_eq region ""
    then throw (error_object "Region code must not be empty; the chain rejects bytes32(0)" end)
    else if ltb max_region_code_length (len region)
    then throw (
        error_object
          ("Region code \""
            ++ region
            ++ "\" is "
            ++ show (len region)
            ++ " UTF-8 bytes, exceeding the "
            ++ show max_region_code_length
            ++ "-byte bytes32 budget")
          end)
    else codec.encode region

decoded_text : Result String → Option String
decoded_text (ok s) = if str_eq s "" then none else some s
decoded_text (throw thrown) = none

unfoldable pub decode_region_code : Bytes32 → String → Option String
unfolding decoded_text
decode_region_code codec value =
    if str_eq value zero_bytes32 then none else decoded_text (codec.decode value)
