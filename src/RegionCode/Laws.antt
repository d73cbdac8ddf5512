-- ===== src/RegionCode/Laws.antt =====
-- A region that was encoded is read back, but for the NULs at its end.
use Prim.Native.Char.{code}
use climate_chain.Shared.{String, ◌≡◌, ◌==◌, str_eq, ◌&&◌, if◌then◌else◌}
use climate_chain.Js.{ok}
use climate_chain.RegionCode.{Bytes32, zero_bytes32}

-- The text without the NULs at its end.
unfoldable pub without_nuls : String → String
without_nuls String.[] = String.[]
without_nuls (String.◌∷◌ c s) =
    let rest = without_nuls s in if code c == 0 && str_eq rest "" then "" else String.◌∷◌ c rest

-- What ethers documents of its codec: the encoded text is padded with zero bytes, and decoding drops the
-- zero bytes at the end; so the zero word is the empty text, and a text comes back without the NULs at its
-- end.
pub record IsCodec (codec : Bytes32) : Type 0 where
  pub decode-encode : (s v : String) → codec.encode s ≡ ok v → codec.decode v ≡ ok (without_nuls s)
  pub decode-zero : codec.decode zero_bytes32 ≡ ok ""
