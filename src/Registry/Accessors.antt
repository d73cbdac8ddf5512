-- ===== src/Registry/Accessors.antt =====
-- The accessors of contract-registry.service.ts.
use climate_chain.Shared.{String, Option, none, some, [], ◌∷◌}
use climate_chain.Shared.Dict.{get}
use climate_chain.Js.{Items, Result, ok, throw, ◌>>=◌}
use climate_chain.Registry.Json.{error}
use climate_chain.Registry.Load.{Manifest, Snapshot, Registry}

unfoldable pub get_snapshot : Registry → Result Snapshot
get_snapshot registry = elim registry.snapshot [
  | none ↦ throw (error ("Contract registry is not initialized" ∷ []))
  | some snapshot ↦ ok snapshot
]

unfoldable pub get_abi : Registry → String → Result Items
get_abi registry name = elim (get name registry.abis) [
  | none ↦ throw (error ("ABI for contract \"" ∷ name ∷ "\" is not loaded" ∷ []))
  | some abi ↦ ok abi
]

unfoldable pub get_provider_address : Registry → Result String
unfolding get_snapshot
get_provider_address registry = do snapshot ← get_snapshot registry; ok snapshot.provider_address

unfoldable pub get_oracle_address : Registry → Result (Option String)
unfolding get_snapshot
get_oracle_address registry = do snapshot ← get_snapshot registry; ok snapshot.oracle_address

unfoldable pub get_chain_id : Registry → Result String
unfolding get_snapshot
get_chain_id registry = do snapshot ← get_snapshot registry; ok snapshot.chain_id

unfoldable pub get_manifest : Registry → Result Manifest
get_manifest registry = elim registry.manifest [
  | none ↦ throw (error ("Deployment manifest is not loaded" ∷ []))
  | some manifest ↦ ok manifest
]
