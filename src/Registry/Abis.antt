-- ===== src/Registry/Abis.antt =====
-- `loadAbis` of contract-registry.service.ts.
pub mod Laws
use climate_chain.Shared.{
  ℕ, ◌==◌, String, Bool, true, false, not, Option, none, some, List, [], ◌∷◌, map, str_eq, truthy,
  is_some, or_else, if◌then◌else◌,
}
use climate_chain.Shared.Dict.{Dict, get, set, keys}
use climate_chain.Shared.Text.{append, join, show, trim}
use climate_chain.Config.Types.{BlockchainConfig}
use climate_chain.EvmAddress.{assert_usable_address}
use climate_chain.Js.{
  Value, undefined, null, bool, num, str, arr, obj, error_object, http, Items, nil, cons, end, prop,
  as_string, as_number, Result, ok, throw, ◌>>=◌, ◌>>◌,
}
use climate_chain.Registry.Json.{Disk, error, member, is_text, as_items, is_object, read_json}

abbrev pub required_contracts : List String
required_contracts = "InsuranceProvider" ∷ "InsurancePolicy" ∷ []

module _ (disk : Disk) (string_of : Value → String) where
  -- `index.contracts.find(...)`
  find_entry : String → Items → Result (Option Value)
  find_entry name nil = ok none
  find_entry name (cons candidate items) =
      let rest = find_entry name items in
      do
        found ← member candidate "contractName"
        if is_text found name then ok (some candidate) else rest

  malformed_index : String → Value
  malformed_index path =
      error ("Malformed ABI index at " ∷ path ∷ " (expected { schemaVersion, contracts[] })" ∷ [])

  -- The entries of a well-formed index.
  index_entries : String → Value → Result Items
  index_entries path index = do
    version ← member index "schemaVersion"
    contracts ← member index "contracts"
    elim (as_number version) [
      | none ↦ throw (malformed_index path)
      | some n ↦ elim (as_items contracts) [
        | none ↦ throw (malformed_index path)
        | some items ↦ ok items
      ]
    ]

  -- The fragments of a usable artifact that is indexed under its own name.
  artifact_abi : String → String → Value → Result Items
  artifact_abi name path artifact = do
    abi ← member artifact "abi"
    declared ← member artifact "contractName"
    elim (as_items abi) [
      | some (cons fragment fragments) ↦
          if is_text declared name
          then ok (cons fragment fragments)
          else throw (
              error (
                "ABI artifact "
                ∷ path
                ∷ " declares contractName \""
                ∷ string_of declared
                ∷ "\" but was indexed as \""
                ∷ name
                ∷ "\""
                ∷ []))
      | _ ↦
          throw
            (error ("ABI artifact " ∷ path ∷ " for \"" ∷ name ∷ "\" has no usable abi array" ∷ []))
    ]

  -- One round of the loop.
  load_abi : String → String → Items → String → Result Items
  load_abi shared_abi_dir index_path items name = do
    entry ← find_entry name items
    elim entry [
      | none ↦ throw (
          error ("Required contract \"" ∷ name ∷ "\" is missing from ABI index " ∷ index_path ∷ []))
      | some found ↦ do
        path ← disk.path shared_abi_dir (prop "file" found)
        artifact ← read_json disk string_of path (append "ABI artifact for " name)
        artifact_abi name path artifact
    ]

  -- What was loaded before a failure stays in the map.
  load_abis_of : String → String → Items → List String → Dict Items → Result (Unit {0}) × Dict Items
  load_abis_of shared_abi_dir index_path items [] abis = (ok tt, abis)
  load_abis_of shared_abi_dir index_path items (name ∷ names) abis =
      elim (load_abi shared_abi_dir index_path items name) [
        | throw thrown ↦ (throw thrown, abis)
        | ok abi ↦ load_abis_of shared_abi_dir index_path items names (set name abi abis)
      ]

  read_index : String → Result (String × Items)
  read_index shared_abi_dir = do
    index_path ← disk.path shared_abi_dir (str "index.json")
    index ← read_json disk string_of index_path "shared ABI index"
    items ← index_entries index_path index
    ok (index_path, items)

  pub load_abis : String → Result (Unit {0}) × Dict Items
  unfolding load_abis_of
  load_abis shared_abi_dir = elim (read_index shared_abi_dir) [
    | throw thrown ↦ (throw thrown, [])
    | ok (index_path, items) ↦ load_abis_of shared_abi_dir index_path items required_contracts []
  ]
