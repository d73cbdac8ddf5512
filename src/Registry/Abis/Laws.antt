-- ===== src/Registry/Abis/Laws.antt =====
-- What `loadAbis` leaves in the map.
use climate_chain.Shared.{
  String, ◌≡◌, refl, sym, inl, inr, true, List, [], ◌∷◌, arith, eq_refl, is_some, All,
}
use mathlib.Core.Path.{subst}
use climate_chain.Shared.Dict.{Dict, get, set, get-set}
use climate_chain.Js.{Value, Items, Result, ok, Result-cases, throw-ne-ok}
use climate_chain.Registry.Json.{Disk}
use climate_chain.Registry.Abis.{required_contracts, load_abi, load_abis_of, load_abis, read_index}

abbrev pub IsLoaded : Dict Items → String → Type 0
IsLoaded abis name = is_some (get name abis) ≡ true

IsLoaded-set :
    (abis : Dict Items) (name other : String) (abi : Items)
    → IsLoaded abis other
    → IsLoaded (set name abi abis) other
IsLoaded-set abis name other abi there = rw (get-set) (ground (arith, there))

module _ (disk : Disk) (string_of : Value → String) where
  load_abis_of_keeps :
      (dir path : String) (items : Items) (names : List String) (abis : Dict Items) (other : String)
      → IsLoaded abis other
      → IsLoaded (load_abis_of disk string_of dir path items names abis).1 other
  unfolding load_abis_of
  load_abis_of_keeps dir path items [] abis other there = there
  load_abis_of_keeps dir path items (name ∷ names) abis other there =
      elim (Result-cases (load_abi disk string_of dir path items name)) [
        | inr (thrown, failed) ↦ rw (failed, load_abis_of) there
        | inl (abi, found) ↦
            rw (found, load_abis_of)
              (load_abis_of_keeps dir path items names (set name abi abis) other
                (IsLoaded-set abis name other abi there))
      ]

  load_abis_of_ok :
      (dir path : String) (items : Items) (names : List String) (abis : Dict Items)
      → (load_abis_of disk string_of dir path items names abis).0 ≡ ok tt
      → All (IsLoaded (load_abis_of disk string_of dir path items names abis).1) names
  unfolding load_abis_of
  load_abis_of_ok dir path items [] abis done = tt
  load_abis_of_ok dir path items (name ∷ names) abis done =
      elim (Result-cases (load_abi disk string_of dir path items name)) [
        | inr (thrown, failed) ↦ elim (throw-ne-ok (rw (failed, load_abis_of) at done)) [ ]
        | inl (abi, found) ↦
            let next : load_abis_of disk string_of dir path items (name ∷ names) abis
                ≡ load_abis_of disk string_of dir path items names (set name abi abis) =
              rw (found, load_abis_of) refl in
            subst (λ (x : Result (Unit {0}) × Dict Items). All (IsLoaded x.1) (name ∷ names))
              (sym next)
              (
                load_abis_of_keeps dir path items names (set name abi abis) name
                    (rw (get-set, eq_refl) refl),
                load_abis_of_ok dir path items names (set name abi abis)
                    (rw (found, load_abis_of) at done),
              )
      ]

  -- Where `loadAbis` does not throw, every required ABI is in the map.
  pub load_abis_ok :
      (dir : String)
      → (load_abis disk string_of dir).0 ≡ ok tt
      → All (IsLoaded (load_abis disk string_of dir).1) required_contracts
  unfolding load_abis
  load_abis_ok dir done = elim (Result-cases (read_index disk string_of dir)) [
    | inr (thrown, failed) ↦ elim (throw-ne-ok (rw (failed, load_abis) at done)) [ ]
    | inl ((path, items), found) ↦
        rw (found, load_abis)
          (load_abis_of_ok dir path items required_contracts [] (rw (found, load_abis) at done))
  ]
