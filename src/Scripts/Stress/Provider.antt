-- ===== src/Scripts/Stress/Provider.antt =====
-- contracts/scripts/stress-create-policies.ts: the choice of the provider, the policies that it holds unsettled, and
-- what a burst's receipts give. The node, the deployments and the interface are parameters.
use mathlib.Core.Path.{subst}
use climate_chain.Shared.{
  ◌≡◌, ◌⊎◌, inl, inr, Bool, true, false, not, ◌&&◌, ◌||◌, Option, String, [], ◌∷◌, str_eq, or_else,
  if◌then◌else◌,
}
use climate_chain.Js.{Value, Result, ok, throw, ◌>>=◌, bind_ok, ok_inj, throw-ne-ok}
use climate_chain.Registry.Json.{error}
use climate_chain.EvmAddress.{zero_address}
use climate_chain.Scripts.Stress.{HarnessOptions}

-- `code_at` is `getCode`; `deploy` is `deployLocalStack`, which gives the new provider's address; `manifest` is
-- the provider's address in the deployment manifest, `none` where it cannot be read or has none.
pub record Network : Type 0 where
  pub name : String
  pub is_address : String → Bool
  pub code_at : String → Result String
  pub deploy : Result String
  pub manifest : Option String

unfoldable pub has_bytecode : Network → String → Result Bool
has_bytecode net address = do code ← net.code_at address; ok (not (str_eq code "0x"))

unfoldable pub if_deployed : Bool → String → Result String → Result String
if_deployed deployed address otherwise = if deployed then ok address else otherwise

-- The address where it holds code, and `otherwise` where it does not.
unfoldable pub with_bytecode : Network → String → Result String → Result String
unfolding if_deployed has_bytecode
with_bytecode net address otherwise = do
  deployed ← has_bytecode net address
  if_deployed deployed address otherwise

abbrev invalid_provider : Value
invalid_provider = error ("STRESS_PROVIDER_ADDRESS must be a valid non-zero address." ∷ [])

abbrev no_bytecode : Network → String → Value
no_bytecode net address =
    error (
      "STRESS_PROVIDER_ADDRESS " ∷ address ∷ " has no bytecode on network '" ∷ net.name ∷ "'." ∷ [])

unfoldable pub use_explicit : Network → String → Result String
unfolding with_bytecode
use_explicit net address =
    if not (net.is_address address) || str_eq address zero_address
    then throw invalid_provider
    else with_bytecode net address (throw (no_bytecode net address))

unfoldable pub use_manifest : Network → Result String
unfolding with_bytecode
use_manifest net =
    let address = or_else net.manifest "" in
    if not (str_eq address "") && net.is_address address && not (str_eq address zero_address)
    then with_bytecode net address net.deploy
    else net.deploy

-- `explicit` is STRESS_PROVIDER_ADDRESS; an empty one counts as none.
unfoldable pub resolve_provider_address : Network → HarnessOptions → Option String → Result String
unfolding use_explicit use_manifest
resolve_provider_address net options explicit =
    let address = or_else explicit "" in
    if options.force_fresh_deployment
    then net.deploy
    else if not (str_eq address "")
    then use_explicit net address
    else use_manifest net

-- The address has code, or it is of a stack deployed now.
abbrev pub HasCode : Network → String → Type 0
HasCode net address = (has_bytecode net address ≡ ok true) ⊎ (net.deploy ≡ ok address)

if_deployed_ok :
    (net : Network) (b : Bool) (candidate address : String) (otherwise : Result String)
    → has_bytecode net candidate ≡ ok b
    → if_deployed b candidate otherwise ≡ ok address
    → (has_bytecode net address ≡ ok true) ⊎ (otherwise ≡ ok address)
unfolding if_deployed
if_deployed_ok net true candidate address otherwise asked done =
    inl (subst (λ a. has_bytecode net a ≡ ok true) (ok_inj done) asked)
if_deployed_ok net false candidate address otherwise asked done = inr done

with_bytecode_ok :
    (net : Network) (candidate address : String) (otherwise : Result String)
    → with_bytecode net candidate otherwise ≡ ok address
    → (has_bytecode net address ≡ ok true) ⊎ (otherwise ≡ ok address)
unfolding with_bytecode
with_bytecode_ok net candidate address otherwise done =
    let (deployed, asked, last) = bind_ok (has_bytecode net candidate) _ address done in
    if_deployed_ok net deployed candidate address otherwise asked last

-- A conditional gives what one of its branches gives.
if_either : (b : Bool) (x y r : Result String) → (if b then x else y) ≡ r → (x ≡ r) ⊎ (y ≡ r)
if_either true x y r done = inl done
if_either false x y r done = inr done

use_explicit-HasCode :
    (net : Network) (candidate address : String)
    → use_explicit net candidate ≡ ok address
    → HasCode net address
unfolding use_explicit
use_explicit-HasCode net candidate address done =
    let refused_by = not (net.is_address candidate) || str_eq candidate zero_address in
    let none_there = no_bytecode net candidate in
    elim (if_either refused_by (throw invalid_provider)
      (with_bytecode net candidate (throw none_there)) (ok address) done) [
        | inl refused ↦
            let absurd : ⊥ = throw-ne-ok {e = invalid_provider} {a = address} refused in
            elim absurd [ ]
        | inr passed ↦ elim (with_bytecode_ok net candidate address (throw none_there) passed) [
          | inl coded ↦ inl coded
          | inr refused ↦
              let absurd : ⊥ = throw-ne-ok {e = none_there} {a = address} refused in elim absurd [ ]
        ]
      ]

use_manifest-HasCode :
    (net : Network) (address : String) → use_manifest net ≡ ok address → HasCode net address
unfolding use_manifest
use_manifest-HasCode net address done = elim (if_either _ _ _ (ok address) done) [
  | inl passed ↦ with_bytecode_ok net (or_else net.manifest "") address net.deploy passed
  | inr fresh ↦ inr fresh
]

-- The provider that is chosen holds code, or it is the one of a stack that is deployed now.
pub resolve_provider_address-HasCode :
    (net : Network) (options : HarnessOptions) (explicit : Option String) (address : String)
    → resolve_provider_address net options explicit ≡ ok address
    → HasCode net address
unfolding resolve_provider_address
resolve_provider_address-HasCode net options explicit address done =
    let candidate = or_else explicit "" in
    let given = not (str_eq candidate "") in
    let reused = if given then use_explicit net candidate else use_manifest net in
    elim (if_either options.force_fresh_deployment net.deploy reused (ok address) done) [
      | inl fresh ↦ inr fresh
      | inr chosen ↦
          elim (if_either given (use_explicit net candidate) (use_manifest net) (ok address)
            chosen) [
              | inl explicitly ↦ use_explicit-HasCode net candidate address explicitly
              | inr found ↦ use_manifest-HasCode net address found
            ]
    ]
