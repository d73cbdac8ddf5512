-- ===== src/Registry/Load/Laws.antt =====
-- What a loaded registry guarantees, and what a failed load leaves.
use climate_chain.Shared.{ℕ, String, ◌≡◌, true, false, some}
use climate_chain.Shared.Text.{show}
use climate_chain.Config.Types.{BlockchainConfig}
use climate_chain.EvmAddress.{matches_evm_address, is_zero_address}
use climate_chain.Js.{Value}
use climate_chain.Registry.Json.{Disk}
use climate_chain.Registry.Load.{Registry, Snapshot, provider_address}

-- A text that is an address, and not the zero address.
abbrev pub IsUsable : String → Type 0
IsUsable address = (matches_evm_address address ≡ true) × (is_zero_address address ≡ false)

module _ (disk : Disk) (string_of : Value → String) where
  -- The snapshot agrees with the configuration, and its provider can be used.
  pub record IsSound (config : BlockchainConfig) (snapshot : Snapshot) : Type 0 where
    pub own_network : snapshot.network ≡ config.network
    pub own_chain : (id : ℕ) → config.chain_id ≡ some id → show id ≡ snapshot.chain_id
    pub usable : IsUsable snapshot.provider_address
