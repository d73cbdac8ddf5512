-- ===== src/ChainProvider/Node.antt =====
-- The chain id and the head as the node reports them, the signer's address, the unsigned submission and
-- the shutdown, of chain-provider.service.ts. `BigInt` is a parameter.
use climate_chain.Shared.{ℕ, String, Option, none, some, not, if◌then◌else◌}
use climate_chain.Shared.Text.{show}
use climate_chain.Config.Types.{BlockchainConfig}
use climate_chain.Js.{Result, ok, throw, ◌>>=◌}
use climate_chain.Retry.{Pauses}
use climate_chain.ChainProvider.{Connection, disconnected, Race, call, has_signer, get_signer}

module _ {S : Type 0} (config : BlockchainConfig) (pauses : Pauses S) (scale : ℕ)
    (big_int : String → Result ℕ) where
  unfoldable pub get_chain_id_from_node : (S → Race String × S) → S → Result String × S
  unfolding call
  get_chain_id_from_node send s =
      let (raw, s') = call config pauses scale "eth_chainId" send s in
      ((do text ← raw; id ← big_int text; ok (show id)), s')

  unfoldable pub get_block_number_from_node : (S → Race String × S) → S → Result ℕ × S
  unfolding call
  get_block_number_from_node send s =
      let (raw, s') = call config pauses scale "eth_blockNumber" send s in
      ((do text ← raw; big_int text), s')

-- `address` is the wallet's.
unfoldable pub get_signer_address :
    BlockchainConfig → (address : String) → Connection → Result (Option String) × Connection
unfolding has_signer get_signer
get_signer_address config address c =
    if not (has_signer config)
    then (ok none, c)
    else let (signer, c') = get_signer config c in
      ((do made ← signer; ok (if c'.signer then some address else none)), c')

-- One attempt of `submitTransaction`: a failure discards the local nonce.
unfoldable pub submit_transaction {ℓ} :
    {S T : Type ℓ} → (reset : S → S) → (S → Result T × S) → S → Result T × S
submit_transaction reset send s =
    let (result, s') = send s in
    elim result [ ok response ↦ (ok response, s') | throw thrown ↦ (throw thrown, reset s') ]

unfoldable pub on_module_destroy : Connection → Connection
on_module_destroy c = disconnected
