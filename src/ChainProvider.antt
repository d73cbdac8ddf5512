-- ===== src/ChainProvider.antt =====
-- backend/src/modules/blockchain/chain-provider.service.ts: the RPC connection, the signer and the
-- submission of transactions. What ethers and the node do is a parameter: `Network` holds the outcome of
-- each call that one submission makes. What a submission does to the outside, in order, is its trace.
pub mod Trace
pub mod BlockTime
pub mod Node
use climate_chain.Shared.{
  ℕ, zero, suc, ◌+◌, ◌-◌, ◌*◌, ◌/◌, ◌%◌, ◌^◌, ◌≤◌, ◌<◌, min, max, String, ◌≡◌, refl, sym, ap, ◌∙◌,
  ◌≢◌, ◌↔◌, ◌⊎◌, inl, inr, Bool, true, false, not, ◌&&◌, ◌||◌, Option, none, some, List, [], ◌∷◌,
  map, arith, str_eq, eq_iff, eq_refl, ltb, leb, ◌==◌, if◌then◌else◌, Bool-cases, Option-cases,
  includes, or_else, is_some, truthy, length, take, drop, All, All-append, get_elem?, replicate,
  All-map, All-zip, length-append, take-append-drop, length-take, length-drop, leb→le,
}
use Prim.Native.String.{◌++◌}
use climate_chain.Shared.Text.{show}
use climate_chain.Config.Types.{BlockchainConfig}
use climate_chain.Js.{
  Value, undefined, str, http, error_object, field, end, ExceptionClass, Result, ok, throw, ◌>>=◌,
  ◌>>◌,
}
use climate_chain.Retry.{Pauses, with_rpc_retry}

abbrev pub unavailable : String → Value
unavailable message = http ExceptionClass.unavailable (str message) undefined

-- The connection and the signer are made once, on first use; wallet and signer are set together.
pub record Connection : Type 0 where
  pub provider : Bool
  pub signer : Bool

abbrev pub disconnected : Connection
disconnected = record { provider = false; signer = false }

-- A state, and a value or a thrown value.
abbrev Act : Type 0 → Type 0
Act A = Connection → Result A × Connection

unfoldable pub is_enabled : BlockchainConfig → Bool
is_enabled config = truthy config.rpc_url

unfoldable pub has_signer : BlockchainConfig → Bool
has_signer config = truthy config.private_key

unfoldable pub get_provider : BlockchainConfig → Act (Unit {0})
get_provider config c =
    if c.provider
    then (ok tt, c)
    else if not (truthy config.rpc_url)
    then (
      throw (unavailable "No RPC endpoint is configured; set RPC_URL to enable chain access"),
      c,
    )
    else (ok tt, record c { provider = true })

abbrev no_signer : Value
no_signer = unavailable "No signer is configured; set PRIVATE_KEY to enable on-chain writes"

-- `new Wallet(privateKey, this.getProvider())` needs the provider first.
connect_signer : Result (Unit {0}) × Connection → Result (Unit {0}) × Connection
connect_signer (ok tt, c) = (ok tt, record c { signer = true })
connect_signer (throw thrown, c) = (throw thrown, c)

-- `getSigner()`; `new Wallet` is taken to accept the key, which boot has checked.
unfoldable pub get_signer : BlockchainConfig → Act (Unit {0})
unfolding get_provider connect_signer
get_signer config c =
    if c.signer
    then (ok tt, c)
    else if not (truthy config.private_key)
    then (throw no_signer, c)
    else connect_signer (get_provider config c)

-- The end of a race between an operation and a timer.
pub data Race {ℓ} (A : Type ℓ) : Type ℓ where
  settled : Result A → Race A
  outlived : Race A

unfoldable pub with_timeout {ℓ} : {A : Type ℓ} → String → Race A → ℕ → Result A
with_timeout label (settled result) timeout_ms = result
with_timeout label outlived timeout_ms = throw (
    error_object ("RPC call " ++ label ++ " timed out after " ++ show timeout_ms ++ "ms")
      (field "code" (str "TIMEOUT") end))

-- Every read goes through the retry policy, each attempt under the timeout.
unfoldable pub call {ℓ} :
    {S T : Type ℓ}
    → BlockchainConfig
    → Pauses S
    → (scale : ℕ) → String
    → (S → Race T × S)
    → S
    → Result T × S
call config pauses scale label operation =
    with_rpc_retry pauses scale config.retry_attempts config.retry_base_delay_ms
      (λ s. let (race, s') = operation s in (with_timeout label race config.rpc_timeout_ms, s'))

-- What a submission does to the outside.
pub data Effect : Type 0 where
  nonce_reset : Effect
  announced : (transaction_hash : String) (nonce : ℕ) → Effect
  nonce_increment : Effect
  broadcast : (raw : String) → Effect

-- What the populated request, the nonce manager, the wallet and the node answer in one submission.
pub record Network (Request Prepared Response : Type 0) : Type 0 where
  pub populate : Result Request
  pub prepare : Request → Result Prepared
  pub nonce_of : Prepared → ℕ
  pub sign : Prepared → Result String
  pub hash_of : String → Option String
  pub send : String → Race Response

module _ {Request Prepared Response : Type 0} (config : BlockchainConfig)
    (network : Network Request Prepared Response) where
  -- The `try` block that ends with a signed payload and its nonce.
  pub prepare_and_sign : Result (String × ℕ)
  prepare_and_sign = do
    request ← network.populate
    prepared ← network.prepare request
    raw ← network.sign prepared
    ok (raw, network.nonce_of prepared)

  -- From the announced hash on, a failure is ambiguous: the nonce is not taken back.
  pub hand_over : String → ℕ → String → Result Response × List Effect
  hand_over raw nonce transaction_hash = (
    with_timeout "broadcastTransaction" (network.send raw) config.rpc_timeout_ms,
    announced transaction_hash nonce ∷ nonce_increment ∷ broadcast raw ∷ [],
  )

  pub after_signing : Result (String × ℕ) → Result Response × List Effect
  unfolding hand_over
  after_signing (throw thrown) = (throw thrown, nonce_reset ∷ [])
  after_signing (ok (raw, nonce)) = elim (network.hash_of raw) [
    | none ↦ (
      throw (unavailable "Could not derive a transaction hash before broadcasting"),
      nonce_reset ∷ [],
    )
    | some transaction_hash ↦
        if str_eq transaction_hash ""
        then (
          throw (unavailable "Could not derive a transaction hash before broadcasting"),
          nonce_reset ∷ [],
        )
        else hand_over raw nonce transaction_hash
  ]

  -- One attempt of `submitSignedTransaction`, with its trace.
  unfoldable pub submit_signed_transaction : Connection → Result Response × Connection × List Effect
  unfolding after_signing prepare_and_sign
  submit_signed_transaction c =
      let (signer, c') = get_signer config c in
      elim signer [
        | throw thrown ↦ (throw thrown, c', [])
        | ok u ↦
            if not c'.signer
            then (throw no_signer, c', [])
            else let (result, trace) = after_signing prepare_and_sign in (result, c', trace)
      ]

-- `submissionQueue`: submissions run one at a time in call order, and a failure does not stop the next.
pub run_queue {ℓ} : {S A : Type ℓ} → List (S → Result A × S) → S → List (Result A) × S
run_queue [] s = ([], s)
run_queue (attempt ∷ attempts) s =
    let (result, s') = attempt s in
    let (results, s'') = run_queue attempts s' in (result ∷ results, s'')

-- What `eth_getBlockByNumber` gave: a block with a timestamp, or none.
abbrev pub BlockRead : Type 0
BlockRead = Result (Option ℕ)

-- `readBlockTimestamp("latest")`, which is asked only where the pending block has no timestamp.
latest_or_server : ℕ → BlockRead → ℕ
latest_or_server server_now (ok (some latest)) = max latest server_now
latest_or_server server_now (ok none) = server_now
latest_or_server server_now (throw thrown) = server_now

unfoldable pub get_next_block_timestamp : (now_ms : ℕ) (pending latest : BlockRead) → ℕ
unfolding latest_or_server
get_next_block_timestamp now_ms (ok (some pending)) latest = pending
get_next_block_timestamp now_ms (ok none) latest = latest_or_server (now_ms / 1000) latest
get_next_block_timestamp now_ms (throw thrown) latest = now_ms / 1000
