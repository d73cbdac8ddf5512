-- ===== src/ChainProvider/Trace.antt =====
-- The order of what a submission does: the hash is announced before anything is sent, and a nonce is
-- taken back only where nothing was announced.
use climate_chain.Shared.{
  ℕ, String, ◌≡◌, refl, ap, ◌∙◌, ◌⊎◌, inl, inr, some, List, [], ◌∷◌, str_eq, Bool-cases,
  Option-cases,
}
use climate_chain.Config.Types.{BlockchainConfig}
use mathlib.Core.Path.{subst}
use climate_chain.Js.{Result, ok, throw, Result-cases, bind_ok, ok_inj, throw-ne-ok}
use climate_chain.ChainProvider.{
  Race, settled, outlived, with_timeout, Connection, Effect, nonce_reset, announced,
  nonce_increment, broadcast, Network, hand_over, prepare_and_sign, after_signing,
  submit_signed_transaction, get_signer,
}

abbrev pub IsThrown {ℓ} : {A : Type ℓ} → Result A → Type 0
IsThrown (ok a) = ⊥
IsThrown (throw e) = Unit

module _ {Request Prepared Response : Type 0} (config : BlockchainConfig)
    (network : Network Request Prepared Response) where
  -- A submission fails with nothing announced and nothing sent, or it announces the hash of the payload
  -- that it then sends, once.
  abbrev pub InOrder : Result Response → List Effect → Type 0
  InOrder result trace =
      (IsThrown result × ((trace ≡ []) ⊎ (trace ≡ nonce_reset ∷ [])))
      ⊎ ((raw : String) × (transaction_hash : String) × (nonce : ℕ) × (network.hash_of raw
            ≡ some transaction_hash)
          × (trace ≡ announced transaction_hash nonce ∷ nonce_increment ∷ broadcast raw ∷ []))

  -- What stands behind a response: the request was populated, prepared and signed into a payload, the hash
  -- that is announced is this payload's and the nonce the prepared request's, then the payload is sent,
  -- once, and the node answers it with the response.
  pub record IsSent (response : Response) (trace : List Effect) : Type 0 where
    pub request : Request
    pub prepared : Prepared
    pub raw : String
    pub transaction_hash : String
    pub populated : network.populate ≡ ok request
    pub ready : network.prepare request ≡ ok prepared
    pub signed : network.sign prepared ≡ ok raw
    pub known : network.hash_of raw ≡ some transaction_hash
    pub answered : network.send raw ≡ settled (ok response)
    pub ordered :
        trace
        ≡ announced transaction_hash (network.nonce_of prepared)
          ∷ nonce_increment
          ∷ broadcast raw
          ∷ []

  with_timeout_ok :
      (label : String) (race : Race Response) (timeout_ms : ℕ) (response : Response)
      → with_timeout label race timeout_ms ≡ ok response
      → race ≡ settled (ok response)
  unfolding with_timeout
  with_timeout_ok label (settled result) timeout_ms response done = ap settled done
  with_timeout_ok label outlived timeout_ms response done = elim (throw-ne-ok done) [ ]

  Sent : Result Response → List Effect → Type 0
  Sent (ok response) trace = IsSent response trace
  Sent (throw thrown) trace = Unit

  hand_over-Sent :
      (request : Request) (prepared : Prepared) (raw transaction_hash : String)
      (result : Result Response)
      → network.populate ≡ ok request
      → network.prepare request ≡ ok prepared
      → network.sign prepared ≡ ok raw
      → network.hash_of raw ≡ some transaction_hash
      → with_timeout "broadcastTransaction" (network.send raw) config.rpc_timeout_ms ≡ result
      → Sent result (
          announced transaction_hash (network.nonce_of prepared)
          ∷ nonce_increment
          ∷ broadcast raw
          ∷ [])
  unfolding Sent
  hand_over-Sent request prepared raw transaction_hash (throw thrown) p q r known raced = tt
  hand_over-Sent request prepared raw transaction_hash (ok response) p q r known raced = record {
    request = request;
    prepared = prepared;
    raw = raw;
    transaction_hash = transaction_hash;
    populated = p;
    ready = q;
    signed = r;
    known = known;
    answered = with_timeout_ok _ _ _ response raced;
    ordered = refl;
  }

  after_signing-Sent :
      (signed : Result (String × ℕ))
      → prepare_and_sign config network ≡ signed
      → let (result, trace) = after_signing config network signed in Sent result trace
  unfolding after_signing hand_over prepare_and_sign Sent
  after_signing-Sent (throw thrown) this = tt
  after_signing-Sent (ok (raw, nonce)) this =
      let (request, populated, d1) = bind_ok network.populate _ (raw, nonce) this in
      let (prepared, ready, d2) = bind_ok (network.prepare request) _ (raw, nonce) d1 in
      let (raw', signed, same) = bind_ok (network.sign prepared) _ (raw, nonce) d2 in
      let this_raw : raw' ≡ raw = ap (λ x. x.0) (ok_inj same) in
      let this_nonce : network.nonce_of prepared ≡ nonce = ap (λ x. x.1) (ok_inj same) in
      elim (Option-cases (network.hash_of raw)) [
        | inl unknown ↦ rw (unknown, after_signing) tt
        | inr (transaction_hash, known) ↦ elim (Bool-cases (str_eq transaction_hash "")) [
          | inl empty ↦ rw (known, empty, after_signing) tt
          | inr nonempty ↦
              rw (known, nonempty, after_signing, hand_over, ← this_nonce)
                (hand_over-Sent request prepared raw transaction_hash _ populated ready
                  (signed ∙ ap ok this_raw) known refl)
        ]
      ]

  submission-Sent :
      (c : Connection)
      → let (result, c', trace) = submit_signed_transaction config network c in Sent result trace
  unfolding submit_signed_transaction Sent
  submission-Sent c = elim (Result-cases (get_signer config c).0) [
    | inl (u, connected) ↦ elim (Bool-cases (get_signer config c).1.signer) [
      | inl present ↦
          rw (connected, present, submit_signed_transaction)
            (after_signing-Sent (prepare_and_sign config network) refl)
      | inr absent ↦ rw (connected, absent, submit_signed_transaction) tt
    ]
    | inr (thrown, failed) ↦ rw (failed, submit_signed_transaction) tt
  ]

  pub submit_signed_transaction_ok :
      (c : Connection) (response : Response)
      → (submit_signed_transaction config network c).0 ≡ ok response
      → IsSent response (submit_signed_transaction config network c).2
  unfolding Sent
  submit_signed_transaction_ok c response done =
      subst (λ result. Sent result (submit_signed_transaction config network c).2) done
        (submission-Sent c)

  after_signing-InOrder :
      (signed : Result (String × ℕ))
      → let (result, trace) = after_signing config network signed in InOrder result trace
  unfolding after_signing hand_over
  after_signing-InOrder (throw thrown) = inl (tt, inr refl)
  after_signing-InOrder (ok (raw, nonce)) = elim (Option-cases (network.hash_of raw)) [
    | inl unknown ↦ rw (unknown, after_signing) (inl (tt, inr refl))
    | inr (transaction_hash, known) ↦ elim (Bool-cases (str_eq transaction_hash "")) [
      | inl empty ↦ rw (known, empty, after_signing) (inl (tt, inr refl))
      | inr nonempty ↦
          rw (known, nonempty, after_signing, hand_over)
            (inr (raw, transaction_hash, nonce, known, refl))
    ]
  ]

  pub submit_signed_transaction-InOrder :
      (c : Connection)
      → let (result, c', trace) = submit_signed_transaction config network c in InOrder result trace
  unfolding submit_signed_transaction
  submit_signed_transaction-InOrder c = elim (Result-cases (get_signer config c).0) [
    | inl (u, connected) ↦ elim (Bool-cases (get_signer config c).1.signer) [
      | inl present ↦
          rw (connected, present, submit_signed_transaction)
            (after_signing-InOrder (prepare_and_sign config network))
      | inr absent ↦ rw (connected, absent, submit_signed_transaction) (inl (tt, inl refl))
    ]
    | inr (thrown, failed) ↦ rw (failed, submit_signed_transaction) (inl (tt, inl refl))
  ]
