-- ===== src/Retry/Laws.antt =====
-- What `withRpcRetry` promises: how often it calls, when it gives up, and that it recovers.
use climate_chain.Shared.{
  ℕ, zero, suc, ◌+◌, ◌≤◌, ◌<◌, ◌≡◌, refl, ◌∙◌, ◌⊎◌, inl, inr, true, false, List, [], ◌∷◌, ◌++◌, map,
  All, length, arith,
}
use climate_chain.Js.{Value, undefined, Result, ok, throw}
use climate_chain.Retry.{Pauses, is_transient_rpc_error, attempt_from, with_rpc_retry, pause}
use climate_chain.Js.{Result-cases}

-- `calls` counts the calls of the operation, and the pauses between them do not change it.
pub record Counts {ℓ} {S T : Type ℓ} (pauses : Pauses S) (operation : S → Result T × S)
    (calls : S → ℕ) : Type ℓ where
  pub counted : (s : S) → calls (operation s).1 ≡ calls s + 1
  pub at_random : (s : S) → calls (pauses.random s).1 ≡ calls s
  pub at_retry : (n d : ℕ) (e : Value) (s : S) → calls (pauses.on_retry n d e s) ≡ calls s
  pub at_sleep : (d : ℕ) (s : S) → calls (pauses.sleep d s) ≡ calls s

module _ {ℓ} {S T : Type ℓ} (pauses : Pauses S) (scale attempts base_delay_ms : ℕ)
    (operation : S → Result T × S) (calls : S → ℕ) (counts : Counts pauses operation calls) where
  -- A thrown value reaches the caller if it is permanent, or if all attempts are used.
  abbrev pub GaveUp : ℕ → Result T → ℕ → Type 0
  GaveUp before (ok a) after = Unit
  GaveUp before (throw e) after = (is_transient_rpc_error e ≡ false) ⊎ (after ≡ before + attempts)

  calls-pause :
      (n : ℕ) (e : Value) (s : S) → calls (pause pauses scale base_delay_ms n e s) ≡ calls s
  unfolding pause
  calls-pause n e s = counts.at_sleep _ _ ∙ counts.at_retry _ _ _ _ ∙ counts.at_random s

  attempt_from_calls :
      (rounds attempt : ℕ) (last : Value) (s : S) (before : ℕ)
      → attempt + rounds ≡ attempts + 1
      → 0 < rounds
      → calls s + 1 ≡ before + attempt
      → let (r, s') =
          attempt_from pauses scale attempts base_delay_ms operation rounds attempt last s in
        (before + attempt ≤ calls s') × (calls s' ≤ before + attempts) × GaveUp before r (calls s')
  unfolding attempt_from
  attempt_from_calls zero attempt last s before e pos c = absurd (omega arith)
  attempt_from_calls (suc rounds) attempt last s before e pos c =
      elim (Result-cases (operation s).0) [
        | inl (a, returned) ↦ ground (arith, counts.counted s)
        | inr (thrown, failed) ↦ ground (
          arith,
          counts.counted s,
          calls-pause attempt thrown (operation s).1,
          attempt_from_calls rounds (attempt + 1) thrown
              (pause pauses scale base_delay_ms attempt thrown (operation s).1) before,
        )
      ]

  -- With at least one attempt allowed, `withRpcRetry` calls its operation at least once and at most
  -- `attempts` times, and a value that it throws was judged permanent or all the attempts were used.
  pub with_rpc_retry-GaveUp :
      (s : S)
      → 0 < attempts
      → let (r, s') = with_rpc_retry pauses scale attempts base_delay_ms operation s in
        (calls s + 1 ≤ calls s') × (calls s' ≤ calls s + attempts) × GaveUp (calls s) r (calls s')
  unfolding with_rpc_retry
  with_rpc_retry-GaveUp s pos =
      attempt_from_calls attempts 1 undefined s (calls s) (omega arith) pos refl

-- An operation that plays a script of results, one for each call, with pauses that leave it alone.
abbrev pub play {ℓ} : {T : Type ℓ} → List (Result T) → Result T × List (Result T)
play [] = (throw undefined, [])
play (r ∷ rs) = (r, rs)

abbrev pub keeping {ℓ} : {S : Type ℓ} → ℕ → Pauses S
keeping k = record { random = λ s. (k, s); on_retry = λ n d e s. s; sleep = λ d s. s }

module _ {ℓ} {T : Type ℓ} (scale base_delay_ms k : ℕ) where
  attempt_from_recovers :
      (rounds attempt attempts : ℕ) (failures : List Value) (last : Value) (outcome : Result T)
      (rest : List (Result T))
      → attempt + rounds ≡ attempts + 1
      → length failures < rounds
      → All (λ e. is_transient_rpc_error e ≡ true) failures
      → ((e : Value) → outcome ≡ throw e → is_transient_rpc_error e ≡ false)
      → attempt_from
          (keeping k)
          scale
          attempts
          base_delay_ms
          play
          rounds
          attempt
          last
          (map throw failures ++ outcome ∷ rest)
        ≡ (outcome, rest)
  unfolding attempt_from pause
  attempt_from_recovers zero attempt attempts failures last outcome rest e short t p =
      absurd (omega arith)
  attempt_from_recovers (suc rounds) attempt attempts [] last (ok a) rest e short t p = refl
  attempt_from_recovers (suc rounds) attempt attempts [] last (throw x) rest e short t p =
      ground (arith, p x refl)
  attempt_from_recovers (suc rounds) attempt attempts (x ∷ failures) last outcome rest e short t p =
      ground (
        arith,
        attempt_from_recovers rounds (attempt + 1) attempts failures x outcome rest (omega arith)
            (omega arith) t.1 p,
      )

  -- Transient failures, fewer than the attempts allowed, are invisible to the caller: it gets the
  -- first result that is a value or a permanent failure, and no call is made after that one.
  pub with_rpc_retry_recovers :
      (attempts : ℕ) (failures : List Value) (outcome : Result T) (rest : List (Result T))
      → length failures < attempts
      → All (λ e. is_transient_rpc_error e ≡ true) failures
      → ((e : Value) → outcome ≡ throw e → is_transient_rpc_error e ≡ false)
      → with_rpc_retry
          (keeping k)
          scale
          attempts
          base_delay_ms
          play
          (map throw failures ++ outcome ∷ rest)
        ≡ (outcome, rest)
  unfolding with_rpc_retry
  with_rpc_retry_recovers attempts failures outcome rest =
      attempt_from_recovers attempts 1 attempts failures undefined outcome rest (omega arith)
