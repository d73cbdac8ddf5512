-- ===== src/Tests/Store.antt =====
-- Idempotency and retries on concrete inputs.
use climate_chain.Shared.{
  none, ℕ, ◌*◌, ◌^◌, ◌-◌, String, ◌≡◌, ◌≢◌, refl, sym, true, false, some, List, [], ◌∷◌, ◌++◌, map,
  arith, eq_iff, ◌≤◌, ◌+◌,
}
use climate_chain.Shared.Dict.{get}
use climate_chain.Js.{Result, ok, throw, throw-ne-ok}
use climate_chain.Idempotency.{
  Event, arrive, mark, settle, answered, started, scoped_key, step, run, take_out,
}
use climate_chain.Idempotency.Exclusion.{IsExclusive, run-IsExclusive}
use climate_chain.Idempotency.Retention.{IsRefusal, unresolved_never_restarts}
use climate_chain.Idempotency.Replay.{settle-replays, settle-releases}
use climate_chain.Idempotency.Scope.{IsColonFree, scoped_key_injective}
use climate_chain.Idempotency.{evict_expired, is_expired, Server}
use climate_chain.Shared.Dict.{set}
use climate_chain.Idempotency.Recorded.{handed_over_never_restarts}
use climate_chain.Retry.{is_transient_rpc_error, jittered_delay, with_rpc_retry}
use climate_chain.Retry.Laws.{play, keeping, with_rpc_retry_recovers, with_rpc_retry-GaveUp, GaveUp}
use climate_chain.Retry.Backoff.{jittered_delay_bounds}
use climate_chain.Tests.Data.{
  test_handle, test_invocation, waiting, unresolved, timeout_error, odd_error,
}

pub is_waiting : {T : Type 0} → IsExclusive {T = T} waiting
unfolding get
is_waiting = record { owned = (tt, tt); distinct = (tt, tt) }

pub found : take_out 0 (test_invocation ∷ []) ≡ some (test_invocation, [])
unfolding take_out
found = refl

pub scoped : scoped_key "admin" "k" ≡ "admin:k"
unfolding scoped_key
scoped = refl

pub keyed : ◌≢◌ {A = String} "k" ""
keyed same = let wrong : false ≡ true = (eq_iff "k" "").1 same in cc

abbrev later_events : List (Event ℕ)
later_events = arrive 20 "other" (some "k") "h" ∷ mark 21 1 test_handle ∷ settle 22 1 (ok 3) ∷ []

unresolved_never_restarts_example :
    IsRefusal (step (run unresolved later_events) (arrive 99999999 "admin" (some "k") "g")).1
unfolding get
unresolved_never_restarts_example =
    unresolved_never_restarts "admin:k" "h" 9 test_handle unresolved later_events 99999999 "admin"
      "k" "g" (record { kept = refl; unowned = tt }) scoped keyed

run-IsExclusive_example : IsExclusive (run waiting later_events)
run-IsExclusive_example = run-IsExclusive waiting later_events is_waiting

abbrev three : Result ℕ
three = ok 3

settle-replays_example :
    let s =
      run
        (step (waiting {T = ℕ}) (settle 10 0 three)).0
        (arrive 15 "admin" (some "k") "other" ∷ mark 16 5 test_handle ∷ []) in
    (step s (arrive 20 "admin" (some "k") "h")).1 ≡ answered three
settle-replays_example =
    settle-replays waiting 10 20 0 test_invocation [] 3 "admin"
      (arrive 15 "admin" (some "k") "other" ∷ mark 16 5 test_handle ∷ []) is_waiting found
      (sym scoped) keyed (omega arith) (omega arith, (tt, tt))

settle-releases_example :
    let s =
      run
        (step (waiting {T = ℕ}) (settle 10 0 (throw odd_error))).0
        (arrive 15 "admin" none "other" ∷ settle 16 5 three ∷ []) in
    (step s (arrive 20 "admin" (some "k") "g")).1 ≡ started s.next_id
settle-releases_example =
    settle-releases waiting 10 20 0 test_invocation [] odd_error "admin" "g"
      (arrive 15 "admin" none "other" ∷ settle 16 5 three ∷ []) is_waiting found (sym scoped) keyed
      refl (tt, (tt, tt))

IsColonFree-admin : IsColonFree "admin"
IsColonFree-admin = (
  (λ h. omega arith),
  ((λ h. omega arith), ((λ h. omega arith), ((λ h. omega arith), ((λ h. omega arith), tt)))),
)

scoped_key_injective_example : (◌≡◌ {A = String} "admin" "admin") × (◌≡◌ {A = String} "k" "k")
scoped_key_injective_example =
    scoped_key_injective "admin" "admin" "k" "k" IsColonFree-admin IsColonFree-admin refl

abbrev script : List (Result ℕ)
script = map throw (timeout_error ∷ timeout_error ∷ []) ++ three ∷ []

with_rpc_retry_recovers_example : with_rpc_retry (keeping 500) 1000 3 200 play script ≡ (three, [])
unfolding is_transient_rpc_error
with_rpc_retry_recovers_example =
    with_rpc_retry_recovers 1000 200 500 3 (timeout_error ∷ timeout_error ∷ []) three []
      (omega arith) (refl, (refl, tt)) (λ e h. elim (throw-ne-ok (sym h)) [ ])

-- Counts its calls, and always times out.
abbrev counting : ℕ → Result ℕ × ℕ
counting n = (throw timeout_error, n + 1)

abbrev itself : ℕ → ℕ
itself n = n

with_rpc_retry-GaveUp_example :
    let (r, n) = with_rpc_retry (keeping 500) 1000 3 200 counting 0 in
    (1 ≤ n)
    × (n ≤ 3)
    × GaveUp
        (keeping 500)
        1000
        3
        200
        counting
        itself
        (record {
          counted = λ s. refl;
          at_random = λ s. refl;
          at_retry = λ n d e s. refl;
          at_sleep = λ d s. refl;
        })
        0
        r
        n
with_rpc_retry-GaveUp_example =
    with_rpc_retry-GaveUp (keeping 500) 1000 3 200 counting itself
      (record {
        counted = λ s. refl;
        at_random = λ s. refl;
        at_retry = λ n d e s. refl;
        at_sleep = λ d s. refl;
      })
      0 (omega arith)

jittered_delay_bounds_example :
    (200 * 2 ^ (2 - 1) ≤ 2 * jittered_delay 1000 200 2 500)
    × (jittered_delay 1000 200 2 500 ≤ 200 * 2 ^ (2 - 1))
jittered_delay_bounds_example = jittered_delay_bounds 1000 200 2 500 (omega arith) (omega arith)

abbrev idle : Server ℕ
idle = record { entries = []; running = []; next_id = 0 }

-- Two operations start, and the first hands its work over after the second has failed.
abbrev interleaved : List (Event ℕ)
interleaved =
    arrive 5 "admin" (some "k") "h"
    ∷ arrive 6 "other" (some "k") "h"
    ∷ settle 7 1 (throw odd_error)
    ∷ mark 9 0 test_handle
    ∷ []

handed_over_found :
    take_out 0 (run idle interleaved).running
    ≡ some (record test_invocation { handed_over = some test_handle }, [])
unfolding run step take_out get set scoped_key evict_expired is_expired
handed_over_found = refl

handed_over_never_restarts_example :
    IsRefusal
      (step
        (run (step (run idle interleaved) (settle 12 0 (throw odd_error))).0 later_events)
        (arrive 99999999 "admin" (some "k") "g")).1
handed_over_never_restarts_example =
    handed_over_never_restarts idle interleaved later_events 12 0 odd_error
      (record test_invocation { handed_over = some test_handle }) [] test_handle 99999999 "admin"
      "k" "g" (record { owned = tt; distinct = tt }) tt handed_over_found refl scoped keyed
