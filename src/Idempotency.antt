-- ===== src/Idempotency.antt =====
-- backend/src/common/idempotency/idempotency.service.ts: replay protection for policy creation.
-- `execute` is split where it waits: `arrive` is what runs up to `await operation(context)`,
-- `mark_submitted` is the callback that the operation is given, and `settle` is what runs after the
-- operation. JavaScript runs each of these pieces whole, so a server is a sequence of such events, in
-- any order. The SHA-256 hash of the payload comes with the arrival. `Date.now()` is an argument.
mod Owners
pub mod Scope
pub mod Evict
pub mod Between
pub mod Retention
pub mod Exclusion
pub mod Replay
pub mod Handover
pub mod Recorded
use Prim.Native.String.{◌++◌}
use climate_chain.Shared.{
  ℕ, ◌+◌, ◌-◌, ◌*◌, ◌==◌, String, Bool, true, false, Option, none, some, List, [], ◌∷◌, ltb, str_eq,
  if◌then◌else◌,
}
use climate_chain.Shared.Dict.{Dict, get, set, delete}
use climate_chain.Js.{Value, undefined, str, http, ExceptionClass, Result, ok, throw}

-- Work already handed to an external system.
pub record SubmissionHandle : Type 0 where
  pub transaction_hash : String
  pub chain_id : Option String
  pub nonce : Option ℕ

pub data Entry {ℓ} (T : Type ℓ) : Type ℓ where
  in_flight : (request_hash : String) (started_at : ℕ) → Entry T
  submitted : (request_hash : String) (submitted_at : ℕ) (handle : SubmissionHandle) → Entry T
  completed : (request_hash : String) (completed_at : ℕ) (result : T) → Entry T

abbrev pub terminal_ttl_ms : ℕ
terminal_ttl_ms = 24 * 60 * 60 * 1000

unfoldable pub scoped_key : String → String → String
scoped_key actor key = actor ++ ":" ++ key

abbrev pub conflict_exception : String → Value
conflict_exception message = http ExceptionClass.conflict (str message) undefined

-- An invocation of `execute` that waits for its operation.
pub record Invocation : Type 0 where
  pub id : ℕ
  pub key : String
  pub scoped : String
  pub request_hash : String
  pub handed_over : Option SubmissionHandle

pub data Reply {ℓ} (T : Type ℓ) : Type ℓ where
  answered : Result T → Reply T
  started : ℕ → Reply T
  unkeyed : Reply T
  noted : Reply T

pub record Server {ℓ} (T : Type ℓ) : Type ℓ where
  pub entries : Dict (Entry T)
  pub running : List Invocation
  pub next_id : ℕ

pub data Event {ℓ} (T : Type ℓ) : Type ℓ where
  arrive : (now : ℕ) (actor : String) (key : Option String) (request_hash : String) → Event T
  mark : (now id : ℕ) → SubmissionHandle → Event T
  settle : (now id : ℕ) → Result T → Event T

-- The invocation of that number, and the others.
unfoldable pub take_out : ℕ → List Invocation → Option (Invocation × List Invocation)
take_out id [] = none
take_out id (i ∷ is) =
    let rest = take_out id is in
    if i.id == id
    then some (i, is)
    else elim rest [ none ↦ none | some (j, others) ↦ some (j, i ∷ others) ]

module _ {ℓ} {T : Type ℓ} where
  unfoldable pub is_expired : ℕ → Entry T → Bool
  is_expired now (completed request_hash completed_at result) =
      ltb terminal_ttl_ms (now - completed_at)
  is_expired now _ = false

  -- Only records whose outcome is known expire.
  unfoldable pub evict_expired : ℕ → Dict (Entry T) → Dict (Entry T)
  evict_expired now [] = []
  evict_expired now ((key, entry) ∷ entries) =
      let rest = evict_expired now entries in
      if is_expired now entry then rest else (key, entry) ∷ rest

  abbrev request_hash_of : Entry T → String
  request_hash_of (in_flight request_hash started_at) = request_hash
  request_hash_of (submitted request_hash submitted_at handle) = request_hash
  request_hash_of (completed request_hash completed_at result) = request_hash

  pub replay_same : Entry T → String → Result T
  replay_same (completed request_hash completed_at result) key = ok result
  replay_same (submitted request_hash submitted_at handle) key = throw (
      conflict_exception (
        "A transaction for Idempotency-Key \"" ++ key ++ "\" was already submitted (hash "
        ++ handle.transaction_hash
        ++ ") but its outcome is not confirmed. Check that transaction before retrying: "
        ++ "resubmitting would risk creating a second policy."))
  replay_same (in_flight request_hash started_at) key = throw (
      conflict_exception (
        "A request with Idempotency-Key \"" ++ key ++ "\" is still in progress. Retry "
        ++ "once it completes."))

  -- Answers a repeat from the existing record.
  pub replay : Entry T → String → String → Result T
  unfolding replay_same
  replay existing key request_hash =
      if str_eq (request_hash_of existing) request_hash
      then replay_same existing key
      else throw (
          conflict_exception (
            "Idempotency-Key \"" ++ key ++ "\" was already used with a different request body. "
            ++ "Use a new key for a different request."))

  pub start : ℕ → String → String → String → Dict (Entry T) → Server T → Server T × Reply T
  start now key scoped request_hash entries s = (
    record {
      entries = set scoped (in_flight request_hash now) entries;
      running =
          record {
            id = s.next_id;
            key = key;
            scoped = scoped;
            request_hash = request_hash;
            handed_over = none;
          }
          ∷ s.running;
      next_id = s.next_id + 1;
    },
    started s.next_id,
  )

  pub arrive_keyed : ℕ → String → String → String → Server T → Server T × Reply T
  arrive_keyed now actor key request_hash s =
      let scoped = scoped_key actor key in
      let entries = evict_expired now s.entries in
      elim (get scoped entries) [
        | some existing ↦
            (record s { entries = entries }, answered (replay existing key request_hash))
        | none ↦ start now key scoped request_hash entries s
      ]

  -- An absent or an empty key bypasses the store.
  unfoldable pub arrive_any : ℕ → String → Option String → String → Server T → Server T × Reply T
  unfolding arrive_keyed start
  arrive_any now actor none request_hash s = (s, unkeyed)
  arrive_any now actor (some key) request_hash s =
      if str_eq key "" then (s, unkeyed) else arrive_keyed now actor key request_hash s

  pub mark_submitted : ℕ → SubmissionHandle → Invocation → List Invocation → Server T → Server T
  mark_submitted now handle i others s = record s {
    entries = set i.scoped (submitted i.request_hash now handle) s.entries;
    running = record i { handed_over = some handle } ∷ others;
  }

  -- The `try` block's end, and the `catch` block before it throws again.
  pub settled_entries : ℕ → Result T → Invocation → Dict (Entry T) → Dict (Entry T)
  settled_entries now (ok result) i entries =
      set i.scoped (completed i.request_hash now result) entries
  settled_entries now (throw thrown) i entries = elim i.handed_over [
    | some handle ↦ entries
    | none ↦ delete i.scoped entries
  ]

  -- Events of an invocation that is not running do not happen, and change nothing here.
  unfoldable pub step : Server T → Event T → Server T × Reply T
  unfolding arrive_any mark_submitted settled_entries take_out
  step s (arrive now actor key request_hash) = arrive_any now actor key request_hash s
  step s (mark now id handle) = elim (take_out id s.running) [
    | none ↦ (s, noted)
    | some (i, others) ↦ (mark_submitted now handle i others s, noted)
  ]
  step s (settle now id result) = elim (take_out id s.running) [
    | none ↦ (s, noted)
    | some (i, others) ↦ (
      record s { entries = settled_entries now result i s.entries; running = others },
      answered result,
    )
  ]

  unfoldable pub run : Server T → List (Event T) → Server T
  run s [] = s
  run s (e ∷ es) = run (step s e).0 es
