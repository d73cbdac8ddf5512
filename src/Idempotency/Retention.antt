-- ===== src/Idempotency/Retention.antt =====
-- A submission whose outcome is unknown is never repeated.
use climate_chain.Shared.{
  ℕ, String, ◌≡◌, refl, ◌∙◌, ◌≢◌, inl, inr, Option, none, some, List, [], ◌∷◌, arith, eq_iff,
  Option-cases,
}
use climate_chain.Shared.Dict.{get, get-set}
use climate_chain.Js.{http, ExceptionClass, throw}
use climate_chain.Idempotency.{
  SubmissionHandle, Entry, submitted, Invocation, Server, Event, arrive, mark, settle, Reply,
  answered, evict_expired, replay, is_expired, scoped_key, arrive_any, arrive_keyed, mark_submitted,
  take_out, step, run,
}
use climate_chain.Idempotency.Between.{settled_entries_ne}
use climate_chain.Idempotency.Evict.{get-evict_expired_kept}
use climate_chain.Idempotency.Owners.{Unowned, take_out-All}

-- A 409, and no operation starts.
abbrev pub IsRefusal {ℓ} : {T : Type ℓ} → Reply T → Type 0
IsRefusal (answered (throw (http ExceptionClass.conflict response cause))) = Unit
IsRefusal reply = ⊥

module _ {ℓ} {T : Type ℓ} (k request_hash : String) (at : ℕ) (handle : SubmissionHandle) where
  -- The record says that the transaction was handed over, and no invocation is left to complete it.
  pub record IsUnresolved (s : Server T) : Type ℓ where
    pub kept : get k s.entries ≡ some (submitted request_hash at handle)
    pub unowned : Unowned k s.running

  arrive_any-IsUnresolved :
      (now : ℕ) (actor : String) (key : Option String) (hash : String) (s : Server T)
      → IsUnresolved s
      → IsUnresolved (arrive_any now actor key hash s).0
  unfolding arrive_any arrive_keyed is_expired
  arrive_any-IsUnresolved now actor none hash s u = u
  arrive_any-IsUnresolved now actor (some key) hash s u = ground (
    arith,
    eq_iff (scoped_key actor key) k,
    u.kept,
    u.unowned,
    get-evict_expired_kept now k s.entries (submitted request_hash at handle) u.kept,
    get-set (scoped_key actor key) k (Entry.in_flight hash now) (evict_expired now s.entries),
  )

  mark_submitted-IsUnresolved :
      (now : ℕ) (h : SubmissionHandle) (i : Invocation) (others : List Invocation) (s : Server T)
      → i.scoped ≢ k
      → Unowned k others
      → IsUnresolved s
      → IsUnresolved (mark_submitted now h i others s)
  unfolding mark_submitted
  mark_submitted-IsUnresolved now h i others s ne free u = ground (
    arith,
    eq_iff i.scoped k,
    u.kept,
    get-set i.scoped k (submitted i.request_hash now h) s.entries,
  )

  step-IsUnresolved : (s : Server T) (e : Event T) → IsUnresolved s → IsUnresolved (step s e).0
  unfolding step
  step-IsUnresolved s (arrive now actor key hash) u = arrive_any-IsUnresolved now actor key hash s u
  step-IsUnresolved s (mark now id h) u = elim (Option-cases (take_out id s.running)) [
    | inl missing ↦ ground arith
    | inr ((i, others), found) ↦
        let (ne, free) = take_out-All (λ j. j.scoped ≢ k) id s.running i others found u.unowned in
        rw (found, step) (mark_submitted-IsUnresolved now h i others s ne free u)
  ]
  step-IsUnresolved s (settle now id result) u = elim (Option-cases (take_out id s.running)) [
    | inl missing ↦ ground arith
    | inr ((i, others), found) ↦
        let (ne, free) = take_out-All (λ j. j.scoped ≢ k) id s.running i others found u.unowned in
        rw (found, step)
          (record {
            kept = settled_entries_ne k now result i s.entries ne ∙ u.kept;
            unowned = free;
          })
  ]

  run-IsUnresolved : (s : Server T) (es : List (Event T)) → IsUnresolved s → IsUnresolved (run s es)
  unfolding run
  run-IsUnresolved s [] u = u
  run-IsUnresolved s (e ∷ es) u = run-IsUnresolved (step s e).0 es (step-IsUnresolved s e u)

  arrive_keyed-IsRefusal :
      (now : ℕ) (actor key hash : String) (s : Server T)
      → IsUnresolved s
      → scoped_key actor key ≡ k
      → IsRefusal (arrive_keyed now actor key hash s).1
  unfolding arrive_keyed replay is_expired
  arrive_keyed-IsRefusal now actor key hash s u e =
      let found : get (scoped_key actor key) (evict_expired now s.entries)
          ≡ some (submitted request_hash at handle) =
        rw e
          (get-evict_expired_kept now k s.entries (submitted request_hash at handle) u.kept refl) in
      rw (found, arrive_keyed) (ground arith)

  -- Once a transaction was handed over and its invocation ended without a result, every later arrival
  -- with the same actor and (non-empty) key is refused with a 409, whatever its body, whatever happened
  -- in between and however late it comes: no second operation starts.
  pub unresolved_never_restarts :
      (s : Server T) (es : List (Event T)) (now : ℕ) (actor key hash : String)
      → IsUnresolved s
      → scoped_key actor key ≡ k
      → key ≢ ""
      → IsRefusal (step (run s es) (arrive now actor (some key) hash)).1
  unfolding step arrive_any
  unresolved_never_restarts s es now actor key hash u e keyed = ground (
    arith,
    eq_iff key "",
    arrive_keyed-IsRefusal now actor key hash (run s es) (run-IsUnresolved s es u) e,
  )
