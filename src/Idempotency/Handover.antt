-- ===== src/Idempotency/Handover.antt =====
-- An operation that handed its work over and then failed.
use climate_chain.Shared.{
  ℕ, ◌≡◌, refl, sym, inl, inr, true, some, List, [], ◌∷◌, arith, eq_refl, ◌==◌, Bool-cases,
  Option-cases,
}
use mathlib.Core.Path.{subst}
use climate_chain.Shared.Dict.{get-set}
use climate_chain.Js.{Value, throw}
use climate_chain.Idempotency.{
  SubmissionHandle, Invocation, Server, mark, settle, mark_submitted, settled_entries, take_out,
  noted, Reply, step, run,
}
use climate_chain.Idempotency.Owners.{take_out-Distinct}
use climate_chain.Idempotency.Exclusion.{IsExclusive}
use climate_chain.Idempotency.Retention.{IsUnresolved}

take_out-id :
    (id : ℕ) (is : List Invocation) (i : Invocation) (others : List Invocation)
    → take_out id is ≡ some (i, others)
    → i.id == id ≡ true
unfolding take_out
take_out-id id [] i others found = cc
take_out-id id (j ∷ is) i others found = elim (Bool-cases (j.id == id)) [
  | inl same ↦ ground arith
  | inr other ↦ elim (Option-cases (take_out id is)) [
    | inl missing ↦ cc (rw (other, missing) at found)
    | inr ((j', is'), later) ↦ ground (arith, take_out-id id is j' is' later)
  ]
]

-- A running invocation of an exclusive server that announces a submission and then fails leaves an
-- unresolved record: its key says `submitted` with that handle, and no invocation is left to change it.
pub failed_after_mark-IsUnresolved {ℓ} :
    {T : Type ℓ} (s : Server T) (now later id : ℕ) (handle : SubmissionHandle) (thrown : Value)
    (i : Invocation) (others : List Invocation)
    → IsExclusive s
    → take_out id s.running ≡ some (i, others)
    → IsUnresolved i.scoped i.request_hash now handle
        (run s (mark now id handle ∷ settle later id (throw thrown) ∷ []))
unfolding run step mark_submitted settled_entries
failed_after_mark-IsUnresolved {T = T} s now later id handle thrown i others x found =
    let same = take_out-id id s.running i others found in
    let (free, rest) = take_out-Distinct id s.running i others found x.distinct in
    let marked : step s (mark now id handle) ≡ (mark_submitted now handle i others s, noted) =
      rw (found, step) refl in
    let again : take_out id (record i { handed_over = some handle } ∷ others)
        ≡ some (record i { handed_over = some handle }, others) =
      rw (take_out, same) refl in
    let over : IsUnresolved i.scoped i.request_hash now handle
        (step (mark_submitted now handle i others s) (settle later id (throw thrown))).0 =
      rw (again, step) (record { kept = rw (get-set, eq_refl) refl; unowned = free }) in
    subst
      (λ (x : Server T × Reply T).
        IsUnresolved i.scoped i.request_hash now handle
          (step x.0 (settle later id (throw thrown))).0)
      (sym marked) over
