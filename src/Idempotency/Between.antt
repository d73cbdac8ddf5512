-- ===== src/Idempotency/Between.antt =====
-- What stays of one scoped key while other events happen.
use climate_chain.Shared.{
  ℕ, String, ◌≡◌, ◌∙◌, ◌≢◌, inl, inr, Option, List, [], ◌∷◌, arith, eq_iff, Option-cases, All,
}
use climate_chain.Shared.Dict.{Dict, get, get-set, get-delete}
use climate_chain.Js.{Result, ok, throw}
use climate_chain.Idempotency.{
  SubmissionHandle, Entry, completed, submitted, Invocation, Server, Event, arrive, mark, settle,
  settled_entries, arrive_any, mark_submitted, take_out, step, run,
}
use climate_chain.Idempotency.Owners.{Unowned, take_out-All}

module _ {ℓ} {T : Type ℓ} (k : String) where
  -- The end of another invocation leaves the record of the key.
  pub settled_entries_ne :
      (now : ℕ) (result : Result T) (i : Invocation) (m : Dict (Entry T))
      → i.scoped ≢ k
      → get k (settled_entries now result i m) ≡ get k m
  unfolding settled_entries
  settled_entries_ne now (ok a) i m ne =
      ground (arith, eq_iff i.scoped k, get-set i.scoped k (completed i.request_hash now a) m)
  settled_entries_ne now (throw e) i m ne =
      ground (arith, eq_iff i.scoped k, get-delete i.scoped k m)

  -- The key has this record, or none, and no running invocation has the key.
  pub record IsAt (o : Option (Entry T)) (s : Server T) : Type ℓ where
    pub kept : get k s.entries ≡ o
    pub unowned : Unowned k s.running

  -- An arrival has the property; any other event may happen.
  abbrev pub Arrivals : (ℕ → String → Option String → Type 0) → Event T → Type 0
  Arrivals P (arrive now actor key hash) = P now actor key
  Arrivals P e = Unit

  module _ (o : Option (Entry T)) (P : ℕ → String → Option String → Type 0)
      (arrive_any-IsAt : (now : ℕ) (actor : String) (key : Option String) (hash : String)
          (s : Server T)
        → P now actor key
        → IsAt o s
        → IsAt o (arrive_any now actor key hash s).0) where
    mark_submitted-IsAt :
        (now : ℕ) (h : SubmissionHandle) (i : Invocation) (others : List Invocation) (s : Server T)
        → i.scoped ≢ k
        → Unowned k others
        → IsAt o s
        → IsAt o (mark_submitted now h i others s)
    unfolding mark_submitted
    mark_submitted-IsAt now h i others s ne free u = ground (
      arith,
      eq_iff i.scoped k,
      u.kept,
      get-set i.scoped k (submitted i.request_hash now h) s.entries,
    )

    step-IsAt : (s : Server T) (e : Event T) → Arrivals P e → IsAt o s → IsAt o (step s e).0
    unfolding step
    step-IsAt s (arrive now actor key hash) p u = arrive_any-IsAt now actor key hash s p u
    step-IsAt s (mark now id h) p u = elim (Option-cases (take_out id s.running)) [
      | inl missing ↦ ground arith
      | inr ((i, others), found) ↦
          let (ne, free) = take_out-All (λ j. j.scoped ≢ k) id s.running i others found u.unowned in
          rw (found, step) (mark_submitted-IsAt now h i others s ne free u)
    ]
    step-IsAt s (settle now id result) p u = elim (Option-cases (take_out id s.running)) [
      | inl missing ↦ ground arith
      | inr ((i, others), found) ↦
          let (ne, free) = take_out-All (λ j. j.scoped ≢ k) id s.running i others found u.unowned in
          rw (found, step)
            (record {
              kept = settled_entries_ne now result i s.entries ne ∙ u.kept;
              unowned = free;
            })
    ]

    pub run-IsAt :
        (s : Server T) (es : List (Event T)) → All (Arrivals P) es → IsAt o s → IsAt o (run s es)
    unfolding run
    run-IsAt s [] ps u = u
    run-IsAt s (e ∷ es) ps u = run-IsAt (step s e).0 es ps.1 (step-IsAt s e ps.0 u)
