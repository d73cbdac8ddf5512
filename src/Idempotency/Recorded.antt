-- ===== src/Idempotency/Recorded.antt =====
-- The record of every running operation that handed its work over.
use climate_chain.Shared.{
  ℕ, String, ◌≡◌, refl, ◌≢◌, inl, inr, none, some, List, [], ◌∷◌, arith, eq_iff, eq_refl, str_eq,
  Bool-cases, Option-cases, All, All-map, All-zip,
}
use climate_chain.Shared.Dict.{Dict, get, set, delete, get-set, get-delete}
use climate_chain.Js.{Value, Result, ok, throw}
use climate_chain.Idempotency.{
  SubmissionHandle, Entry, in_flight, submitted, completed, Invocation, Server, Event, arrive, mark,
  settle, is_expired, evict_expired, scoped_key, start, arrive_any, arrive_keyed, mark_submitted,
  settled_entries, take_out, step, run,
}
use climate_chain.Idempotency.Evict.{get-evict_expired_kept}
use climate_chain.Idempotency.Owners.{Unowned, take_out-All, take_out-Distinct}
use climate_chain.Idempotency.Exclusion.{IsExclusive, IsExclusive-Unowned, step-IsExclusive}
use climate_chain.Idempotency.Retention.{IsUnresolved, IsRefusal, unresolved_never_restarts}

module _ {ℓ} {T : Type ℓ} where
  -- What the invocation handed over is on record under its key.
  abbrev pub Recorded : Dict (Entry T) → Invocation → Type ℓ
  Recorded m i =
      (handle : SubmissionHandle)
      → i.handed_over ≡ some handle
      → (at : ℕ) × (get i.scoped m ≡ some (submitted i.request_hash at handle))

  Recorded-set :
      (k : String) (e : Entry T) (m : Dict (Entry T)) (is : List Invocation)
      → All (Recorded m) is
      → Unowned k is
      → All (Recorded (set k e m)) is
  Recorded-set k e m is h free =
      All-map (λ i. Recorded m i × (i.scoped ≢ k)) (Recorded (set k e m))
        (λ i p handle handed.
          let (at, there) = p.0 handle handed in
          (at, rw get-set (ground (arith, eq_iff k i.scoped, p.1, there))))
        is (All-zip (Recorded m) (λ i. i.scoped ≢ k) is h free)

  Recorded-delete :
      (k : String) (m : Dict (Entry T)) (is : List Invocation)
      → All (Recorded m) is
      → Unowned k is
      → All (Recorded (delete k m)) is
  Recorded-delete k m is h free =
      All-map (λ i. Recorded m i × (i.scoped ≢ k)) (Recorded (delete k m))
        (λ i p handle handed.
          let (at, there) = p.0 handle handed in
          (at, rw get-delete (ground (arith, eq_iff k i.scoped, p.1, there))))
        is (All-zip (Recorded m) (λ i. i.scoped ≢ k) is h free)

  Recorded-evict :
      (now : ℕ) (m : Dict (Entry T)) (is : List Invocation)
      → All (Recorded m) is
      → All (Recorded (evict_expired now m)) is
  unfolding is_expired
  Recorded-evict now m is h =
      All-map (Recorded m) (Recorded (evict_expired now m))
        (λ i p handle handed.
          let (at, there) = p handle handed in
          (
            at,
            get-evict_expired_kept now i.scoped m (submitted i.request_hash at handle) there refl,
          ))
        is h

  abbrev pub IsRecorded : Server T → Type ℓ
  IsRecorded s = All (Recorded s.entries) s.running

  arrive_keyed-IsRecorded :
      (now : ℕ) (actor key hash : String) (s : Server T)
      → IsExclusive s
      → IsRecorded s
      → IsRecorded (arrive_keyed now actor key hash s).0
  unfolding arrive_keyed start
  arrive_keyed-IsRecorded now actor key hash s x r =
      let kept = Recorded-evict now s.entries s.running r in
      elim (Option-cases (get (scoped_key actor key) (evict_expired now s.entries))) [
        | inl absent ↦
            let free = IsExclusive-Unowned now (scoped_key actor key) s x absent in
            rw (absent, arrive_keyed)
              (
                (λ handle handed. let wrong : none ≡ some handle = handed in cc),
                Recorded-set (scoped_key actor key) (in_flight hash now)
                    (evict_expired now s.entries) s.running kept free,
              )
        | inr (e, found) ↦ rw (found, arrive_keyed) kept
      ]

  settled_entries-Recorded :
      (now : ℕ) (result : Result T) (i : Invocation) (others : List Invocation) (m : Dict (Entry T))
      → All (Recorded m) others
      → Unowned i.scoped others
      → All (Recorded (settled_entries now result i m)) others
  unfolding settled_entries
  settled_entries-Recorded now (ok a) i others m o free =
      Recorded-set i.scoped (completed i.request_hash now a) m others o free
  settled_entries-Recorded now (throw e) i others m o free = elim (Option-cases i.handed_over) [
    | inl clean ↦ rw clean (Recorded-delete i.scoped m others o free)
    | inr (h, handed) ↦ rw handed o
  ]

  step-IsRecorded :
      (s : Server T) (e : Event T) → IsExclusive s → IsRecorded s → IsRecorded (step s e).0
  unfolding step arrive_any mark_submitted
  step-IsRecorded s (arrive now actor none hash) x r = r
  step-IsRecorded s (arrive now actor (some key) hash) x r = elim (Bool-cases (str_eq key "")) [
    | inl empty ↦ rw (empty, step) r
    | inr nonempty ↦ rw (nonempty, step) (arrive_keyed-IsRecorded now actor key hash s x r)
  ]
  step-IsRecorded s (mark now id h) x r = elim (Option-cases (take_out id s.running)) [
    | inl missing ↦ rw (missing, step) r
    | inr ((i, others), found) ↦
        let (own, rest) = take_out-All (Recorded s.entries) id s.running i others found r in
        let (free, apart) = take_out-Distinct id s.running i others found x.distinct in
        rw (found, step)
          (
            (λ handle handed.
                let same : h ≡ handle = cc in (now, rw (get-set, eq_refl, same) refl)),
            Recorded-set i.scoped (submitted i.request_hash now h) s.entries others rest free,
          )
  ]
  step-IsRecorded s (settle now id result) x r = elim (Option-cases (take_out id s.running)) [
    | inl missing ↦ rw (missing, step) r
    | inr ((i, others), found) ↦
        let (own, rest) = take_out-All (Recorded s.entries) id s.running i others found r in
        let (free, apart) = take_out-Distinct id s.running i others found x.distinct in
        rw (found, step) (settled_entries-Recorded now result i others s.entries rest free)
  ]

  run-IsRecorded :
      (s : Server T) (es : List (Event T))
      → IsExclusive s
      → IsRecorded s
      → IsExclusive (run s es) × IsRecorded (run s es)
  unfolding run
  run-IsRecorded s [] x r = (x, r)
  run-IsRecorded s (e ∷ es) x r =
      run-IsRecorded (step s e).0 es (step-IsExclusive s e x) (step-IsRecorded s e x r)

  failed-IsUnresolved :
      (s : Server T) (now id : ℕ) (thrown : Value) (i : Invocation) (others : List Invocation)
      (handle : SubmissionHandle)
      → IsExclusive s
      → IsRecorded s
      → take_out id s.running ≡ some (i, others)
      → i.handed_over ≡ some handle
      → (at : ℕ) × IsUnresolved i.scoped i.request_hash at handle
          (step s (settle now id (throw thrown))).0
  unfolding step settled_entries
  failed-IsUnresolved s now id thrown i others handle x r found handed =
      let (own, rest) = take_out-All (Recorded s.entries) id s.running i others found r in
      let (free, apart) = take_out-Distinct id s.running i others found x.distinct in
      let (at, there) = own handle handed in
      (at, rw (found, step, settled_entries, handed) (record { kept = there; unowned = free }))

  -- From an exclusive server whose running operations have what they handed over on record, such as one
  -- that has just started, and whatever events come before and after, in any interleaving of operations:
  -- when an operation that handed its work over fails, every later arrival with its actor and key is refused
  -- with a 409 and starts nothing.
  pub handed_over_never_restarts :
      (s : Server T) (before after : List (Event T)) (now id : ℕ) (thrown : Value) (i : Invocation)
      (others : List Invocation) (handle : SubmissionHandle) (at : ℕ) (actor key hash : String)
      → IsExclusive s
      → IsRecorded s
      → take_out id (run s before).running ≡ some (i, others)
      → i.handed_over ≡ some handle
      → scoped_key actor key ≡ i.scoped
      → key ≢ ""
      → IsRefusal
          (step
            (run (step (run s before) (settle now id (throw thrown))).0 after)
            (arrive at actor (some key) hash)).1
  handed_over_never_restarts s before after now id thrown i others handle at actor key hash x r
        found handed scoped keyed =
      let (x', r') = run-IsRecorded s before x r in
      let (marked_at, unresolved) =
        failed-IsUnresolved (run s before) now id thrown i others handle x' r' found handed in
      unresolved_never_restarts i.scoped i.request_hash marked_at handle
        (step (run s before) (settle now id (throw thrown))).0 after at actor key hash unresolved
        scoped keyed
