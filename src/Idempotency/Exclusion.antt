-- ===== src/Idempotency/Exclusion.antt =====
-- Mutual exclusion: two operations with the same actor and key never run at once.
use climate_chain.Shared.{
  ℕ, String, ◌≡◌, refl, ◌≢◌, inl, inr, false, Option, none, some, List, [], ◌∷◌, arith, eq_iff,
  eq_refl, Option-cases, All, All-map, All-zip,
}
use climate_chain.Shared.Dict.{Dict, get, set, delete, get-set, get-delete}
use climate_chain.Js.{Result, ok, throw}
use climate_chain.Idempotency.{
  SubmissionHandle, Entry, in_flight, submitted, completed, Invocation, Server, Event, arrive, mark,
  settle, evict_expired, is_expired, scoped_key, settled_entries, start, arrive_keyed,
  mark_submitted, take_out, step, run,
}
use climate_chain.Idempotency.Evict.{get-evict_expired_kept}
use climate_chain.Idempotency.Owners.{Unowned, take_out-All, Distinct, take_out-Distinct}

module _ {ℓ} {T : Type ℓ} where
  abbrev IsPending : Option (Entry T) → Type 0
  IsPending (some (in_flight hash at)) = Unit
  IsPending (some (submitted hash at handle)) = Unit
  IsPending entry = ⊥

  -- Each running invocation has a record that is not completed, and no two share a scoped key.
  pub record IsExclusive (s : Server T) : Type 0 where
    pub owned : All (λ i. IsPending (get i.scoped s.entries)) s.running
    pub distinct : Distinct s.running

  IsPending-evict :
      (now : ℕ) (k : String) (m : Dict (Entry T))
      → IsPending (get k m)
      → IsPending (get k (evict_expired now m))
  unfolding is_expired
  IsPending-evict now k m h = elim (Option-cases (get k m)) [
    | inl absent ↦ absurd (rw absent at h)
    | inr (e, found) ↦
        rw (get-evict_expired_kept now k m e found (live e (rw found at h))) (rw found at h)
  ]
    where
      live : (e : Entry T) → IsPending (some e) → is_expired now e ≡ false
      live (in_flight hash at) p = refl
      live (submitted hash at handle) p = refl
      live (completed hash at a) p = absurd p

  IsPending-set :
      (k j : String) (e : Entry T) (m : Dict (Entry T))
      → IsPending (get j m)
      → j ≢ k
      → IsPending (get j (set k e m))
  IsPending-set k j e m h ne = rw get-set (ground (arith, eq_iff k j))

  IsPending-delete :
      (k j : String) (m : Dict (Entry T))
      → IsPending (get j m)
      → j ≢ k
      → IsPending (get j (delete k m))
  IsPending-delete k j m h ne = rw get-delete (ground (arith, eq_iff k j))

  get-set_self : (k : String) (e : Entry T) (m : Dict (Entry T)) → get k (set k e m) ≡ some e
  get-set_self k e m = rw (get-set, eq_refl)

  abbrev Owned : Dict (Entry T) → Invocation → Type 0
  Owned m i = IsPending (get i.scoped m)

  -- Entries change at one key only, and no listed invocation holds that key.
  Owned-set :
      (k : String) (e : Entry T) (m : Dict (Entry T)) (is : List Invocation)
      → All (Owned m) is
      → Unowned k is
      → All (Owned (set k e m)) is
  Owned-set k e m is h free =
      All-map (λ i. Owned m i × (i.scoped ≢ k)) (Owned (set k e m))
        (λ i p. IsPending-set k i.scoped e m p.0 p.1) is
        (All-zip (Owned m) (λ i. i.scoped ≢ k) is h free)

  Owned-delete :
      (k : String) (m : Dict (Entry T)) (is : List Invocation)
      → All (Owned m) is
      → Unowned k is
      → All (Owned (delete k m)) is
  Owned-delete k m is h free =
      All-map (λ i. Owned m i × (i.scoped ≢ k)) (Owned (delete k m))
        (λ i p. IsPending-delete k i.scoped m p.0 p.1) is
        (All-zip (Owned m) (λ i. i.scoped ≢ k) is h free)

  Unowned-of_absent :
      (k : String) (m : Dict (Entry T)) (is : List Invocation)
      → All (Owned m) is
      → get k m ≡ none
      → Unowned k is
  Unowned-of_absent k m is h absent =
      All-map (Owned m) (λ i. i.scoped ≢ k) (λ i p e. rw (e, absent) at p) is h

  -- No invocation runs under a key that has no record after the eviction.
  pub IsExclusive-Unowned :
      (now : ℕ) (k : String) (s : Server T)
      → IsExclusive s
      → get k (evict_expired now s.entries) ≡ none
      → Unowned k s.running
  IsExclusive-Unowned now k s x absent =
      Unowned-of_absent k (evict_expired now s.entries) s.running
        (All-map (Owned s.entries) (Owned (evict_expired now s.entries))
          (λ i. IsPending-evict now i.scoped s.entries) s.running x.owned)
        absent

  arrive_keyed-IsExclusive :
      (now : ℕ) (actor key hash : String) (s : Server T)
      → IsExclusive s
      → IsExclusive (arrive_keyed now actor key hash s).0
  unfolding arrive_keyed start
  arrive_keyed-IsExclusive now actor key hash s x =
      let m : Dict (Entry T) = evict_expired now s.entries in
      let kept : All (Owned m) s.running =
        All-map (Owned s.entries) (Owned m) (λ i. IsPending-evict now i.scoped s.entries) s.running
          x.owned in
      elim (Option-cases (get (scoped_key actor key) m)) [
        | inl absent ↦
            let free = Unowned-of_absent (scoped_key actor key) m s.running kept absent in
            rw (absent, arrive_keyed)
              (record {
                owned = (
                  rw get-set_self tt,
                  Owned-set (scoped_key actor key) (in_flight hash now) m s.running kept free,
                );
                distinct = (free, x.distinct);
              })
        | inr (e, found) ↦ rw (found, arrive_keyed) (record { owned = kept; distinct = x.distinct })
      ]

  mark_submitted-IsExclusive :
      (now : ℕ) (h : SubmissionHandle) (i : Invocation) (others : List Invocation) (s : Server T)
      → All (Owned s.entries) others
      → Distinct (i ∷ others)
      → IsExclusive (mark_submitted now h i others s)
  unfolding mark_submitted
  mark_submitted-IsExclusive now h i others s o d = record {
    owned = (
      rw get-set_self tt,
      Owned-set i.scoped (submitted i.request_hash now h) s.entries others o d.0,
    );
    distinct = d;
  }

  settled_entries-Owned :
      (now : ℕ) (result : Result T) (i : Invocation) (others : List Invocation) (m : Dict (Entry T))
      → All (Owned m) others
      → Unowned i.scoped others
      → All (Owned (settled_entries now result i m)) others
  unfolding settled_entries
  settled_entries-Owned now (ok a) i others m o free =
      Owned-set i.scoped (completed i.request_hash now a) m others o free
  settled_entries-Owned now (throw e) i others m o free = elim (Option-cases i.handed_over) [
    | inl clean ↦ rw clean (Owned-delete i.scoped m others o free)
    | inr (h, handed) ↦ rw handed o
  ]

  pub step-IsExclusive : (s : Server T) (e : Event T) → IsExclusive s → IsExclusive (step s e).0
  unfolding step
  step-IsExclusive s (arrive now actor none hash) x = x
  step-IsExclusive s (arrive now actor (some key) hash) x =
      ground (arith, x, arrive_keyed-IsExclusive now actor key hash s x)
  step-IsExclusive s (mark now id h) x = elim (Option-cases (take_out id s.running)) [
    | inl missing ↦ rw (missing, step) x
    | inr ((i, others), found) ↦
        rw (found, step)
          (mark_submitted-IsExclusive now h i others s
            (take_out-All (Owned s.entries) id s.running i others found x.owned).1
            (take_out-Distinct id s.running i others found x.distinct))
  ]
  step-IsExclusive s (settle now id result) x = elim (Option-cases (take_out id s.running)) [
    | inl missing ↦ rw (missing, step) x
    | inr ((i, others), found) ↦
        let o = (take_out-All (Owned s.entries) id s.running i others found x.owned).1 in
        let d = take_out-Distinct id s.running i others found x.distinct in
        rw (found, step)
          (record {
            owned = settled_entries-Owned now result i others s.entries o d.0;
            distinct = d.1;
          })
  ]

  -- From a server whose running operations have different scoped keys and a pending record each, such
  -- as one that has just started, every sequence of events leads to such a server again: two operations
  -- for one actor and key never run at the same time.
  pub run-IsExclusive :
      (s : Server T) (es : List (Event T)) → IsExclusive s → IsExclusive (run s es)
  unfolding run
  run-IsExclusive s [] x = x
  run-IsExclusive s (e ∷ es) x = run-IsExclusive (step s e).0 es (step-IsExclusive s e x)
