-- ===== src/Idempotency/Replay.antt =====
-- Answers from a completed record, and the release of a key after a clean failure.
use climate_chain.Shared.{
  ℕ, ◌+◌, ◌≤◌, String, ◌≡◌, sym, ◌∙◌, ◌≢◌, ◌⊎◌, Option, none, some, List, All, arith, eq_iff,
  eq_refl,
}
use climate_chain.Shared.Dict.{Dict, get, get-set, get-delete}
use climate_chain.Js.{Value, Result, ok, throw}
use climate_chain.Idempotency.{
  Entry, completed, Invocation, Server, arrive, settle, answered, started, evict_expired,
  is_expired, terminal_ttl_ms, replay, scoped_key, settled_entries, start, arrive_any, arrive_keyed,
  take_out, step, run, Event,
}
use climate_chain.Idempotency.Between.{IsAt, Arrivals, run-IsAt}
use climate_chain.Idempotency.Exclusion.{IsExclusive}
use climate_chain.Idempotency.Owners.{take_out-Distinct}
use climate_chain.Idempotency.Evict.{get-evict_expired_kept, get-evict_expired-none}

-- Not later than the time.
abbrev pub Until : ℕ → ℕ → String → Option String → Type 0
Until limit now actor key = now ≤ limit

-- Another actor or key, or an arrival that has no key.
abbrev pub Apart : String → ℕ → String → Option String → Type 0
Apart k now actor none = Unit
Apart k now actor (some key) = (key ≡ "") ⊎ (scoped_key actor key ≢ k)

module _ {ℓ} {T : Type ℓ} where
  -- What the settling of an invocation leaves at its key.
  get-settled_ok :
      (now : ℕ) (a : T) (i : Invocation) (m : Dict (Entry T))
      → get i.scoped (settled_entries now (ok a) i m) ≡ some (completed i.request_hash now a)
  unfolding settled_entries
  get-settled_ok now a i m = rw (get-set, eq_refl)

  get-settled_clean_failure :
      (now : ℕ) (thrown : Value) (i : Invocation) (m : Dict (Entry T))
      → i.handed_over ≡ none
      → get i.scoped (settled_entries now (throw thrown) i m) ≡ none
  unfolding settled_entries
  get-settled_clean_failure now thrown i m clean = rw clean (rw (get-delete, eq_refl))

  live_replays :
      (now at : ℕ) (k actor key hash : String) (a : T) (s : Server T)
      → get k s.entries ≡ some (completed hash at a)
      → now ≤ at + terminal_ttl_ms
      → scoped_key actor key ≡ k
      → (arrive_keyed now actor key hash s).1 ≡ answered (ok a)
  unfolding arrive_keyed is_expired replay
  live_replays now at k actor key hash a s kept early e =
      let found : get (scoped_key actor key) (evict_expired now s.entries)
          ≡ some (completed hash at a) =
        rw e (get-evict_expired_kept now k s.entries (completed hash at a) kept (ground arith)) in
      rw (found, arrive_keyed, eq_refl)

  fresh_starts :
      (now : ℕ) (k actor key hash : String) (s : Server T)
      → get k s.entries ≡ none
      → scoped_key actor key ≡ k
      → (arrive_keyed now actor key hash s).1 ≡ started s.next_id
  unfolding arrive_keyed start
  fresh_starts now k actor key hash s absent e =
      let gone : get (scoped_key actor key) (evict_expired now s.entries) ≡ none =
        rw e (get-evict_expired-none now k s.entries absent) in
      rw (gone, arrive_keyed)

  step-arrive :
      (now : ℕ) (actor key hash : String) (s : Server T)
      → key ≢ ""
      → (step s (arrive now actor (some key) hash)).1 ≡ (arrive_keyed now actor key hash s).1
  unfolding step arrive_any
  step-arrive now actor key hash s keyed = ground (arith, eq_iff key "")

  step-settle :
      (now id : ℕ) (result : Result T) (i : Invocation) (others : List Invocation) (s : Server T)
      → take_out id s.running ≡ some (i, others)
      → (step s (settle now id result)).0
        ≡ record s { entries = settled_entries now result i s.entries; running = others }
  unfolding step
  step-settle now id result i others s found = rw (found, step)

  step-settle-IsAt :
      (now id : ℕ) (result : Result T) (i : Invocation) (others : List Invocation) (s : Server T)
      (o : Option (Entry T))
      → IsExclusive s
      → take_out id s.running ≡ some (i, others)
      → get i.scoped (settled_entries now result i s.entries) ≡ o
      → IsAt i.scoped o (step s (settle now id result)).0
  step-settle-IsAt now id result i others s o x found left =
      let (free, apart) = take_out-Distinct id s.running i others found x.distinct in
      rw (step-settle now id result i others s found) (record { kept = left; unowned = free })

  completed-IsAt :
      (k body : String) (at : ℕ) (a : T) (now : ℕ) (actor : String) (key : Option String)
      (hash : String) (s : Server T)
      → Until (at + terminal_ttl_ms) now actor key
      → IsAt k (some (completed body at a)) s
      → IsAt k (some (completed body at a)) (arrive_any now actor key hash s).0
  unfolding arrive_any arrive_keyed is_expired
  completed-IsAt k body at a now actor none hash s early u = u
  completed-IsAt k body at a now actor (some key) hash s early u = ground (
    arith,
    eq_iff (scoped_key actor key) k,
    u.kept,
    u.unowned,
    get-evict_expired_kept now k s.entries (completed body at a) u.kept (ground arith),
    get-set (scoped_key actor key) k (Entry.in_flight hash now) (evict_expired now s.entries),
  )

  absent-IsAt :
      (k : String) (now : ℕ) (actor : String) (key : Option String) (hash : String) (s : Server T)
      → Apart k now actor key
      → IsAt k none s
      → IsAt k none (arrive_any now actor key hash s).0
  unfolding arrive_any arrive_keyed
  absent-IsAt k now actor none hash s apart u = u
  absent-IsAt k now actor (some key) hash s apart u = ground (
    arith,
    eq_iff key "",
    eq_iff (scoped_key actor key) k,
    u.kept,
    u.unowned,
    apart,
    get-evict_expired-none now k s.entries u.kept,
    get-set (scoped_key actor key) k (Entry.in_flight hash now) (evict_expired now s.entries),
  )

  -- On an exclusive server: when an operation returns `a`, a repeat of its actor, key and body within the
  -- retention period is answered with `a` and starts nothing, whatever events come in between, as long as
  -- no arrival among them is later than the retention period.
  pub settle-replays :
      (s : Server T) (now later id : ℕ) (i : Invocation) (others : List Invocation) (a : T)
      (actor : String) (es : List (Event T))
      → IsExclusive s
      → take_out id s.running ≡ some (i, others)
      → i.scoped ≡ scoped_key actor i.key
      → i.key ≢ ""
      → later ≤ now + terminal_ttl_ms
      → All (Arrivals i.scoped (Until (now + terminal_ttl_ms))) es
      → let s' = run (step s (settle now id (ok a))).0 es in
        (step s' (arrive later actor (some i.key) i.request_hash)).1 ≡ answered (ok a)
  settle-replays s now later id i others a actor es x found scope keyed early calm =
      let s' = run (step s (settle now id (ok a))).0 es in
      let left =
        run-IsAt i.scoped (some (completed i.request_hash now a)) (Until (now + terminal_ttl_ms))
          (completed-IsAt i.scoped i.request_hash now a) (step s (settle now id (ok a))).0 es calm
          (step-settle-IsAt now id (ok a) i others s _ x found
            (get-settled_ok now a i s.entries)) in
      step-arrive later actor i.key i.request_hash s' keyed
      ∙ live_replays later now i.scoped actor i.key i.request_hash a s' left.kept early (sym scope)

  -- On an exclusive server: when an operation fails before it handed anything over, its key is free again:
  -- the next arrival with that actor and key starts a new operation, whatever its body, and whatever
  -- events other than such arrivals come in between.
  pub settle-releases :
      (s : Server T) (now later id : ℕ) (i : Invocation) (others : List Invocation) (thrown : Value)
      (actor hash : String) (es : List (Event T))
      → IsExclusive s
      → take_out id s.running ≡ some (i, others)
      → i.scoped ≡ scoped_key actor i.key
      → i.key ≢ ""
      → i.handed_over ≡ none
      → All (Arrivals i.scoped (Apart i.scoped)) es
      → let s' = run (step s (settle now id (throw thrown))).0 es in
        (step s' (arrive later actor (some i.key) hash)).1 ≡ started s'.next_id
  settle-releases s now later id i others thrown actor hash es x found scope keyed clean calm =
      let s' = run (step s (settle now id (throw thrown))).0 es in
      let left =
        run-IsAt i.scoped none (Apart i.scoped) (absent-IsAt i.scoped)
          (step s (settle now id (throw thrown))).0 es calm
          (step-settle-IsAt now id (throw thrown) i others s none x found
            (get-settled_clean_failure now thrown i s.entries clean)) in
      step-arrive later actor i.key hash s' keyed
      ∙ fresh_starts later i.scoped actor i.key hash s' left.kept (sym scope)
