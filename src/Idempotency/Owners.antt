-- ===== src/Idempotency/Owners.antt =====
-- The invocations that hold a scoped key, and taking one of them out.
use climate_chain.Shared.{
  ℕ, String, ◌≡◌, sym, ◌≢◌, inl, inr, Option, none, some, List, [], ◌∷◌, arith, ◌==◌, Bool-cases,
  Option-cases, All,
}
use mathlib.Core.Path.{subst}
use climate_chain.Idempotency.{Invocation, take_out}

-- No running invocation holds the scoped key `k`.
abbrev pub Unowned : String → List Invocation → Type 0
Unowned k is = All (λ i. i.scoped ≢ k) is

pub take_out-All {κ} :
    (P : Invocation → Type κ) (id : ℕ) (is : List Invocation) (i : Invocation)
    (others : List Invocation)
    → take_out id is ≡ some (i, others)
    → All P is
    → P i × All P others
unfolding take_out
take_out-All P id [] i others h a = cc
take_out-All P id (j ∷ is) i others h a = elim (Bool-cases (j.id == id)) [
  | inl same ↦ ground (arith, a)
  | inr other ↦ elim (Option-cases (take_out id is)) [
    | inl missing ↦ cc (rw (other, missing) at h)
    | inr ((j', is'), found) ↦ ground (arith, take_out-All P id is j' is' found a.1)
  ]
]

-- The scoped keys of the running invocations differ pairwise.
abbrev pub Distinct : List Invocation → Type 0
Distinct [] = Unit
Distinct (i ∷ is) = Unowned i.scoped is × Distinct is

-- The same of what `take_out` gives.
abbrev DistinctOut : Option (Invocation × List Invocation) → Type 0
DistinctOut none = Unit
DistinctOut (some (i, is)) = Distinct (i ∷ is)

pub take_out-Distinct :
    (id : ℕ) (is : List Invocation) (i : Invocation) (others : List Invocation)
    → take_out id is ≡ some (i, others)
    → Distinct is
    → Distinct (i ∷ others)
unfolding take_out
take_out-Distinct id [] i others h d = cc
take_out-Distinct id (j ∷ is) i others h d = elim (Bool-cases (j.id == id)) [
  | inl same ↦ ground (arith, d)
  | inr other ↦ elim (Option-cases (take_out id is)) [
    | inl missing ↦ cc (rw (other, missing) at h)
    | inr ((j', is'), found) ↦
        let (ne, free) = take_out-All (λ x. x.scoped ≢ j.scoped) id is j' is' found d.0 in
        let (apart, rest) = take_out-Distinct id is j' is' found d.1 in
        subst DistinctOut (rw (other, found, take_out) at h)
          ((λ p. ne (sym p), apart), (free, rest))
  ]
]
