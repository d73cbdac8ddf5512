-- ===== src/Bootstrap/Verify/Steps.antt =====
-- What each check of the verification reads.
use climate_chain.Shared.{
  ℕ, ◌==◌, String, ◌≡◌, refl, sym, ap, ◌∙◌, inl, inr, List, [], ◌∷◌, ◌++◌, arith, str_eq, eq_iff,
  Bool-cases, All,
}
use climate_chain.Shared.Text.{to_lower}
use climate_chain.Js.{Value, Result, ok, throw, bind_ok, ok_inj, throw-ne-ok}
use climate_chain.Registry.Load.{Registry}
use climate_chain.Registry.Accessors.{get_chain_id}
use climate_chain.Bootstrap.{
  Node, mirrored_constants, collect_mismatches, report_mismatches, assert_constants_match,
  assert_legacy_region_code_matches, get_provider_reader,
}
use climate_chain.Bootstrap.Verify.{check_chain, all_three}

-- The node reads the mirrored constant as the backend has it.
abbrev pub IsMirrored : Node → String × ℕ → Type 0
IsMirrored node (name, expected) = node.constant name ≡ ok expected

append-ne-nil : {A : Type 0} (xs : List A) (x : A) → xs ++ x ∷ [] ≡ [] → ⊥
append-ne-nil [] x h = cc
append-ne-nil (y ∷ xs) x h = cc

collect_mismatches_nil :
    (node : Node) (constants : List (String × ℕ)) (mismatches : List String)
    → collect_mismatches node constants mismatches ≡ ok []
    → (mismatches ≡ []) × All (IsMirrored node) constants
unfolding collect_mismatches
collect_mismatches_nil node [] mismatches done = (ok_inj done, tt)
collect_mismatches_nil node ((name, expected) ∷ constants) mismatches done =
    let (value, read, more) = bind_ok (node.constant name) _ [] done in
    let (nothing, all) = collect_mismatches_nil node constants _ more in
    elim (Bool-cases (value == expected)) [
      | inl same ↦ (rw (same) at nothing, (read ∙ ap ok (ground arith), all))
      | inr other ↦ elim (append-ne-nil mismatches _ (rw (other) at nothing)) [ ]
    ]

report_mismatches_ok :
    (mismatches : List String) → report_mismatches mismatches ≡ ok tt → mismatches ≡ []
unfolding report_mismatches
report_mismatches_ok [] done = refl
report_mismatches_ok (m ∷ ms) done = elim (throw-ne-ok done) [ ]

pub constants_match :
    (registry : Registry) (node : Node)
    → assert_constants_match registry node ≡ ok tt
    → All (IsMirrored node) mirrored_constants
unfolding assert_constants_match
constants_match registry node done =
    let (reader, made, more) = bind_ok (get_provider_reader registry) _ tt done in
    let (mismatches, collected, last) =
      bind_ok (collect_mismatches node mirrored_constants []) _ tt more in
    (collect_mismatches_nil node mirrored_constants []
      (collected ∙ ap ok (report_mismatches_ok mismatches last))).1

-- The placeholder region of the contract and the backend's are equal up to case.
abbrev pub HasRegion : Node → String → Type 0
HasRegion node legacy =
    (on_chain : String) × (node.legacy_region_code ≡ ok on_chain)
    × (to_lower on_chain ≡ to_lower legacy)

pub region_match :
    (legacy : String) (registry : Registry) (node : Node)
    → assert_legacy_region_code_matches legacy registry node ≡ ok tt
    → HasRegion node legacy
unfolding assert_legacy_region_code_matches
region_match legacy registry node done =
    let (reader, made, more) = bind_ok (get_provider_reader registry) _ tt done in
    let (on_chain, read, last) = bind_ok node.legacy_region_code _ tt more in
    elim (Bool-cases (str_eq (to_lower on_chain) (to_lower legacy))) [
      | inl same ↦ (on_chain, read, (eq_iff (to_lower on_chain) (to_lower legacy)).0 same)
      | inr other ↦ elim (throw-ne-ok (rw (other) at last)) [ ]
    ]

pub check_chain_ok :
    (registry : Registry) (node : Node) (chain_id : String)
    → check_chain registry node ≡ ok chain_id
    → (node.chain_id ≡ ok chain_id) × (get_chain_id registry ≡ ok chain_id)
unfolding check_chain
check_chain_ok registry node chain_id done =
    let (expected, declared, more) = bind_ok (get_chain_id registry) _ chain_id done in
    let (actual, read, last) = bind_ok node.chain_id _ chain_id more in
    elim (Bool-cases (str_eq actual expected)) [
      | inl same ↦
          let this : actual ≡ chain_id = ok_inj (rw (same) at last) in
          (read ∙ ap ok this, declared ∙ ap ok (sym ((eq_iff actual expected).0 same) ∙ this))
      | inr other ↦ elim (throw-ne-ok (rw (other) at last)) [ ]
    ]

pub all_three_ok :
    {A B C : Type 0} (pick : List Value → Value) (a : Result A) (b : Result B) (c : Result C)
    (read : A × B × C)
    → all_three pick a b c ≡ ok read
    → (a ≡ ok read.0) × (b ≡ ok read.1) × (c ≡ ok read.2)
unfolding all_three
all_three_ok pick (ok a) (ok b) (ok c) read done =
    let same = ok_inj done in (ap (λ r. ok r.0) same, ap (λ r. ok r.1) same, ap (λ r. ok r.2) same)
all_three_ok pick (throw a) b c read done = elim (throw-ne-ok done) [ ]
all_three_ok pick (ok a) (throw b) c read done = elim (throw-ne-ok done) [ ]
all_three_ok pick (ok a) (ok b) (throw c) read done = elim (throw-ne-ok done) [ ]
