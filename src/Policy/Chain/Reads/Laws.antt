-- ===== src/Policy/Chain/Reads/Laws.antt =====
-- Reading in batches is reading one by one.
use climate_chain.Shared.{
  ℕ, zero, suc, ◌≤◌, String, ◌≡◌, refl, sym, ap, ◌↔◌, ◌⊎◌, inl, inr, List, [], ◌∷◌, ◌++◌, map,
  arith, length, take, drop, take-append-drop, length-drop,
}
use std.Path.{subst}
use climate_chain.Js.{Value, Result, ok, throw, Result-cases, bind_ok, ok_inj}
use climate_chain.Policy.Chain.Reads.{
  rejections, fulfilled, promise_all, read_batches, read_policies_bounded, policy_read_concurrency,
}

-- Every address reads to the value at its place.
abbrev pub ReadsTo : {A : Type 0} → (String → Result A) → List String → List A → Type 0
ReadsTo read [] [] = Unit
ReadsTo read (a ∷ addresses) (x ∷ xs) = (read a ≡ ok x) × ReadsTo read addresses xs
ReadsTo read addresses xs = ⊥

List-cases : {A : Type 0} (xs : List A) → (xs ≡ []) ⊎ ((y : A) × (ys : List A) × (xs ≡ y ∷ ys))
List-cases [] = inl refl
List-cases (x ∷ xs) = inr (x, xs, refl)

module _ {A : Type 0} (read : String → Result A) where
  ReadsTo-++ :
      (ps qs : List String) (xs ys : List A)
      → ReadsTo read ps xs
      → ReadsTo read qs ys
      → ReadsTo read (ps ++ qs) (xs ++ ys)
  ReadsTo-++ [] qs [] ys first second = second
  ReadsTo-++ [] qs (x ∷ xs) ys first second = elim first [ ]
  ReadsTo-++ (p ∷ ps) qs [] ys first second = elim first [ ]
  ReadsTo-++ (p ∷ ps) qs (x ∷ xs) ys (here, later) second =
      (here, ReadsTo-++ ps qs xs ys later second)

  pub ReadsTo-take-drop :
      (n : ℕ) (addresses : List String) (xs : List A)
      → ReadsTo read addresses xs
      → ReadsTo read (take n addresses) (take n xs) × ReadsTo read (drop n addresses) (drop n xs)
  ReadsTo-take-drop zero addresses xs all = (tt, all)
  ReadsTo-take-drop (suc n) [] [] all = (tt, tt)
  ReadsTo-take-drop (suc n) [] (x ∷ xs) all = elim all [ ]
  ReadsTo-take-drop (suc n) (a ∷ addresses) [] all = elim all [ ]
  ReadsTo-take-drop (suc n) (a ∷ addresses) (x ∷ xs) (here, later) =
      let (first, second) = ReadsTo-take-drop n addresses xs later in ((here, first), second)

  ReadsTo-rejections :
      (addresses : List String) (xs : List A)
      → ReadsTo read addresses xs
      → (rejections (map read addresses) ≡ []) × (fulfilled (map read addresses) ≡ xs)
  ReadsTo-rejections [] [] all = (refl, refl)
  ReadsTo-rejections [] (x ∷ xs) all = elim all [ ]
  ReadsTo-rejections (a ∷ addresses) [] all = elim all [ ]
  ReadsTo-rejections (a ∷ addresses) (x ∷ xs) (here, later) =
      let (none_thrown, values) = ReadsTo-rejections addresses xs later in
      rw (here) (none_thrown, ap (λ ws. x ∷ ws) values)

  rejections-ReadsTo :
      (addresses : List String)
      → rejections (map read addresses) ≡ []
      → ReadsTo read addresses (fulfilled (map read addresses))
  rejections-ReadsTo [] none_thrown = tt
  rejections-ReadsTo (a ∷ addresses) none_thrown = elim (Result-cases (read a)) [
    | inl (x, here) ↦
        let rest : rejections (map read addresses) ≡ [] = grind arith in
        rw (here) (here, rejections-ReadsTo addresses rest)
    | inr (e, failed) ↦ let absurd : ⊥ = grind arith in elim absurd [ ]
  ]

  module _ (pick : Value → List Value → Value) where
    rejections-cases :
        (rs : List (Result A))
        → (promise_all pick rs ≡ ok (fulfilled rs)) × (rejections rs ≡ [])
          ⊎ ((e : Value) × (promise_all pick rs ≡ throw e))
    unfolding promise_all
    rejections-cases rs = elim (List-cases (rejections rs)) [
      | inl nothing ↦ inl (rw (promise_all, nothing) refl, nothing)
      | inr (e, es, some_thrown) ↦ inr (pick e es, rw (promise_all, some_thrown) refl)
    ]

    promise_all-ReadsTo :
        (addresses : List String) (xs : List A)
        → promise_all pick (map read addresses) ≡ ok xs
        → ReadsTo read addresses xs
    promise_all-ReadsTo addresses xs done = elim (rejections-cases (map read addresses)) [
      | inl (values, nothing) ↦
          let same : fulfilled (map read addresses) ≡ xs = grind arith in
          rw (sym same) (rejections-ReadsTo addresses nothing)
      | inr (e, failed) ↦ let absurd : ⊥ = grind arith in elim absurd [ ]
    ]

    ReadsTo-promise_all :
        (addresses : List String) (xs : List A)
        → ReadsTo read addresses xs
        → promise_all pick (map read addresses) ≡ ok xs
    unfolding promise_all
    ReadsTo-promise_all addresses xs all =
        let (nothing, values) = ReadsTo-rejections addresses xs all in
        rw (promise_all, nothing, values) refl

    read_batches-ReadsTo :
        (rounds : ℕ) (addresses : List String) (xs : List A)
        → length addresses ≤ rounds
        → read_batches pick read rounds addresses ≡ ok xs
        → ReadsTo read addresses xs
    unfolding read_batches
    read_batches-ReadsTo zero [] [] enough done = tt
    read_batches-ReadsTo zero [] (x ∷ xs) enough done =
        let absurd : ⊥ = grind arith in elim absurd [ ]
    read_batches-ReadsTo zero (a ∷ addresses) xs enough done =
        let absurd : ⊥ = omega arith in elim absurd [ ]
    read_batches-ReadsTo (suc rounds) [] [] enough done = tt
    read_batches-ReadsTo (suc rounds) [] (x ∷ xs) enough done =
        let absurd : ⊥ = grind arith in elim absurd [ ]
    read_batches-ReadsTo (suc rounds) (a ∷ addresses) xs enough done =
        let (batch, first, more) =
          bind_ok (promise_all pick (map read (take policy_read_concurrency (a ∷ addresses)))) _ xs
            done in
        let (others, second, end) =
          bind_ok (read_batches pick read rounds (drop policy_read_concurrency (a ∷ addresses))) _
            xs more in
        let now = take policy_read_concurrency (a ∷ addresses) in
        let later = drop policy_read_concurrency (a ∷ addresses) in
        let whole : ReadsTo read (now ++ later) (batch ++ others) =
          ReadsTo-++ now later batch others (promise_all-ReadsTo now batch first) (
            read_batches-ReadsTo rounds later others (omega (arith, length-drop 4 addresses))
              second) in
        rw (sym (ok_inj end)) (
          subst (λ ps. ReadsTo read ps (batch ++ others))
            (take-append-drop policy_read_concurrency (a ∷ addresses)) whole)

    ReadsTo-read_batches :
        (rounds : ℕ) (addresses : List String) (xs : List A)
        → length addresses ≤ rounds
        → ReadsTo read addresses xs
        → read_batches pick read rounds addresses ≡ ok xs
    unfolding read_batches
    ReadsTo-read_batches zero [] [] enough all = refl
    ReadsTo-read_batches zero [] (x ∷ xs) enough all = elim all [ ]
    ReadsTo-read_batches zero (a ∷ addresses) xs enough all =
        let absurd : ⊥ = omega arith in elim absurd [ ]
    ReadsTo-read_batches (suc rounds) [] [] enough all = refl
    ReadsTo-read_batches (suc rounds) [] (x ∷ xs) enough all = elim all [ ]
    ReadsTo-read_batches (suc rounds) (a ∷ addresses) xs enough all =
        let (first, second) = ReadsTo-take-drop policy_read_concurrency (a ∷ addresses) xs all in
        rw
          (
            ReadsTo-promise_all (take policy_read_concurrency (a ∷ addresses))
                (take policy_read_concurrency xs) first,
            ReadsTo-read_batches rounds (drop policy_read_concurrency (a ∷ addresses))
                (drop policy_read_concurrency xs) (omega (arith, length-drop 4 addresses)) second,
          )
          (ap ok (take-append-drop policy_read_concurrency xs))

    -- Reading in batches gives values exactly where every address reads to one, and then it gives them in
    -- the order of the addresses, one for each.
    pub read_policies_bounded_iff :
        (addresses : List String) (xs : List A)
        → (read_policies_bounded pick read addresses ≡ ok xs) ↔ ReadsTo read addresses xs
    unfolding read_policies_bounded
    read_policies_bounded_iff addresses xs = (
      read_batches-ReadsTo (length addresses) addresses xs (omega arith),
      ReadsTo-read_batches (length addresses) addresses xs (omega arith),
    )
