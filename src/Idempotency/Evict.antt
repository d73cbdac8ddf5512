-- ===== src/Idempotency/Evict.antt =====
-- What eviction keeps.
use climate_chain.Shared.{ℕ, String, ◌≡◌, refl, false, none, some, [], ◌∷◌, arith}
use climate_chain.Shared.Dict.{Dict, get}
use climate_chain.Idempotency.{Entry, is_expired, evict_expired}

module _ {ℓ} {T : Type ℓ} (now : ℕ) (k : String) where
  pub get-evict_expired_kept :
      (m : Dict (Entry T)) (e : Entry T)
      → get k m ≡ some e
      → is_expired now e ≡ false
      → get k (evict_expired now m) ≡ some e
  unfolding get evict_expired
  get-evict_expired_kept [] e h live = cc
  get-evict_expired_kept ((j, w) ∷ m) e h live = ground (arith, get-evict_expired_kept m e)

  pub get-evict_expired-none :
      (m : Dict (Entry T)) → get k m ≡ none → get k (evict_expired now m) ≡ none
  unfolding get evict_expired
  get-evict_expired-none [] h = refl
  get-evict_expired-none ((j, w) ∷ m) h = ground (arith, get-evict_expired-none m)
