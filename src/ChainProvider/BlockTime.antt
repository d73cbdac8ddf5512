-- ===== src/ChainProvider/BlockTime.antt =====
-- The time from which a default policy start is measured.
use climate_chain.Shared.{ℕ, ◌/◌, ◌≤◌, max, ◌≡◌, refl, ◌⊎◌, inl, inr, Option, none, some, arith}
use native.Mathlib.Decide.{dec_le}
use climate_chain.Js.{Value, ok, throw}
use climate_chain.ChainProvider.{BlockRead, get_next_block_timestamp}

abbrev pub timestamp_of : BlockRead → Option ℕ
timestamp_of (ok read) = read
timestamp_of (throw thrown) = none

-- The later of the server's clock and what the latest block says, if it says anything.
abbrev pub IsLater : ℕ → Option ℕ → ℕ → Type 0
IsLater server latest time =
    ((latest ≡ none) × (time ≡ server))
    ⊎ ((t : ℕ) × (latest ≡ some t) × (server ≤ time) × (t ≤ time) × ((time ≡ server) ⊎ (time ≡ t)))

-- The node's pending block decides wherever it has a timestamp. Where the node has no pending block, the
-- estimate is the later of the server's clock and the latest block's time, and the clock where that block
-- is missing or cannot be read; where the pending block cannot be read, it is the clock.
pub get_next_block_timestamp_bounds :
    (now_ms : ℕ) (pending latest : BlockRead)
    → let time = get_next_block_timestamp now_ms pending latest in
      ((t : ℕ) × (pending ≡ ok (some t)) × (time ≡ t))
      ⊎ ((pending ≡ ok none) × IsLater (now_ms / 1000) (timestamp_of latest) time)
      ⊎ ((thrown : Value) × (pending ≡ throw thrown) × (time ≡ now_ms / 1000))
unfolding get_next_block_timestamp
get_next_block_timestamp_bounds now_ms (ok (some t)) latest = inl (t, refl, refl)
get_next_block_timestamp_bounds now_ms (ok none) (ok (some t)) =
    let which : (max t (now_ms / 1000) ≡ now_ms / 1000) ⊎ (max t (now_ms / 1000) ≡ t) =
      elim (dec_le t (now_ms / 1000)) [
        | yes early ↦ inl (omega arith)
        | no late ↦ inr (omega arith)
      ] in
    inr (inl (refl, inr (t, refl, omega arith, omega arith, which)))
get_next_block_timestamp_bounds now_ms (ok none) (ok none) = inr (inl (refl, inl (refl, refl)))
get_next_block_timestamp_bounds now_ms (ok none) (throw e) = inr (inl (refl, inl (refl, refl)))
get_next_block_timestamp_bounds now_ms (throw e) latest = inr (inr (e, refl, refl))
