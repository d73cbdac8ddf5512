-- ===== src/Scripts/ContractSize/Laws.antt =====
-- When the check of the sizes passes.
use climate_chain.Shared.{ℕ, ◌≤◌, ◌+◌, ◌≡◌, ◌⊎◌, Bool, true, false, Option, none, some, List, All}
use climate_chain.Scripts.ContractSize.{ContractSizeEntry, max_eip170_bytes, find_baseline}

-- The contract can be deployed.
abbrev pub Fits : ContractSizeEntry → Type 0
Fits e = e.deployed_bytecode_bytes ≤ max_eip170_bytes

-- The baseline has the contract, which is no more than the tolerance larger than there.
abbrev pub Within : ℕ → List ContractSizeEntry → ContractSizeEntry → Type 0
Within tolerance baseline e =
    (b : ContractSizeEntry) × (find_baseline e.contract_name baseline ≡ some b)
    × (e.deployed_bytecode_bytes ≤ b.deployed_bytecode_bytes + tolerance)

-- Nothing is to be compared with, or the baseline is to be written anew.
abbrev pub Rewrites : Bool → Option (List ContractSizeEntry) → Type 0
Rewrites update baseline = (baseline ≡ none) ⊎ (update ≡ true)

-- The comparison passed, and writes the current sizes as the baseline or leaves the baseline there is.
abbrev pub Compared :
    ℕ
    → Bool
    → Option (List ContractSizeEntry)
    → List ContractSizeEntry
    → Option (List ContractSizeEntry)
    → Type 0
Compared tolerance update baseline current written =
    (Rewrites update baseline × (written ≡ some current))
    ⊎ ((update ≡ false)
        × (written ≡ none)
        × ((b : List ContractSizeEntry) × (baseline ≡ some b) × All (Within tolerance b) current))
