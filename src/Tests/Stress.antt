-- ===== src/Tests/Stress.antt =====
-- A plan of the stress script: twelve policies, in bursts of five signers.
use climate_chain.Shared.{
  ℕ, String, ◌≡◌, refl, false, Option, none, some, List, [], ◌∷◌, All, str_eq, if◌then◌else◌,
}
use climate_chain.Shared.Text.{show, trim}
use climate_chain.Js.{ℤ, pos, Number, whole, ok}
use climate_chain.Scripts.Stress.{
  HarnessOptions, load_harness_options, insured_signers, bursts, parse_positive_integer,
}
use climate_chain.Scripts.Stress.Laws.{creations, IsBurst, bursts-creations}

abbrev number_of : String → Number
number_of text = if str_eq text "12" then whole (pos 12) else whole (pos 5)

abbrev parse_ether : String → Option ℤ
parse_ether text = some (pos 200000000000000000)

abbrev env : String → Option String
env name = if str_eq name "STRESS_POLICIES_COUNT" then some "12" else none

abbrev plan : HarnessOptions
plan = record {
  total_policies = 12;
  burst_size = 5;
  insured_accounts = 5;
  coverage_wei = pos 200000000000000000;
  premium_bps = 5;
  rainfall_threshold_mm = 5;
  duration_days = 5;
  region_code = "STRESS";
  requested_start_offset_seconds = 5;
  force_fresh_deployment = false;
}

abbrev signers : List ℕ
signers = 0 ∷ 1 ∷ 2 ∷ 3 ∷ 4 ∷ 5 ∷ 6 ∷ []

abbrev insured : List ℕ
insured = 1 ∷ 2 ∷ 3 ∷ 4 ∷ 5 ∷ []

loaded : load_harness_options number_of parse_ether env ≡ ok plan
unfolding load_harness_options trim show parse_positive_integer
loaded = refl

chosen : insured_signers plan signers ≡ ok insured
unfolding insured_signers
chosen = refl

planned : bursts plan insured ≡ insured ∷ insured ∷ (1 ∷ 2 ∷ []) ∷ []
unfolding bursts
planned = refl

bursts-creations_example :
    (creations (bursts plan insured) ≡ 12) × All (IsBurst 5 insured) (bursts plan insured)
bursts-creations_example =
    bursts-creations number_of parse_ether env plan signers insured loaded chosen
