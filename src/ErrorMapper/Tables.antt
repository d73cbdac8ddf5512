-- ===== src/ErrorMapper/Tables.antt =====
-- The tables of backend/src/modules/blockchain/chain-error.mapper.ts on what the caller of the API may do
-- wrong: invalid inputs, unknown subjects and states that forbid the operation.
use climate_chain.Shared.{String, [], ◌∷◌}
use climate_chain.Shared.Dict.{Dict}

pub data RevertStatus : Type 0 where
  bad_request conflict not_found unavailable : RevertStatus

pub record RevertMapping : Type 0 where
  pub status : RevertStatus
  pub message : String

abbrev pub input_errors : Dict RevertMapping
input_errors =
    (
      "InvalidCoverageAmount",
      record { status = bad_request; message = "Coverage amount must be greater than zero" },
    )
    ∷ (
      "InvalidDurationDays",
      record { status = bad_request; message = "Policy duration must be greater than zero" },
    )
    ∷ (
      "DurationDaysExceedsMaximum",
      record {
        status = bad_request;
        message = "Policy duration exceeds the maximum allowed by the contract";
      },
    )
    ∷ (
      "InvalidRainfallThreshold",
      record { status = bad_request; message = "Rainfall threshold must be greater than zero" },
    )
    ∷ (
      "InvalidRegionCode",
      record { status = bad_request; message = "Region code must not be empty" },
    )
    ∷ (
      "InvalidRequestedStartTimestamp",
      record {
        status = bad_request;
        message =
            "Requested start timestamp is inside the minimum lead-time window; submit a later start";
      },
    )
    ∷ (
      "RequestedStartTooFarInFuture",
      record {
        status = bad_request;
        message =
            "Requested start timestamp is beyond the maximum the contract allows; coverage cannot be reserved that far ahead";
      },
    )
    ∷ (
      "PremiumMustBePositive",
      record { status = bad_request; message = "Premium must be greater than zero" },
    )
    ∷ (
      "PremiumBelowMinimum",
      record {
        status = bad_request;
        message = "Premium is below the minimum ratio required for this coverage";
      },
    )
    ∷ (
      "InvalidPolicyWindowComputation",
      record {
        status = bad_request;
        message = "Requested start and duration produce an out-of-range policy window";
      },
    )
    ∷ (
      "InvalidPolicyWindow",
      record { status = bad_request; message = "Policy start must be strictly before its end" },
    )
    ∷ (
      "InvalidPremiumAmount",
      record { status = bad_request; message = "Premium must be greater than zero" },
    )
    ∷ (
      "InvalidInsuredAddress",
      record { status = bad_request; message = "Insured address must not be the zero address" },
    )
    ∷ (
      "InvalidRecipientAddress",
      record { status = bad_request; message = "Recipient address must not be the zero address" },
    )
    ∷ (
      "InvalidWithdrawalAmount",
      record { status = bad_request; message = "Withdrawal amount must be greater than zero" },
    )
    ∷ []

abbrev pub unknown_subjects : Dict RevertMapping
unknown_subjects =
    (
      "UnknownPolicyAddress",
      record {
        status = not_found;
        message = "No policy with that address was created by this provider";
      },
    )
    ∷ (
      "PolicyIndexOutOfBounds",
      record { status = not_found; message = "Policy index is out of range" },
    )
    ∷ []

abbrev pub state_conflicts : Dict RevertMapping
state_conflicts =
    (
      "PolicyAlreadySettledInProvider",
      record { status = conflict; message = "Policy has already been settled by the provider" },
    )
    ∷ (
      "PolicyAlreadySettled",
      record { status = conflict; message = "Policy has already been settled" },
    )
    ∷ (
      "PolicyNotActivated",
      record { status = conflict; message = "Policy has not been activated yet" },
    )
    ∷ (
      "PolicyNotEnded",
      record { status = conflict; message = "Policy coverage window has not ended yet" },
    )
    ∷ (
      "TriggeredPolicyRequiresPayout",
      record {
        status = conflict;
        message = "Triggered policy must be paid out rather than expired";
      },
    )
    ∷ (
      "InvalidStatus",
      record { status = conflict; message = "Policy is not in the status this operation requires" },
    )
    ∷ (
      "PolicyOutsideWeatherWindow",
      record {
        status = conflict;
        message = "Operation is only allowed inside the policy weather window";
      },
    )
    ∷ (
      "PendingPayoutNotAvailable",
      record { status = conflict; message = "No pending payout is available to claim" },
    )
    ∷ (
      "PendingPayoutStillClaimable",
      record {
        status = conflict;
        message = "The insured can still claim this payout; recovery is not available yet";
      },
    )
    ∷ (
      "NoPendingWeatherRequest",
      record {
        status = conflict;
        message = "No weather request is currently pending for this policy";
      },
    )
    ∷ (
      "InvalidWeatherRequestId",
      record {
        status = conflict;
        message = "Weather request id does not match the policy's pending request";
      },
    )
    ∷ []
