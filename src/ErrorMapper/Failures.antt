-- ===== src/ErrorMapper/Failures.antt =====
-- The tables of backend/src/modules/blockchain/chain-error.mapper.ts on what the operator answers for, the
-- submission failures of ethers, and the whole table of the contracts' custom errors.
use climate_chain.Shared.{[], ◌∷◌, ◌++◌}
use climate_chain.Shared.Dict.{Dict}
use climate_chain.ErrorMapper.Tables.{
  RevertMapping, bad_request, conflict, unavailable, input_errors, unknown_subjects,
  state_conflicts,
}

abbrev pub operator_failures : Dict RevertMapping
operator_failures =
    (
      "InsufficientCoverageReserve",
      record {
        status = unavailable;
        message =
            "The provider's coverage reserve cannot back this policy; the operator must fund the reserve before new policies can be created";
      },
    )
    ∷ (
      "InsufficientPremiumBalance",
      record {
        status = unavailable;
        message = "The provider's premium balance is insufficient for this operation";
      },
    )
    ∷ (
      "InsufficientUntrackedBalance",
      record {
        status = unavailable;
        message = "The provider's untracked balance is insufficient for this operation";
      },
    )
    ∷ (
      "TrackedBalanceDeficit",
      record {
        status = unavailable;
        message =
            "The provider's tracked balances exceed its on-chain balance; operations are halted until the deficit is resolved";
      },
    )
    ∷ (
      "EthTransferFailed",
      record { status = unavailable; message = "An on-chain ETH transfer failed" },
    )
    ∷ (
      "InvalidOracleAddress",
      record {
        status = unavailable;
        message = "The configured weather oracle address is not a valid contract";
      },
    )
    ∷ (
      "SameOracleAddress",
      record { status = conflict; message = "The weather oracle is already set to that address" },
    )
    ∷ (
      "OracleOnly",
      record { status = conflict; message = "Only the policy's oracle may perform this operation" },
    )
    ∷ (
      "InsuredOnly",
      record { status = conflict; message = "Only the insured account may perform this operation" },
    )
    ∷ []

abbrev pub accounting_failures : Dict RevertMapping
accounting_failures =
    (
      "CoverageReserveMismatch",
      record {
        status = unavailable;
        message =
            "The coverage amount forwarded on policy deployment did not match the amount reserved; the provider's accounting is inconsistent";
      },
    )
    ∷ (
      "PremiumMismatch",
      record {
        status = unavailable;
        message =
            "The premium forwarded on activation did not match the amount the policy expects; the provider's accounting is inconsistent";
      },
    )
    ∷ []

abbrev pub base_contract_failures : Dict RevertMapping
base_contract_failures =
    (
      "OwnableUnauthorizedAccount",
      record {
        status = unavailable;
        message =
            "The configured signer is not the owner of the provider contract, so it cannot perform this operation; check PRIVATE_KEY against the deployed owner";
      },
    )
    ∷ (
      "OwnableInvalidOwner",
      record {
        status = unavailable;
        message = "The provider contract has an invalid owner configured";
      },
    )
    ∷ (
      "ReentrancyGuardReentrantCall",
      record {
        status = conflict;
        message =
            "The contract rejected a reentrant call; another operation on this contract is still in progress";
      },
    )
    ∷ []

abbrev pub submission_failures : Dict RevertMapping
submission_failures =
    (
      "NONCE_EXPIRED",
      record {
        status = conflict;
        message =
            "The transaction nonce was already used. Another process is submitting with the same signer; give each instance its own signing account or coordinate nonces externally.";
      },
    )
    ∷ (
      "REPLACEMENT_UNDERPRICED",
      record {
        status = conflict;
        message =
            "A transaction with this nonce is already pending and the replacement fee is too low. Wait for the pending transaction to confirm.";
      },
    )
    ∷ (
      "INSUFFICIENT_FUNDS",
      record {
        status = unavailable;
        message =
            "The configured signer has insufficient balance to pay for this transaction; fund the signing account.";
      },
    )
    ∷ (
      "TRANSACTION_REPLACED",
      record {
        status = conflict;
        message =
            "The submitted transaction was replaced before confirming; verify on-chain state before resubmitting.";
      },
    )
    ∷ (
      "INVALID_ARGUMENT",
      record {
        status = bad_request;
        message =
            "A request value cannot be encoded for the contract call; check that numeric fields are within range";
      },
    )
    ∷ (
      "NUMERIC_FAULT",
      record {
        status = bad_request;
        message =
            "A numeric request value is out of range for the contract call (overflow or underflow)";
      },
    )
    ∷ []

abbrev pub revert_mappings : Dict RevertMapping
revert_mappings =
    input_errors ++ unknown_subjects ++ state_conflicts ++ operator_failures ++ accounting_failures
    ++ base_contract_failures
