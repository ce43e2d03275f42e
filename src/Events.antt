-- ===== src/Events.antt =====
-- The events that the program emits (programs/iron_vault/src/events.rs).
use iron_vault.Prelude.{Bool, ℕ}
use iron_vault.Prelude.Int.{ℤ}
use iron_vault.State.{Pubkey}

pub record ProtocolInitialized : Type 0 where
  pub version : ℕ
  pub protocol_config : Pubkey
  pub admin : Pubkey
  pub guardian : Pubkey

pub record ProtocolPauseUpdated : Type 0 where
  pub version : ℕ
  pub protocol_config : Pubkey
  pub caller : Pubkey
  pub previous_flags : ℕ
  pub new_flags : ℕ

pub record EscrowCreated : Type 0 where
  pub version : ℕ
  pub escrow : Pubkey
  pub escrow_token : Pubkey
  pub maker : Pubkey
  pub recipient : Pubkey
  pub mint : Pubkey
  pub amount : ℕ
  pub created_at : ℤ
  pub expires_at : ℤ
  pub escrow_id : ℕ

pub record EscrowReleased : Type 0 where
  pub version : ℕ
  pub escrow : Pubkey
  pub escrow_token : Pubkey
  pub maker : Pubkey
  pub recipient : Pubkey
  pub recipient_token : Pubkey
  pub mint : Pubkey
  pub amount : ℕ

pub record EscrowRefunded : Type 0 where
  pub version : ℕ
  pub escrow : Pubkey
  pub escrow_token : Pubkey
  pub caller : Pubkey
  pub maker : Pubkey
  pub maker_destination : Pubkey
  pub mint : Pubkey
  pub amount : ℕ

pub record VaultCreated : Type 0 where
  pub version : ℕ
  pub vault : Pubkey
  pub namespace_authority : Pubkey
  pub authority : Pubkey
  pub guardian : Pubkey
  pub vault_id : ℕ

pub record VaultAuthorityUpdated : Type 0 where
  pub version : ℕ
  pub vault : Pubkey
  pub previous_authority : Pubkey
  pub new_authority : Pubkey

pub record VaultPauseUpdated : Type 0 where
  pub version : ℕ
  pub vault : Pubkey
  pub caller : Pubkey
  pub paused : Bool

pub record VaultAssetRegistered : Type 0 where
  pub version : ℕ
  pub vault : Pubkey
  pub vault_asset : Pubkey
  pub vault_token : Pubkey
  pub mint : Pubkey
  pub token_program : Pubkey

pub record VaultDeposit : Type 0 where
  pub version : ℕ
  pub vault : Pubkey
  pub vault_asset : Pubkey
  pub vault_token : Pubkey
  pub depositor : Pubkey
  pub source_token : Pubkey
  pub mint : Pubkey
  pub amount : ℕ

pub record VaultWithdrawal : Type 0 where
  pub version : ℕ
  pub vault : Pubkey
  pub vault_asset : Pubkey
  pub vault_token : Pubkey
  pub caller : Pubkey
  pub destination_token : Pubkey
  pub mint : Pubkey
  pub amount : ℕ

pub record RoleGranted : Type 0 where
  pub version : ℕ
  pub vault : Pubkey
  pub principal : Pubkey
  pub permissions : ℕ

pub record RoleRevoked : Type 0 where
  pub version : ℕ
  pub vault : Pubkey
  pub principal : Pubkey
  pub previous_permissions : ℕ

pub record VaultLimitsUpdated : Type 0 where
  pub version : ℕ
  pub vault : Pubkey
  pub vault_asset : Pubkey
  pub mint : Pubkey
  pub caller : Pubkey
  pub max_per_transaction : ℕ
  pub window_limit : ℕ
  pub window_seconds : ℤ
  pub timelock_threshold : ℕ
  pub timelock_seconds : ℤ
  pub request_execution_window_seconds : ℤ
  pub window_started_at : ℤ
  pub window_spent : ℕ

pub record WithdrawalRequested : Type 0 where
  pub version : ℕ
  pub vault : Pubkey
  pub vault_asset : Pubkey
  pub withdrawal_request : Pubkey
  pub proposer : Pubkey
  pub recipient_owner : Pubkey
  pub recipient_token_account : Pubkey
  pub mint : Pubkey
  pub withdrawal_id : ℕ
  pub amount : ℕ
  pub created_at : ℤ
  pub execute_after : ℤ
  pub expires_at : ℤ

pub record WithdrawalExecuted : Type 0 where
  pub version : ℕ
  pub vault : Pubkey
  pub vault_asset : Pubkey
  pub withdrawal_request : Pubkey
  pub caller : Pubkey
  pub recipient_token_account : Pubkey
  pub mint : Pubkey
  pub withdrawal_id : ℕ
  pub amount : ℕ

pub record WithdrawalCancelled : Type 0 where
  pub version : ℕ
  pub vault : Pubkey
  pub withdrawal_request : Pubkey
  pub caller : Pubkey
  pub proposer : Pubkey
  pub withdrawal_id : ℕ

pub data IronVaultEvent : Type 0 where
  protocol_initialized : ProtocolInitialized → IronVaultEvent
  protocol_pause_updated : ProtocolPauseUpdated → IronVaultEvent
  escrow_created : EscrowCreated → IronVaultEvent
  escrow_released : EscrowReleased → IronVaultEvent
  escrow_refunded : EscrowRefunded → IronVaultEvent
  vault_created : VaultCreated → IronVaultEvent
  vault_authority_updated : VaultAuthorityUpdated → IronVaultEvent
  vault_pause_updated : VaultPauseUpdated → IronVaultEvent
  vault_asset_registered : VaultAssetRegistered → IronVaultEvent
  vault_deposit : VaultDeposit → IronVaultEvent
  vault_withdrawal : VaultWithdrawal → IronVaultEvent
  role_granted : RoleGranted → IronVaultEvent
  role_revoked : RoleRevoked → IronVaultEvent
  vault_limits_updated : VaultLimitsUpdated → IronVaultEvent
  withdrawal_requested : WithdrawalRequested → IronVaultEvent
  withdrawal_executed : WithdrawalExecuted → IronVaultEvent
  withdrawal_cancelled : WithdrawalCancelled → IronVaultEvent
