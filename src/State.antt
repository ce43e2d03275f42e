-- ===== src/State.antt =====
-- The accounts that the program owns (programs/iron_vault/src/state/mod.rs). A key is the number
-- that its 32 bytes spell, so `Pubkey::default()` is 0; a reserved array is the list of its bytes.
use iron_vault.Prelude.{Bool, List, bit_and, false, true, ℕ, ◌!=◌, ◌&&◌, ◌==◌}
use iron_vault.Prelude.Int.{ℤ}

abbrev pub Pubkey : Type 0
Pubkey = ℕ

-- `Pubkey::default()`
abbrev pub default_key : Pubkey
default_key = 0

pub data EscrowStatus : Type 0 where
  funded released refunded : EscrowStatus

-- `==` on the status
abbrev pub is_funded : EscrowStatus → Bool
is_funded funded = true
is_funded released = false
is_funded refunded = false

pub data WithdrawalStatus : Type 0 where
  pending executed cancelled : WithdrawalStatus

abbrev pub is_pending : WithdrawalStatus → Bool
is_pending pending = true
is_pending executed = false
is_pending cancelled = false

pub record ProtocolConfig : Type 0 where
  pub version : ℕ
  pub admin : Pubkey
  pub guardian : Pubkey
  pub pause_flags : ℕ
  pub bump : ℕ
  pub reserved : List ℕ

-- `ProtocolConfig::is_paused`
unfoldable pub is_paused : ProtocolConfig → ℕ → Bool
is_paused config flag = bit_and config.pause_flags flag != 0

pub record Escrow : Type 0 where
  pub maker : Pubkey
  pub recipient : Pubkey
  pub mint : Pubkey
  pub token_program : Pubkey
  pub escrow_id : ℕ
  pub amount : ℕ
  pub created_at : ℤ
  pub expires_at : ℤ
  pub status : EscrowStatus
  pub bump : ℕ
  pub reserved : List ℕ

pub record Vault : Type 0 where
  pub namespace_authority : Pubkey
  pub authority : Pubkey
  pub guardian : Pubkey
  pub vault_id : ℕ
  pub next_withdrawal_id : ℕ
  pub paused : Bool
  pub bump : ℕ
  pub reserved : List ℕ

pub record VaultAsset : Type 0 where
  pub vault : Pubkey
  pub mint : Pubkey
  pub token_program : Pubkey
  pub max_per_transaction : ℕ
  pub window_limit : ℕ
  pub window_seconds : ℤ
  pub window_started_at : ℤ
  pub window_spent : ℕ
  pub timelock_threshold : ℕ
  pub timelock_seconds : ℤ
  pub request_execution_window_seconds : ℤ
  pub enabled : Bool
  pub bump : ℕ
  pub reserved : List ℕ

pub record RoleAssignment : Type 0 where
  pub vault : Pubkey
  pub principal : Pubkey
  pub permissions : ℕ
  pub active : Bool
  pub bump : ℕ
  pub reserved : List ℕ

-- `RoleAssignment::has`
unfoldable pub has : RoleAssignment → ℕ → Bool
has role permission = role.active && bit_and role.permissions permission == permission

pub record WithdrawalRequest : Type 0 where
  pub vault : Pubkey
  pub vault_asset : Pubkey
  pub mint : Pubkey
  pub token_program : Pubkey
  pub proposer : Pubkey
  pub recipient_owner : Pubkey
  pub recipient_token_account : Pubkey
  pub withdrawal_id : ℕ
  pub amount : ℕ
  pub created_at : ℤ
  pub execute_after : ℤ
  pub expires_at : ℤ
  pub status : WithdrawalStatus
  pub bump : ℕ
  pub reserved : List ℕ
