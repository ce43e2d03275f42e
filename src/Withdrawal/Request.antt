-- ===== src/Withdrawal/Request.antt =====
-- programs/iron_vault/src/instructions/request_withdrawal.rs
use iron_vault.Constants.{
  initial_schema_version, pause_vault_outflow, permission_request_withdrawal,
}
use iron_vault.Error.{
  Result, constrain, constraint_has_one, invalid_token_program, invalid_vault_amount,
  invalid_withdrawal_mint, invalid_withdrawal_policy, missing_vault_permission, ok, ok_or,
  per_transaction_limit_exceeded, program, require, timelock_not_required,
  unexpected_request_accounts, vault_asset_disabled, vault_paused, withdrawal_policy_overflow,
  withdrawal_timing_overflow, ◌>>=◌, ◌>>◌,
}
use iron_vault.Events.{withdrawal_requested}
use iron_vault.Prelude.{[], leb, ltb, not, replicate, ℕ, ◌==◌, ◌∷◌}
use iron_vault.Prelude.Int.{checked_add_i64, ltb_ℤ, ℤ}
use iron_vault.Runtime.{
  Content, Context, Effect, Interface, Ledger, Runtime, TokenAccount, init, load, load_interface,
  read_mint, read_protocol_config, read_token, read_vault, read_vault_asset, require_seeds,
  require_signer, store,
}
use iron_vault.Security.{authorize, require_protocol_active, validate_mint}
use iron_vault.Seeds.{protocol_seeds, vault_asset_seeds, withdrawal_seeds}
use iron_vault.State.{ProtocolConfig, Pubkey, Vault, VaultAsset, WithdrawalRequest, pending}
use iron_vault.Transfer.{checked_add_or}
use iron_vault.Vault.{require_vault_seeds}

-- The account keys of `RequestWithdrawal`.
pub record RequestWithdrawal : Type 0 where
  pub proposer : Pubkey
  pub protocol_config : Pubkey
  pub vault : Pubkey
  pub mint : Pubkey
  pub vault_asset : Pubkey
  pub recipient_token : Pubkey
  pub withdrawal_request : Pubkey

-- The accounts that validation has read, and the bump that `init` found.
pub record RequestWithdrawalLoaded : Type 0 where
  pub config : ProtocolConfig
  pub vault : Vault
  pub asset : VaultAsset
  pub recipient_token : Interface TokenAccount
  pub bump : ℕ

-- The times that `request` records, and the next identifier.
pub record Schedule : Type 0 where
  pub execute_after : ℤ
  pub expires_at : ℤ
  pub next_withdrawal_id : ℕ

-- The amount and state checks of `request`.
unfoldable pub check_request : RequestWithdrawalLoaded → ℕ → Result (Unit {0})
check_request a amount = do
  require (ltb 0 amount) invalid_vault_amount
  require (not a.vault.paused) vault_paused
  require a.asset.enabled vault_asset_disabled
  require (ltb a.asset.timelock_threshold amount) timelock_not_required
  require (leb amount a.asset.max_per_transaction) per_transaction_limit_exceeded

unfoldable pub schedule_request : RequestWithdrawalLoaded → ℤ → Result Schedule
schedule_request a now = do
  execute_after ←
      ok_or (checked_add_i64 now a.asset.timelock_seconds) (program withdrawal_timing_overflow)
  expires_at ←
      ok_or (checked_add_i64 execute_after a.asset.request_execution_window_seconds)
        (program withdrawal_timing_overflow)
  require (ltb_ℤ now execute_after) invalid_withdrawal_policy
  require (ltb_ℤ execute_after expires_at) invalid_withdrawal_policy
  next ← checked_add_or a.vault.next_withdrawal_id 1 withdrawal_policy_overflow
  ok (record { execute_after = execute_after; expires_at = expires_at; next_withdrawal_id = next })

-- `WithdrawalRequest` as the handler fills it in.
abbrev pub new_request :
    RequestWithdrawal → RequestWithdrawalLoaded → ℕ → ℤ → Schedule → WithdrawalRequest
new_request accounts a amount now s = record {
  vault = accounts.vault;
  vault_asset = accounts.vault_asset;
  mint = accounts.mint;
  token_program = a.asset.token_program;
  proposer = accounts.proposer;
  recipient_owner = a.recipient_token.state.owner;
  recipient_token_account = accounts.recipient_token;
  withdrawal_id = a.vault.next_withdrawal_id;
  amount = amount;
  created_at = now;
  execute_after = s.execute_after;
  expires_at = s.expires_at;
  status = pending;
  bump = a.bump;
  reserved = replicate 30 0;
}

module _ (rt : Runtime) where
  unfoldable pub validate_request :
      Context → RequestWithdrawal → Ledger → Result RequestWithdrawalLoaded
  validate_request ctx accounts l = do
    require_signer rt ctx accounts.proposer
    config ← load rt read_protocol_config l accounts.protocol_config
    vault ← load rt read_vault l accounts.vault
    mint ← load_interface rt read_mint l accounts.mint
    asset ← load rt read_vault_asset l accounts.vault_asset
    recipient_token ← load_interface rt read_token l accounts.recipient_token
    bump ←
        init rt (withdrawal_seeds accounts.vault vault.next_withdrawal_id) l
          accounts.withdrawal_request
    require_seeds rt protocol_seeds config.bump accounts.protocol_config
    require_vault_seeds rt vault accounts.vault
    validate_mint rt mint asset.token_program
    require_seeds rt (vault_asset_seeds accounts.vault accounts.mint) asset.bump
        accounts.vault_asset
    constrain (asset.vault == accounts.vault) constraint_has_one
    constrain (asset.mint == accounts.mint) constraint_has_one
    require (recipient_token.state.mint == accounts.mint) invalid_withdrawal_mint
    require (recipient_token.program == asset.token_program) invalid_token_program
    ok (record {
      config = config;
      vault = vault;
      asset = asset;
      recipient_token = recipient_token;
      bump = bump;
    })

  -- `request_withdrawal::authorize`
  unfoldable pub authorize_request :
      Context → RequestWithdrawal → Vault → Ledger → Result (Unit {0})
  authorize_request ctx accounts vault l =
      authorize rt l ctx (accounts.proposer == vault.authority) accounts.vault accounts.proposer
        permission_request_withdrawal unexpected_request_accounts missing_vault_permission

  unfoldable pub request : Context → RequestWithdrawal → ℕ → Ledger → Result Effect
  request ctx accounts amount l = do
    a ← validate_request ctx accounts l
    require_protocol_active a.config pause_vault_outflow
    authorize_request ctx accounts a.vault l
    check_request a amount
    s ← schedule_request a ctx.unix_timestamp
    let request = new_request accounts a amount ctx.unix_timestamp s
    ok (record {
      ledger = store rt accounts.withdrawal_request (Content.withdrawal_request request) (
          store rt accounts.vault
            (Content.vault (record a.vault { next_withdrawal_id = s.next_withdrawal_id })) l);
      events =
          withdrawal_requested (record {
            version = initial_schema_version;
            vault = request.vault;
            vault_asset = request.vault_asset;
            withdrawal_request = accounts.withdrawal_request;
            proposer = request.proposer;
            recipient_owner = request.recipient_owner;
            recipient_token_account = request.recipient_token_account;
            mint = request.mint;
            withdrawal_id = request.withdrawal_id;
            amount = amount;
            created_at = ctx.unix_timestamp;
            execute_after = s.execute_after;
            expires_at = s.expires_at;
          })
          ∷ [];
    })
