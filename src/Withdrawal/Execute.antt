-- ===== src/Withdrawal/Execute.antt =====
-- programs/iron_vault/src/instructions/execute_withdrawal.rs
use iron_vault.Constants.{initial_schema_version, pause_vault_outflow}
use iron_vault.Error.{
  Result, constrain, constraint_has_one, constraint_raw, insufficient_vault_funds,
  invalid_token_program, invalid_vault_custody_balance, invalid_withdrawal_destination_balance,
  invalid_withdrawal_mint, invalid_withdrawal_recipient, ok, per_transaction_limit_exceeded,
  require, vault_asset_disabled, vault_paused, withdrawal_not_pending, withdrawal_request_expired,
  withdrawal_timelock_active, ◌>>=◌, ◌>>◌,
}
use iron_vault.Events.{withdrawal_executed}
use iron_vault.Prelude.{[], leb, not, some, ◌==◌, ◌∷◌}
use iron_vault.Prelude.Int.{leb_ℤ}
use iron_vault.Runtime.{
  Content, Context, Effect, Interface, Ledger, Mint, Runtime, TokenAccount, load, load_interface,
  read_mint, read_protocol_config, read_token, read_vault, read_vault_asset,
  read_withdrawal_request, require_canonical, require_seeds, require_signer,
  require_token_interface, store,
}
use iron_vault.Security.{require_protocol_active, validate_mint}
use iron_vault.Seeds.{
  protocol_seeds, vault_asset_seeds, vault_seeds, vault_token_seeds, withdrawal_seeds,
}
use iron_vault.State.{
  ProtocolConfig, Pubkey, Vault, VaultAsset, WithdrawalRequest, executed, is_pending,
}
use iron_vault.Transfer.{checked_add_or, transfer_exact}
use iron_vault.Vault.{require_vault_seeds}
use iron_vault.Withdrawal.Request.{request}
use iron_vault.Withdrawal.Window.{next_window_state}

-- The account keys of `ExecuteWithdrawal`.
pub record ExecuteWithdrawal : Type 0 where
  pub caller : Pubkey
  pub protocol_config : Pubkey
  pub vault : Pubkey
  pub mint : Pubkey
  pub vault_asset : Pubkey
  pub withdrawal_request : Pubkey
  pub vault_token : Pubkey
  pub recipient_token : Pubkey
  pub token_program : Pubkey

-- The accounts that validation has read.
pub record ExecuteWithdrawalLoaded : Type 0 where
  pub config : ProtocolConfig
  pub vault : Vault
  pub mint : Interface Mint
  pub asset : VaultAsset
  pub request : WithdrawalRequest
  pub vault_token : Interface TokenAccount
  pub recipient_token : Interface TokenAccount

-- The checks of `execute` before the window.
unfoldable pub check_execute : Context → ExecuteWithdrawalLoaded → Result (Unit {0})
check_execute ctx a = do
  require_protocol_active a.config pause_vault_outflow
  require (is_pending a.request.status) withdrawal_not_pending
  require (leb_ℤ a.request.execute_after ctx.unix_timestamp) withdrawal_timelock_active
  require (leb_ℤ ctx.unix_timestamp a.request.expires_at) withdrawal_request_expired
  require (not a.vault.paused) vault_paused
  require a.asset.enabled vault_asset_disabled
  require (leb a.request.amount a.asset.max_per_transaction) per_transaction_limit_exceeded
  require (leb a.request.amount a.vault_token.state.amount) insufficient_vault_funds

module _ (rt : Runtime) where
  -- The accounts of `ExecuteWithdrawal`, each read as its declared type.
  unfoldable pub load_execute :
      Context → ExecuteWithdrawal → Ledger → Result ExecuteWithdrawalLoaded
  load_execute ctx accounts l = do
    require_signer rt ctx accounts.caller
    config ← load rt read_protocol_config l accounts.protocol_config
    vault ← load rt read_vault l accounts.vault
    mint ← load_interface rt read_mint l accounts.mint
    asset ← load rt read_vault_asset l accounts.vault_asset
    request ← load rt read_withdrawal_request l accounts.withdrawal_request
    vault_token ← load_interface rt read_token l accounts.vault_token
    recipient_token ← load_interface rt read_token l accounts.recipient_token
    ok (record {
      config = config;
      vault = vault;
      mint = mint;
      asset = asset;
      request = request;
      vault_token = vault_token;
      recipient_token = recipient_token;
    })

  -- Their constraints.
  unfoldable pub constrain_execute : ExecuteWithdrawal → ExecuteWithdrawalLoaded → Result (Unit {0})
  constrain_execute accounts a = do
    require_token_interface rt accounts.token_program
    require_seeds rt protocol_seeds a.config.bump accounts.protocol_config
    require_vault_seeds rt a.vault accounts.vault
    validate_mint rt a.mint accounts.token_program
    require_seeds rt (vault_asset_seeds accounts.vault accounts.mint) a.asset.bump
        accounts.vault_asset
    constrain (a.asset.vault == accounts.vault) constraint_has_one
    constrain (a.asset.mint == accounts.mint) constraint_has_one
    constrain (a.asset.token_program == accounts.token_program) constraint_raw
    require_seeds rt (withdrawal_seeds accounts.vault a.request.withdrawal_id) a.request.bump
        accounts.withdrawal_request
    constrain (a.request.vault == accounts.vault) constraint_has_one
    constrain (a.request.vault_asset == accounts.vault_asset) constraint_has_one
    constrain (a.request.mint == accounts.mint) constraint_has_one
    constrain (a.request.token_program == accounts.token_program) constraint_raw
    require_canonical rt (vault_token_seeds accounts.vault accounts.mint) accounts.vault_token
    require (a.vault_token.state.owner == accounts.vault) invalid_vault_custody_balance
    require (a.vault_token.state.mint == accounts.mint) invalid_withdrawal_mint
    require (a.vault_token.program == accounts.token_program) invalid_token_program
    require (accounts.recipient_token == a.request.recipient_token_account)
        invalid_withdrawal_recipient
    require (a.recipient_token.state.owner == a.request.recipient_owner)
        invalid_withdrawal_recipient
    require (a.recipient_token.state.mint == a.request.mint) invalid_withdrawal_mint
    require (a.recipient_token.program == accounts.token_program) invalid_token_program

  unfoldable pub execute : Context → ExecuteWithdrawal → Ledger → Result Effect
  execute ctx accounts l = do
    a ← load_execute ctx accounts l
    constrain_execute accounts a
    check_execute ctx a
    next ← next_window_state a.asset a.request.amount ctx.unix_timestamp
    let custody_before = a.vault_token.state.amount
    let destination_before = a.recipient_token.state.amount
    destination_after ←
        checked_add_or destination_before a.request.amount invalid_withdrawal_destination_balance
    l' ←
        transfer_exact rt ctx
          (record {
            token_program = accounts.token_program;
            from = accounts.vault_token;
            mint = accounts.mint;
            to = accounts.recipient_token;
            authority = accounts.vault;
            signer_seeds =
                some (vault_seeds a.vault.namespace_authority a.vault.vault_id, a.vault.bump);
            amount = a.request.amount;
            decimals = a.mint.state.decimals;
          })
          custody_before (ok destination_after) invalid_vault_custody_balance
          invalid_withdrawal_destination_balance l
    let asset = record a.asset { window_started_at = next.0; window_spent = next.1 }
    ok (record {
      ledger =
          store rt accounts.withdrawal_request
            (Content.withdrawal_request (record a.request { status = executed }))
            (store rt accounts.vault_asset (Content.vault_asset asset) l');
      events =
          withdrawal_executed (record {
            version = initial_schema_version;
            vault = accounts.vault;
            vault_asset = accounts.vault_asset;
            withdrawal_request = accounts.withdrawal_request;
            caller = accounts.caller;
            recipient_token_account = accounts.recipient_token;
            mint = accounts.mint;
            withdrawal_id = a.request.withdrawal_id;
            amount = a.request.amount;
          })
          ∷ [];
    })
