-- ===== src/Withdrawal/Instant.antt =====
-- programs/iron_vault/src/instructions/withdraw.rs
use iron_vault.Constants.{initial_schema_version, pause_vault_outflow, permission_withdraw}
use iron_vault.Error.{
  Result, constrain, constraint_has_one, constraint_raw, insufficient_vault_funds,
  invalid_token_program, invalid_vault_amount, invalid_vault_custody_balance,
  invalid_withdrawal_destination_balance, invalid_withdrawal_destination_mint,
  missing_vault_permission, ok, per_transaction_limit_exceeded, require, timelock_required,
  unexpected_withdrawal_accounts, vault_asset_disabled, vault_paused, ◌>>=◌, ◌>>◌,
}
use iron_vault.Events.{vault_withdrawal}
use iron_vault.Prelude.{[], if◌then◌else◌, leb, ltb, not, some, ℕ, ◌==◌, ◌∷◌}
use iron_vault.Prelude.Int.{ltb_ℤ, pos, ℤ}
use iron_vault.Runtime.{
  Content, Context, Effect, Interface, Ledger, Mint, Runtime, TokenAccount, load, load_interface,
  read_mint, read_protocol_config, read_token, read_vault, read_vault_asset, require_canonical,
  require_seeds, require_signer, require_token_interface, store,
}
use iron_vault.Security.{authorize, require_protocol_active, validate_mint}
use iron_vault.Seeds.{protocol_seeds, vault_asset_seeds, vault_seeds, vault_token_seeds}
use iron_vault.State.{ProtocolConfig, Pubkey, Vault, VaultAsset}
use iron_vault.Transfer.{checked_add_or, transfer_exact}
use iron_vault.Vault.{require_vault_seeds}
use iron_vault.Withdrawal.Window.{next_window_state}

-- The account keys of `Withdraw`.
pub record Withdraw : Type 0 where
  pub caller : Pubkey
  pub protocol_config : Pubkey
  pub vault : Pubkey
  pub mint : Pubkey
  pub vault_asset : Pubkey
  pub vault_token : Pubkey
  pub destination_token : Pubkey
  pub token_program : Pubkey

-- The accounts that validation has read.
pub record WithdrawLoaded : Type 0 where
  pub config : ProtocolConfig
  pub vault : Vault
  pub mint : Interface Mint
  pub asset : VaultAsset
  pub vault_token : Interface TokenAccount
  pub destination_token : Interface TokenAccount

-- The amount, state and limit checks of `withdraw_tokens`, in its order.
unfoldable pub check_withdraw : WithdrawLoaded → ℕ → Result (Unit {0})
check_withdraw a amount = do
  require (ltb 0 amount) invalid_vault_amount
  require (not a.vault.paused) vault_paused
  require a.asset.enabled vault_asset_disabled
  require (leb amount a.asset.max_per_transaction) per_transaction_limit_exceeded
  require (leb amount a.asset.timelock_threshold) timelock_required
  require (leb amount a.vault_token.state.amount) insufficient_vault_funds

-- The asset after an instant withdrawal: the window moves only where there is one.
abbrev pub spend_window : VaultAsset → ℤ × ℕ → VaultAsset
spend_window asset (start, spent) =
    if ltb_ℤ (pos 0) asset.window_seconds
    then record asset { window_started_at = start; window_spent = spent }
    else asset

module _ (rt : Runtime) where
  unfoldable pub validate_withdraw : Context → Withdraw → Ledger → Result WithdrawLoaded
  validate_withdraw ctx accounts l = do
    require_signer rt ctx accounts.caller
    config ← load rt read_protocol_config l accounts.protocol_config
    vault ← load rt read_vault l accounts.vault
    mint ← load_interface rt read_mint l accounts.mint
    asset ← load rt read_vault_asset l accounts.vault_asset
    vault_token ← load_interface rt read_token l accounts.vault_token
    destination_token ← load_interface rt read_token l accounts.destination_token
    require_token_interface rt accounts.token_program
    require_seeds rt protocol_seeds config.bump accounts.protocol_config
    require_vault_seeds rt vault accounts.vault
    validate_mint rt mint accounts.token_program
    require_seeds rt (vault_asset_seeds accounts.vault accounts.mint) asset.bump
        accounts.vault_asset
    constrain (asset.vault == accounts.vault) constraint_has_one
    constrain (asset.mint == accounts.mint) constraint_has_one
    constrain (asset.token_program == accounts.token_program) constraint_raw
    require_canonical rt (vault_token_seeds accounts.vault accounts.mint) accounts.vault_token
    require (vault_token.state.owner == accounts.vault) invalid_vault_custody_balance
    require (vault_token.state.mint == asset.mint) invalid_withdrawal_destination_mint
    require (vault_token.program == accounts.token_program) invalid_token_program
    require (destination_token.state.mint == asset.mint) invalid_withdrawal_destination_mint
    require (destination_token.program == accounts.token_program) invalid_token_program
    ok (record {
      config = config;
      vault = vault;
      mint = mint;
      asset = asset;
      vault_token = vault_token;
      destination_token = destination_token;
    })

  -- The authorization at the head of `withdraw_tokens`.
  unfoldable pub authorize_withdraw : Context → Withdraw → Vault → Ledger → Result (Unit {0})
  authorize_withdraw ctx accounts vault l =
      authorize rt l ctx (accounts.caller == vault.authority) accounts.vault accounts.caller
        permission_withdraw unexpected_withdrawal_accounts missing_vault_permission

  unfoldable pub withdraw_tokens : Context → Withdraw → ℕ → Ledger → Result Effect
  withdraw_tokens ctx accounts amount l = do
    a ← validate_withdraw ctx accounts l
    require_protocol_active a.config pause_vault_outflow
    authorize_withdraw ctx accounts a.vault l
    check_withdraw a amount
    next ← next_window_state a.asset amount ctx.unix_timestamp
    let custody_before = a.vault_token.state.amount
    let destination_before = a.destination_token.state.amount
    destination_after ←
        checked_add_or destination_before amount invalid_withdrawal_destination_balance
    l' ←
        transfer_exact rt ctx
          (record {
            token_program = accounts.token_program;
            from = accounts.vault_token;
            mint = accounts.mint;
            to = accounts.destination_token;
            authority = accounts.vault;
            signer_seeds =
                some (vault_seeds a.vault.namespace_authority a.vault.vault_id, a.vault.bump);
            amount = amount;
            decimals = a.mint.state.decimals;
          })
          custody_before (ok destination_after) invalid_vault_custody_balance
          invalid_withdrawal_destination_balance l
    ok (record {
      ledger = store rt accounts.vault_asset (Content.vault_asset (spend_window a.asset next)) l';
      events =
          vault_withdrawal (record {
            version = initial_schema_version;
            vault = accounts.vault;
            vault_asset = accounts.vault_asset;
            vault_token = accounts.vault_token;
            caller = accounts.caller;
            destination_token = accounts.destination_token;
            mint = accounts.mint;
            amount = amount;
          })
          ∷ [];
    })
