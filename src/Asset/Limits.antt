-- ===== src/Asset/Limits.antt =====
-- programs/iron_vault/src/instructions/update_limits.rs
use iron_vault.Constants.{initial_schema_version, pause_vault_config, permission_manage_limits}
use iron_vault.Error.{
  Result, constrain, constraint_has_one, invalid_withdrawal_policy, live_window_duration_change,
  missing_vault_permission, ok, ok_or, program, require, unexpected_limit_accounts,
  withdrawal_policy_overflow, ◌>>=◌, ◌>>◌,
}
use iron_vault.Events.{vault_limits_updated}
use iron_vault.Prelude.{Bool, [], if◌then◌else◌, leb, ltb, not, ℕ, ◌&&◌, ◌==◌, ◌∷◌}
use iron_vault.Prelude.Int.{checked_add_i64, eqb_ℤ, leb_ℤ, ltb_ℤ, pos, ℤ}
use iron_vault.Runtime.{
  Content, Context, Effect, Ledger, Runtime, load, load_interface, read_mint, read_protocol_config,
  read_vault, read_vault_asset, require_seeds, require_signer, store,
}
use iron_vault.Security.{authorize, require_protocol_active, validate_mint}
use iron_vault.Seeds.{protocol_seeds, vault_asset_seeds}
use iron_vault.State.{ProtocolConfig, Pubkey, Vault, VaultAsset}
use iron_vault.Vault.{require_vault_seeds}

-- The account keys of `UpdateLimits`.
pub record UpdateLimits : Type 0 where
  pub caller : Pubkey
  pub protocol_config : Pubkey
  pub vault : Pubkey
  pub mint : Pubkey
  pub vault_asset : Pubkey

-- The arguments of `update`.
pub record Policy : Type 0 where
  pub max_per_transaction : ℕ
  pub window_limit : ℕ
  pub window_seconds : ℤ
  pub timelock_threshold : ℕ
  pub timelock_seconds : ℤ
  pub request_execution_window_seconds : ℤ

-- The accounts that validation has read.
pub record UpdateLimitsLoaded : Type 0 where
  pub config : ProtocolConfig
  pub vault : Vault
  pub asset : VaultAsset

-- The condition of the `require!` in `update`.
unfoldable pub is_valid_policy : Policy → Bool
is_valid_policy p =
    ltb 0 p.max_per_transaction
    && (ltb 0 p.window_limit
        && (ltb_ℤ (pos 0) p.window_seconds
            && (leb p.max_per_transaction p.window_limit
                && (leb p.timelock_threshold p.max_per_transaction
                    && (ltb_ℤ (pos 0) p.timelock_seconds
                        && ltb_ℤ (pos 0) p.request_execution_window_seconds)))))

-- The start and the spend of the window after the change of its duration.
unfoldable pub rewindow : VaultAsset → ℤ → ℤ → Result (ℤ × ℕ)
rewindow asset window_seconds now =
    if eqb_ℤ asset.window_seconds (pos 0)
    then ok (now, 0)
    else if not (eqb_ℤ asset.window_seconds window_seconds)
    then (do
      current_window_ends ←
          ok_or (checked_add_i64 asset.window_started_at asset.window_seconds)
            (program withdrawal_policy_overflow)
      require (leb_ℤ current_window_ends now) live_window_duration_change
      ok (now, 0))
    else ok (asset.window_started_at, asset.window_spent)

-- The asset with the new policy and window.
abbrev pub with_policy : VaultAsset → Policy → ℤ × ℕ → VaultAsset
with_policy asset p (started_at, spent) = record asset {
  window_started_at = started_at;
  window_spent = spent;
  max_per_transaction = p.max_per_transaction;
  window_limit = p.window_limit;
  window_seconds = p.window_seconds;
  timelock_threshold = p.timelock_threshold;
  timelock_seconds = p.timelock_seconds;
  request_execution_window_seconds = p.request_execution_window_seconds;
}

module _ (rt : Runtime) where
  unfoldable pub validate_update_limits :
      Context → UpdateLimits → Ledger → Result UpdateLimitsLoaded
  validate_update_limits ctx accounts l = do
    require_signer rt ctx accounts.caller
    config ← load rt read_protocol_config l accounts.protocol_config
    vault ← load rt read_vault l accounts.vault
    mint ← load_interface rt read_mint l accounts.mint
    asset ← load rt read_vault_asset l accounts.vault_asset
    require_seeds rt protocol_seeds config.bump accounts.protocol_config
    require_vault_seeds rt vault accounts.vault
    validate_mint rt mint asset.token_program
    require_seeds rt (vault_asset_seeds accounts.vault accounts.mint) asset.bump
        accounts.vault_asset
    constrain (asset.vault == accounts.vault) constraint_has_one
    constrain (asset.mint == accounts.mint) constraint_has_one
    ok (record { config = config; vault = vault; asset = asset })

  -- `update_limits::authorize`
  unfoldable pub authorize_update : Context → UpdateLimits → Vault → Ledger → Result (Unit {0})
  authorize_update ctx accounts vault l =
      authorize rt l ctx (accounts.caller == vault.authority) accounts.vault accounts.caller
        permission_manage_limits unexpected_limit_accounts missing_vault_permission

  unfoldable pub update_policy : Context → UpdateLimits → Policy → Ledger → Result Effect
  update_policy ctx accounts p l = do
    a ← validate_update_limits ctx accounts l
    require_protocol_active a.config pause_vault_config
    authorize_update ctx accounts a.vault l
    require (is_valid_policy p) invalid_withdrawal_policy
    (started_at, spent) ← rewindow a.asset p.window_seconds ctx.unix_timestamp
    let asset = with_policy a.asset p (started_at, spent)
    ok (record {
      ledger = store rt accounts.vault_asset (Content.vault_asset asset) l;
      events =
          vault_limits_updated (record {
            version = initial_schema_version;
            vault = accounts.vault;
            vault_asset = accounts.vault_asset;
            mint = asset.mint;
            caller = accounts.caller;
            max_per_transaction = p.max_per_transaction;
            window_limit = p.window_limit;
            window_seconds = p.window_seconds;
            timelock_threshold = p.timelock_threshold;
            timelock_seconds = p.timelock_seconds;
            request_execution_window_seconds = p.request_execution_window_seconds;
            window_started_at = started_at;
            window_spent = spent;
          })
          ∷ [];
    })
