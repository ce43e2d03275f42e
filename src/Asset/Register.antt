-- ===== src/Asset/Register.antt =====
-- programs/iron_vault/src/instructions/register_asset.rs
use iron_vault.Constants.{initial_schema_version, pause_vault_config}
use iron_vault.Error.{Result, invalid_vault_authority, ok, require, ◌>>=◌, ◌>>◌}
use iron_vault.Events.{vault_asset_registered}
use iron_vault.Prelude.{[], replicate, true, ℕ, ◌==◌, ◌∷◌}
use iron_vault.Prelude.Int.{pos, u64_max, ℤ}
use iron_vault.Runtime.{
  Content, Context, Effect, Ledger, Runtime, empty_token, init, load, load_interface, read_mint,
  read_protocol_config, read_vault, require_seeds, require_signer, require_token_interface, store,
  store_token,
}
use iron_vault.Security.{require_protocol_active, validate_mint}
use iron_vault.Seeds.{protocol_seeds, vault_asset_seeds, vault_token_seeds}
use iron_vault.State.{Pubkey, VaultAsset}
use iron_vault.Vault.{require_vault_seeds}

-- The account keys of `RegisterAsset`.
pub record RegisterAsset : Type 0 where
  pub authority : Pubkey
  pub protocol_config : Pubkey
  pub vault : Pubkey
  pub mint : Pubkey
  pub vault_asset : Pubkey
  pub vault_token : Pubkey
  pub token_program : Pubkey

-- `VaultAsset` as the handler fills it in: no limit, no timelock, no window.
abbrev pub new_asset : RegisterAsset → ℕ → ℤ → VaultAsset
new_asset accounts bump now = record {
  vault = accounts.vault;
  mint = accounts.mint;
  token_program = accounts.token_program;
  max_per_transaction = u64_max;
  window_limit = u64_max;
  window_seconds = pos 0;
  window_started_at = now;
  window_spent = 0;
  timelock_threshold = u64_max;
  timelock_seconds = pos 0;
  request_execution_window_seconds = pos 0;
  enabled = true;
  bump = bump;
  reserved = replicate 30 0;
}

module _ (rt : Runtime) where
  unfoldable pub register_vault_asset : Context → RegisterAsset → Ledger → Result Effect
  register_vault_asset ctx accounts l = do
    require_signer rt ctx accounts.authority
    config ← load rt read_protocol_config l accounts.protocol_config
    vault ← load rt read_vault l accounts.vault
    mint ← load_interface rt read_mint l accounts.mint
    require_token_interface rt accounts.token_program
    bump ← init rt (vault_asset_seeds accounts.vault accounts.mint) l accounts.vault_asset
    let with_asset = store rt accounts.vault_asset Content.other l
    _ ← init rt (vault_token_seeds accounts.vault accounts.mint) with_asset accounts.vault_token
    let with_custody =
        store_token accounts.vault_token accounts.token_program
          (empty_token accounts.mint accounts.vault) with_asset
    require_seeds rt protocol_seeds config.bump accounts.protocol_config
    require_vault_seeds rt vault accounts.vault
    require (vault.authority == accounts.authority) invalid_vault_authority
    validate_mint rt mint accounts.token_program
    require_protocol_active config pause_vault_config
    ok (record {
      ledger =
          store rt accounts.vault_asset
            (Content.vault_asset (new_asset accounts bump ctx.unix_timestamp)) with_custody;
      events =
          vault_asset_registered (record {
            version = initial_schema_version;
            vault = accounts.vault;
            vault_asset = accounts.vault_asset;
            vault_token = accounts.vault_token;
            mint = accounts.mint;
            token_program = accounts.token_program;
          })
          ∷ [];
    })
