-- ===== src/Vault.antt =====
-- The vault account: programs/iron_vault/src/instructions/create_vault.rs, set_vault_authority.rs
-- and pause_vault.rs.
pub mod Outcome
use iron_vault.Constants.{initial_schema_version, pause_vault_config}
use iron_vault.Error.{
  Result, invalid_new_vault_authority, invalid_vault_authority, invalid_vault_guardian, ok, require,
  unauthorized_vault_pause, unauthorized_vault_unpause, vault_pause_unchanged, ◌>>=◌, ◌>>◌,
}
use iron_vault.Events.{vault_authority_updated, vault_created, vault_pause_updated}
use iron_vault.Prelude.{[], false, not, replicate, true, ℕ, ◌!=◌, ◌&&◌, ◌==◌, ◌||◌, ◌∷◌}
use iron_vault.Runtime.{
  Content, Context, Effect, Ledger, Runtime, init, load, read_protocol_config, read_vault,
  require_seeds, require_signer, store,
}
use iron_vault.Security.{require_protocol_active}
use iron_vault.Seeds.{protocol_seeds, vault_seeds}
use iron_vault.State.{Pubkey, Vault, default_key}

-- The account keys of `CreateVault`.
pub record CreateVault : Type 0 where
  pub authority : Pubkey
  pub protocol_config : Pubkey
  pub vault : Pubkey

-- The account keys of `SetVaultAuthority`.
pub record SetVaultAuthority : Type 0 where
  pub current_authority : Pubkey
  pub protocol_config : Pubkey
  pub vault : Pubkey

-- The account keys of `PauseVault`.
pub record PauseVault : Type 0 where
  pub caller : Pubkey
  pub vault : Pubkey

-- The account keys of `UnpauseVault`.
pub record UnpauseVault : Type 0 where
  pub authority : Pubkey
  pub vault : Pubkey

module _ (rt : Runtime) where
  unfoldable pub create_vault_account : Context → CreateVault → ℕ → Pubkey → Ledger → Result Effect
  create_vault_account ctx accounts vault_id guardian l = do
    require_signer rt ctx accounts.authority
    config ← load rt read_protocol_config l accounts.protocol_config
    bump ← init rt (vault_seeds accounts.authority vault_id) l accounts.vault
    require_seeds rt protocol_seeds config.bump accounts.protocol_config
    require_protocol_active config pause_vault_config
    let authority = accounts.authority
    require (guardian != default_key && guardian != authority) invalid_vault_guardian
    let vault : Vault = record {
      namespace_authority = authority;
      authority = authority;
      guardian = guardian;
      vault_id = vault_id;
      next_withdrawal_id = 0;
      paused = false;
      bump = bump;
      reserved = replicate 46 0;
    }
    ok (record {
      ledger = store rt accounts.vault (Content.vault vault) l;
      events =
          vault_created (record {
            version = initial_schema_version;
            vault = accounts.vault;
            namespace_authority = authority;
            authority = authority;
            guardian = guardian;
            vault_id = vault_id;
          })
          ∷ [];
    })

  -- The seeds that every instruction checks of an existing `vault` account.
  abbrev pub require_vault_seeds : Vault → Pubkey → Result (Unit {0})
  require_vault_seeds vault k =
      require_seeds rt (vault_seeds vault.namespace_authority vault.vault_id) vault.bump k

  unfoldable pub set_authority : Context → SetVaultAuthority → Pubkey → Ledger → Result Effect
  set_authority ctx accounts new_authority l = do
    require_signer rt ctx accounts.current_authority
    config ← load rt read_protocol_config l accounts.protocol_config
    vault ← load rt read_vault l accounts.vault
    require_seeds rt protocol_seeds config.bump accounts.protocol_config
    require_vault_seeds vault accounts.vault
    require (vault.authority == accounts.current_authority) invalid_vault_authority
    require_protocol_active config pause_vault_config
    let previous_authority = vault.authority
    require
        (new_authority != default_key
          && new_authority != previous_authority
          && new_authority != vault.guardian)
        invalid_new_vault_authority
    ok (record {
      ledger =
          store rt accounts.vault (Content.vault (record vault { authority = new_authority })) l;
      events =
          vault_authority_updated (record {
            version = initial_schema_version;
            vault = accounts.vault;
            previous_authority = previous_authority;
            new_authority = new_authority;
          })
          ∷ [];
    })

  -- `pause_vault::pause`
  unfoldable pub pause : Context → PauseVault → Ledger → Result Effect
  pause ctx accounts l = do
    require_signer rt ctx accounts.caller
    vault ← load rt read_vault l accounts.vault
    require_vault_seeds vault accounts.vault
    require (accounts.caller == vault.authority || accounts.caller == vault.guardian)
        unauthorized_vault_pause
    require (not vault.paused) vault_pause_unchanged
    ok (record {
      ledger = store rt accounts.vault (Content.vault (record vault { paused = true })) l;
      events =
          vault_pause_updated (record {
            version = initial_schema_version;
            vault = accounts.vault;
            caller = accounts.caller;
            paused = true;
          })
          ∷ [];
    })

  -- `pause_vault::unpause`
  unfoldable pub unpause : Context → UnpauseVault → Ledger → Result Effect
  unpause ctx accounts l = do
    require_signer rt ctx accounts.authority
    vault ← load rt read_vault l accounts.vault
    require_vault_seeds vault accounts.vault
    require (vault.authority == accounts.authority) unauthorized_vault_unpause
    require vault.paused vault_pause_unchanged
    ok (record {
      ledger = store rt accounts.vault (Content.vault (record vault { paused = false })) l;
      events =
          vault_pause_updated (record {
            version = initial_schema_version;
            vault = accounts.vault;
            caller = accounts.authority;
            paused = false;
          })
          ∷ [];
    })
