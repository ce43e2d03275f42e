-- ===== src/Asset/Deposit.antt =====
-- programs/iron_vault/src/instructions/deposit.rs
use iron_vault.Constants.{initial_schema_version}
use iron_vault.Error.{
  Result, constrain, constraint_has_one, constraint_raw, insufficient_funds,
  invalid_deposit_source_balance, invalid_deposit_source_mint, invalid_deposit_source_owner,
  invalid_token_program, invalid_vault_amount, invalid_vault_custody_balance, ok, require,
  vault_asset_disabled, ◌>>=◌, ◌>>◌,
}
use iron_vault.Events.{vault_deposit}
use iron_vault.Prelude.{[], leb, ltb, none, ℕ, ◌==◌, ◌∷◌}
use iron_vault.Runtime.{
  Context, Effect, Interface, Ledger, Mint, Runtime, TokenAccount, load, load_interface, read_mint,
  read_token, read_vault, read_vault_asset, require_canonical, require_seeds, require_signer,
  require_token_interface,
}
use iron_vault.Security.{validate_mint}
use iron_vault.Seeds.{vault_asset_seeds, vault_token_seeds}
use iron_vault.State.{Pubkey, Vault, VaultAsset}
use iron_vault.Transfer.{checked_add_or, transfer_exact}
use iron_vault.Vault.{require_vault_seeds}

-- The account keys of `Deposit`.
pub record Deposit : Type 0 where
  pub depositor : Pubkey
  pub vault : Pubkey
  pub mint : Pubkey
  pub vault_asset : Pubkey
  pub source_token : Pubkey
  pub vault_token : Pubkey
  pub token_program : Pubkey

-- The accounts that validation has read.
pub record DepositLoaded : Type 0 where
  pub vault : Vault
  pub mint : Interface Mint
  pub asset : VaultAsset
  pub source_token : Interface TokenAccount
  pub vault_token : Interface TokenAccount

-- The checks of `deposit_tokens`; the result is the custody balance that it expects.
unfoldable pub check_deposit : DepositLoaded → ℕ → Result ℕ
check_deposit a amount = do
  require (ltb 0 amount) invalid_vault_amount
  require a.asset.enabled vault_asset_disabled
  require (leb amount a.source_token.state.amount) insufficient_funds
  checked_add_or a.vault_token.state.amount amount invalid_vault_custody_balance

module _ (rt : Runtime) where
  unfoldable pub validate_deposit : Context → Deposit → Ledger → Result DepositLoaded
  validate_deposit ctx accounts l = do
    require_signer rt ctx accounts.depositor
    vault ← load rt read_vault l accounts.vault
    mint ← load_interface rt read_mint l accounts.mint
    asset ← load rt read_vault_asset l accounts.vault_asset
    source_token ← load_interface rt read_token l accounts.source_token
    vault_token ← load_interface rt read_token l accounts.vault_token
    require_token_interface rt accounts.token_program
    require_vault_seeds rt vault accounts.vault
    validate_mint rt mint accounts.token_program
    require_seeds rt (vault_asset_seeds accounts.vault accounts.mint) asset.bump
        accounts.vault_asset
    constrain (asset.vault == accounts.vault) constraint_has_one
    constrain (asset.mint == accounts.mint) constraint_has_one
    constrain (asset.token_program == accounts.token_program) constraint_raw
    require (source_token.state.owner == accounts.depositor) invalid_deposit_source_owner
    require (source_token.state.mint == asset.mint) invalid_deposit_source_mint
    require (source_token.program == accounts.token_program) invalid_token_program
    require_canonical rt (vault_token_seeds accounts.vault accounts.mint) accounts.vault_token
    require (vault_token.state.owner == accounts.vault) invalid_vault_custody_balance
    require (vault_token.state.mint == asset.mint) invalid_deposit_source_mint
    require (vault_token.program == accounts.token_program) invalid_token_program
    ok (record {
      vault = vault;
      mint = mint;
      asset = asset;
      source_token = source_token;
      vault_token = vault_token;
    })

  unfoldable pub deposit_tokens : Context → Deposit → ℕ → Ledger → Result Effect
  deposit_tokens ctx accounts amount l = do
    a ← validate_deposit ctx accounts l
    custody_after ← check_deposit a amount
    let source_before = a.source_token.state.amount
    l' ←
        transfer_exact rt ctx
          (record {
            token_program = accounts.token_program;
            from = accounts.source_token;
            mint = accounts.mint;
            to = accounts.vault_token;
            authority = accounts.depositor;
            signer_seeds = none;
            amount = amount;
            decimals = a.mint.state.decimals;
          })
          source_before (ok custody_after) invalid_deposit_source_balance
          invalid_vault_custody_balance l
    ok (record {
      ledger = l';
      events =
          vault_deposit (record {
            version = initial_schema_version;
            vault = accounts.vault;
            vault_asset = accounts.vault_asset;
            vault_token = accounts.vault_token;
            depositor = accounts.depositor;
            source_token = accounts.source_token;
            mint = accounts.mint;
            amount = amount;
          })
          ∷ [];
    })
