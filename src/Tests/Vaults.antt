-- ===== src/Tests/Vaults.antt =====
-- The properties of assets and vaults at concrete calls.
use iron_vault.Asset.Deposit.{Deposit, check_deposit, deposit_tokens, validate_deposit}
use iron_vault.Asset.Outcome.{deposit-eq_ok}
use iron_vault.Error.{ok}
use iron_vault.Prelude.{[], refl, some, true, ◌+◌, ◌<◌, ◌≡◌, ◌≢◌}
use iron_vault.Prelude.Int.{checked_add}
use iron_vault.Runtime.{
  Content, Context, Effect, Interface, TokenAccount, TransferChecked, invoke_transfer, load,
  load_interface, require_canonical, require_seeds, store,
}
use iron_vault.Runtime.Accounts.{HoldsProgram, HoldsToken, balance}
use iron_vault.Security.{mint_extensions_supported, require_protocol_active, validate_mint}
use iron_vault.Seeds.{vault_token_seeds}
use iron_vault.State.{Vault, VaultAsset, default_key, is_paused}
use iron_vault.Tests.Demo.{
  admin, asset_at, call_of, coin, config_at, demo, demo_ledger, demo_vault, keeper, maker,
  maker_token, outcome, owner, vault_at, vault_token_at,
}
use iron_vault.Tests.Runs.{
  execute_accounts, owner_call, pause_call, request_accounts, withdraw_accounts, withdraw_call,
  withdraw_effect,
}
use iron_vault.Transfer.{transfer_exact}
use iron_vault.Vault.{PauseVault, SetVaultAuthority, pause, set_authority}
use iron_vault.Vault.Outcome.{set_authority-eq_ok}
use iron_vault.Withdrawal.Closed.{paused_vault_is_closed}
use iron_vault.Withdrawal.Execute.{execute}
use iron_vault.Withdrawal.Instant.{withdraw_tokens}
use iron_vault.Withdrawal.Request.{request}

abbrev deposit_accounts : Deposit
deposit_accounts = record {
  depositor = maker;
  vault = vault_at;
  mint = coin;
  vault_asset = asset_at;
  source_token = maker_token;
  vault_token = vault_token_at;
  token_program = 2;
}

abbrev deposit_call : Context
deposit_call = call_of maker 450 []

abbrev deposit_effect : Effect
deposit_effect = outcome (deposit_tokens demo deposit_call deposit_accounts 25 demo_ledger)

deposit_runs : deposit_tokens demo deposit_call deposit_accounts 25 demo_ledger ≡ ok deposit_effect
unfolding deposit_tokens validate_deposit check_deposit load load_interface require_seeds
    require_canonical validate_mint mint_extensions_supported transfer_exact invoke_transfer
    checked_add
deposit_runs = refl

abbrev authority_accounts : SetVaultAuthority
authority_accounts = record {
  current_authority = owner;
  protocol_config = config_at;
  vault = vault_at;
}

abbrev authority_effect : Effect
authority_effect = outcome (set_authority demo owner_call authority_accounts admin demo_ledger)

authority_runs :
    set_authority demo owner_call authority_accounts admin demo_ledger ≡ ok authority_effect
unfolding set_authority load require_seeds require_protocol_active is_paused
authority_runs = refl

abbrev stop_accounts : PauseVault
stop_accounts = record { caller = keeper; vault = vault_at }

abbrev stop_effect : Effect
stop_effect = outcome (pause demo pause_call stop_accounts demo_ledger)

stop_runs : pause demo pause_call stop_accounts demo_ledger ≡ ok stop_effect
unfolding pause load require_seeds
stop_runs = refl

abbrev closed_vault : Vault
closed_vault = record demo_vault { paused = true }

vault_is_closed : HoldsProgram demo stop_effect.ledger vault_at (Content.vault closed_vault)
unfolding pause load require_seeds
vault_is_closed = refl

paused_vault_is_closed_example :
    (withdraw_tokens demo withdraw_call withdraw_accounts 50 stop_effect.ledger
      ≢ ok withdraw_effect)
    × (request demo withdraw_call request_accounts 50 stop_effect.ledger ≢ ok withdraw_effect)
    × (execute demo withdraw_call execute_accounts stop_effect.ledger ≢ ok withdraw_effect)
paused_vault_is_closed_example =
    paused_vault_is_closed demo withdraw_call stop_effect.ledger withdraw_effect vault_at
      closed_vault withdraw_accounts request_accounts execute_accounts 50 vault_is_closed refl refl
      refl refl

deposit-eq_ok_example :
    (asset : VaultAsset) × (t : TransferChecked) × (source custody : Interface TokenAccount)
    × HoldsProgram demo demo_ledger deposit_accounts.vault_asset (Content.vault_asset asset)
    × HoldsToken demo_ledger deposit_accounts.source_token source
    × HoldsToken demo_ledger deposit_accounts.vault_token custody
    × (asset.enabled ≡ true)
    × (0 < 25)
    × (source.state.owner ≡ deposit_accounts.depositor)
    × (deposit_call.signers deposit_accounts.depositor ≡ true)
    × (deposit_accounts.vault_token
        ≡ (demo.find_program_address
            (vault_token_seeds deposit_accounts.vault deposit_accounts.mint)).0)
    × (t.from ≡ deposit_accounts.source_token)
    × (t.to ≡ deposit_accounts.vault_token)
    × (demo.transfer_checked deposit_call.signers t demo_ledger ≡ some deposit_effect.ledger)
    × (balance deposit_effect.ledger deposit_accounts.source_token + 25
        ≡ balance demo_ledger deposit_accounts.source_token)
    × (balance deposit_effect.ledger deposit_accounts.vault_token
        ≡ balance demo_ledger deposit_accounts.vault_token + 25)
deposit-eq_ok_example =
    deposit-eq_ok demo deposit_call demo_ledger deposit_effect deposit_accounts 25 deposit_runs

set_authority-eq_ok_example :
    (vault : Vault) × (owner_call.signers vault.authority ≡ true)
    × HoldsProgram demo demo_ledger authority_accounts.vault (Content.vault vault)
    × (admin ≢ default_key)
    × (admin ≢ vault.authority)
    × (admin ≢ vault.guardian)
    × (authority_effect.ledger
        ≡ store demo authority_accounts.vault
            (Content.vault (record vault { authority = admin }))
            demo_ledger)
set_authority-eq_ok_example =
    set_authority-eq_ok demo owner_call demo_ledger authority_effect authority_accounts admin
      authority_runs
