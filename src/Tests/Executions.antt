-- ===== src/Tests/Executions.antt =====
-- An execution that the theorem on open executions allows.
use iron_vault.Constants.{pause_vault_outflow}
use iron_vault.Error.{ok}
use iron_vault.Prelude.{Option, [], arith, false, none, refl, some, ℕ, ◌≡◌}
use iron_vault.Prelude.Int.{checked_add, checked_add_i64, pos, ◌+ℤ◌}
use iron_vault.Runtime.{
  Effect, Interface, Ledger, TokenAccount, load, load_interface, read_token, require_canonical,
  require_seeds,
}
use iron_vault.Security.{mint_extensions_supported, validate_mint}
use iron_vault.State.{Pubkey, is_paused}
use iron_vault.Tests.Demo.{
  coin, demo, demo_asset, demo_config, demo_ledger, demo_request, demo_vault, recipient,
  recipient_token, vault_at, vault_token_at,
}
use iron_vault.Tests.Runs.{execute_accounts, execute_call}
use iron_vault.Withdrawal.Execute.{
  ExecuteWithdrawalLoaded, constrain_execute, execute, load_execute,
}
use iron_vault.Withdrawal.Open.{execute_is_open, execute_transfer}
use iron_vault.Withdrawal.Window.{next_window_state}

abbrev coins_of : Pubkey → ℕ → Interface TokenAccount
coins_of holder amount = record {
  program = 2;
  state = record { mint = coin; owner = holder; amount = amount };
}

abbrev execute_loaded : ExecuteWithdrawalLoaded
execute_loaded = record {
  config = demo_config;
  vault = demo_vault;
  mint = record { program = 2; state = record { decimals = 6; extension_types = some [] } };
  asset = demo_asset;
  request = demo_request;
  vault_token = coins_of vault_at 900;
  recipient_token = coins_of recipient 5;
}

abbrev ledger_of : Option Ledger → Ledger
ledger_of none = λ k. none
ledger_of (some l) = l

abbrev executed_ledger : Ledger
executed_ledger = ledger_of (
    demo.transfer_checked execute_call.signers (execute_transfer execute_accounts execute_loaded)
      demo_ledger)

execute_is_loaded : load_execute demo execute_call execute_accounts demo_ledger ≡ ok execute_loaded
unfolding load_execute load load_interface
execute_is_loaded = refl

execute_is_constrained : constrain_execute demo execute_accounts execute_loaded ≡ ok tt
unfolding constrain_execute require_seeds require_canonical validate_mint mint_extensions_supported
execute_is_constrained = refl

outflows_run : is_paused demo_config pause_vault_outflow ≡ false
unfolding is_paused
outflows_run = refl

window_takes_it : next_window_state demo_asset 80 (pos 450) ≡ ok (pos 400, 100)
unfolding next_window_state checked_add checked_add_i64 ◌+ℤ◌
window_takes_it = refl

vault_has_paid :
    load_interface demo read_token executed_ledger vault_token_at ≡ ok (coins_of vault_at 820)
unfolding load_interface
vault_has_paid = refl

recipient_has_it :
    load_interface demo read_token executed_ledger recipient_token ≡ ok (coins_of recipient 85)
unfolding load_interface
recipient_has_it = refl

execute_is_open_example :
    (e : Effect) × (execute demo execute_call execute_accounts demo_ledger ≡ ok e)
execute_is_open_example =
    execute_is_open demo execute_call execute_accounts demo_ledger executed_ledger execute_loaded
      (pos 400, 100) (coins_of vault_at 820) (coins_of recipient 85) execute_is_loaded
      execute_is_constrained outflows_run refl refl (omega arith) (omega arith) refl (omega arith)
      window_takes_it (omega arith) (omega arith) refl vault_has_paid recipient_has_it refl refl
