-- ===== src/Tests/Windows.antt =====
-- The properties of the outflow window at a run of two outflows and at a change of limits.
use iron_vault.Asset.Limits.{
  Policy, UpdateLimits, authorize_update, is_valid_policy, rewindow, update_policy,
  validate_update_limits,
}
use iron_vault.Asset.Window.{limits_keep_live_window}
use iron_vault.Error.{ok}
use iron_vault.Prelude.{[], arith, refl, ◌+◌, ◌≡◌, ◌≤◌}
use iron_vault.Prelude.Int.{checked_add, checked_add_i64, pos, ◌+ℤ◌, ◌<ℤ◌}
use iron_vault.Runtime.{
  Content, Context, Effect, invoke_transfer, load, load_interface, require_canonical, require_seeds,
}
use iron_vault.Runtime.Accounts.{HoldsProgram}
use iron_vault.Security.{
  authorize, mint_extensions_supported, require_protocol_active, validate_mint,
  validate_role_permission,
}
use iron_vault.State.{has, is_paused}
use iron_vault.Tests.Demo.{
  asset_at, call_of, coin, config_at, demo, demo_asset, demo_ledger, demo_request, outcome, owner,
  request_at, vault_at,
}
use iron_vault.Tests.Runs.{
  execute_accounts, execute_call, withdraw_accounts, withdraw_call, withdraw_effect, withdraw_runs,
}
use iron_vault.Transfer.{transfer_exact}
use iron_vault.Withdrawal.Capacity.{
  Outflows, no_outflow, paid_directly, paid_on_request, window_capacity,
}
use iron_vault.Withdrawal.Execute.{check_execute, constrain_execute, execute, load_execute}
use iron_vault.Withdrawal.Instant.{
  authorize_withdraw, check_withdraw, validate_withdraw, withdraw_tokens,
}
use iron_vault.Withdrawal.Window.{next_window_state}

one_charge : next_window_state demo_asset 70 (pos 450) ≡ ok (pos 400, 90)
unfolding next_window_state checked_add checked_add_i64 ◌+ℤ◌
one_charge = refl

late_charge : next_window_state demo_asset 70 (pos 460) ≡ ok (pos 460, 70)
unfolding next_window_state checked_add checked_add_i64 ◌+ℤ◌
late_charge = refl

is_in_window : pos 450 <ℤ (pos 400 +ℤ pos 60)
unfolding ◌+ℤ◌
is_in_window = omega arith

-- After the instant withdrawal of 50 the request for 80 is executed: with the 20 spent before they
-- use up the limit.
abbrev second_effect : Effect
second_effect = outcome (execute demo execute_call execute_accounts withdraw_effect.ledger)

second_runs : execute demo execute_call execute_accounts withdraw_effect.ledger ≡ ok second_effect
unfolding withdraw_tokens validate_withdraw authorize_withdraw authorize validate_role_permission
    has load load_interface require_seeds require_canonical validate_mint mint_extensions_supported
    check_withdraw require_protocol_active is_paused transfer_exact invoke_transfer checked_add
    checked_add_i64 ◌+ℤ◌ next_window_state execute load_execute constrain_execute check_execute
second_runs = refl

still_requested :
    HoldsProgram demo withdraw_effect.ledger request_at (Content.withdrawal_request demo_request)
unfolding withdraw_tokens validate_withdraw authorize_withdraw authorize validate_role_permission
    has load load_interface require_seeds require_canonical validate_mint mint_extensions_supported
    check_withdraw require_protocol_active is_paused transfer_exact invoke_transfer checked_add
    checked_add_i64 ◌+ℤ◌ next_window_state
still_requested = refl

demo-Outflows : Outflows demo asset_at (pos 400 +ℤ pos 60) demo_ledger second_effect.ledger 130
demo-Outflows =
    paid_on_request
      (paid_directly (no_outflow refl) withdraw_call withdraw_accounts 50 withdraw_effect
        withdraw_runs refl is_in_window refl refl)
      execute_call execute_accounts demo_request second_effect second_runs still_requested refl
      is_in_window refl refl

window_capacity_example :
    HoldsProgram demo second_effect.ledger asset_at
      (Content.vault_asset (record demo_asset { window_spent = 20 + 130 }))
    × (20 + 130 ≤ 150)
window_capacity_example =
    window_capacity demo asset_at demo_asset refl (omega arith) (omega arith) demo-Outflows

abbrev limits_accounts : UpdateLimits
limits_accounts = record {
  caller = owner;
  protocol_config = config_at;
  vault = vault_at;
  mint = coin;
  vault_asset = asset_at;
}

abbrev tighter : Policy
tighter = record {
  max_per_transaction = 80;
  window_limit = 120;
  window_seconds = pos 60;
  timelock_threshold = 40;
  timelock_seconds = pos 30;
  request_execution_window_seconds = pos 300;
}

abbrev limits_call : Context
limits_call = call_of owner 450 []

abbrev limits_effect : Effect
limits_effect = outcome (update_policy demo limits_call limits_accounts tighter demo_ledger)

limits_run : update_policy demo limits_call limits_accounts tighter demo_ledger ≡ ok limits_effect
unfolding update_policy validate_update_limits authorize_update authorize load load_interface
    require_seeds require_canonical validate_mint mint_extensions_supported require_protocol_active
    is_paused is_valid_policy rewindow checked_add_i64 ◌+ℤ◌
limits_run = refl

limits_keep_live_window_example :
    (tighter.window_seconds ≡ demo_asset.window_seconds)
    × HoldsProgram demo limits_effect.ledger limits_accounts.vault_asset (
        Content.vault_asset (record demo_asset {
          max_per_transaction = tighter.max_per_transaction;
          window_limit = tighter.window_limit;
          timelock_threshold = tighter.timelock_threshold;
          timelock_seconds = tighter.timelock_seconds;
          request_execution_window_seconds = tighter.request_execution_window_seconds;
        }))
limits_keep_live_window_example =
    limits_keep_live_window demo limits_call demo_ledger limits_effect limits_accounts tighter
      demo_asset limits_run refl (omega arith) is_in_window
