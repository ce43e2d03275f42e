-- ===== src/Tests/Withdrawals.antt =====
-- The withdrawal properties at concrete calls.
use iron_vault.Constants.{
  pause_vault_outflow, permission_cancel_withdrawal, permission_request_withdrawal,
  permission_withdraw,
}
use iron_vault.Error.{err, ok, program, timelock_not_required}
use iron_vault.Prelude.{[], false, none, refl, some, true, ◌+◌, ◌<◌, ◌≡◌, ◌≤◌, ◌⊎◌}
use iron_vault.Prelude.Int.{◌+ℤ◌, ◌<ℤ◌, ◌≤ℤ◌}
use iron_vault.Runtime.{Content, Effect}
use iron_vault.Runtime.Accounts.{HoldsProgram}
use iron_vault.Security.Delegation.{HasRole}
use iron_vault.Seeds.{vault_token_seeds, withdrawal_seeds}
use iron_vault.State.{
  ProtocolConfig, Vault, VaultAsset, WithdrawalRequest, cancelled, executed, is_paused, pending,
}
use iron_vault.Tests.Demo.{
  coin, demo, demo_asset, demo_config, demo_ledger, demo_request, demo_vault, owner, recipient,
  request_at, vault_at,
}
use iron_vault.Tests.Runs.{
  cancel_accounts, cancel_call, cancel_effect, cancel_runs, execute_accounts, execute_call,
  execute_effect, execute_runs, owner_call, request_accounts, request_call, request_effect,
  request_runs, withdraw_accounts, withdraw_call, withdraw_effect, withdraw_runs,
}
use iron_vault.Withdrawal.Cancel.{CancelWithdrawal, cancel}
use iron_vault.Withdrawal.Checks.{routes_exclude}
use iron_vault.Withdrawal.Instant.{WithdrawLoaded, check_withdraw}
use iron_vault.Withdrawal.Open.{cancel_is_open}
use iron_vault.Withdrawal.Outflow.{Outflow}
use iron_vault.Withdrawal.Request.{RequestWithdrawalLoaded, check_request}
use iron_vault.Withdrawal.Routes.{
  cancel_is_guarded, execute_pays, request_schedules, withdraw_is_guarded,
}

withdraw_is_guarded_example :
    (config : ProtocolConfig) × (vault : Vault) × (asset : VaultAsset) × HoldsProgram demo
      demo_ledger withdraw_accounts.protocol_config
      (Content.protocol_config config)
    × HoldsProgram demo demo_ledger withdraw_accounts.vault (Content.vault vault)
    × HoldsProgram demo demo_ledger withdraw_accounts.vault_asset (Content.vault_asset asset)
    × (withdraw_call.signers withdraw_accounts.caller ≡ true)
    × ((withdraw_accounts.caller ≡ vault.authority)
        ⊎ HasRole demo demo_ledger withdraw_accounts.vault withdraw_accounts.caller
            permission_withdraw)
    × ((demo.find_program_address
          (vault_token_seeds withdraw_accounts.vault withdraw_accounts.mint)).0
        ≡ withdraw_accounts.vault_token)
    × (0 < 50)
    × (50 ≤ asset.timelock_threshold)
    × Outflow demo_ledger withdraw_effect.ledger config vault asset withdraw_accounts.vault_token
        withdraw_accounts.destination_token 50
withdraw_is_guarded_example =
    withdraw_is_guarded demo withdraw_call demo_ledger withdraw_effect withdraw_accounts 50
      withdraw_runs

request_schedules_example :
    (config : ProtocolConfig) × (vault : Vault) × (asset : VaultAsset) × (q : WithdrawalRequest)
    × HoldsProgram demo demo_ledger request_accounts.protocol_config
        (Content.protocol_config config)
    × HoldsProgram demo demo_ledger request_accounts.vault (Content.vault vault)
    × HoldsProgram demo demo_ledger request_accounts.vault_asset (Content.vault_asset asset)
    × (request_call.signers request_accounts.proposer ≡ true)
    × ((request_accounts.proposer ≡ vault.authority)
        ⊎ HasRole demo demo_ledger request_accounts.vault request_accounts.proposer
            permission_request_withdrawal)
    × (is_paused config pause_vault_outflow ≡ false)
    × (vault.paused ≡ false)
    × (asset.timelock_threshold < 90)
    × (90 ≤ asset.max_per_transaction)
    × (demo_ledger request_accounts.withdrawal_request ≡ none)
    × HoldsProgram demo request_effect.ledger request_accounts.withdrawal_request
        (Content.withdrawal_request q)
    × (q.status ≡ pending)
    × (demo.find_program_address (withdrawal_seeds request_accounts.vault vault.next_withdrawal_id)
        ≡ (request_accounts.withdrawal_request, q.bump))
    × (q.vault ≡ request_accounts.vault)
    × (q.vault_asset ≡ request_accounts.vault_asset)
    × (q.proposer ≡ request_accounts.proposer)
    × (q.created_at ≡ request_call.unix_timestamp)
    × (q.amount ≡ 90)
    × (q.withdrawal_id ≡ vault.next_withdrawal_id)
    × (q.recipient_token_account ≡ request_accounts.recipient_token)
    × (q.execute_after ≡ request_call.unix_timestamp +ℤ asset.timelock_seconds)
    × (q.expires_at ≡ q.execute_after +ℤ asset.request_execution_window_seconds)
    × (request_call.unix_timestamp <ℤ q.execute_after)
    × (q.execute_after <ℤ q.expires_at)
    × HoldsProgram demo request_effect.ledger request_accounts.vault
        (Content.vault (record vault { next_withdrawal_id = vault.next_withdrawal_id + 1 }))
request_schedules_example =
    request_schedules demo request_call demo_ledger request_effect request_accounts 90 request_runs

execute_pays_example :
    (config : ProtocolConfig) × (vault : Vault) × (asset : VaultAsset) × (q : WithdrawalRequest)
    × HoldsProgram demo demo_ledger execute_accounts.protocol_config
        (Content.protocol_config config)
    × HoldsProgram demo demo_ledger execute_accounts.vault (Content.vault vault)
    × HoldsProgram demo demo_ledger execute_accounts.vault_asset (Content.vault_asset asset)
    × HoldsProgram demo demo_ledger execute_accounts.withdrawal_request
        (Content.withdrawal_request q)
    × (q.status ≡ pending)
    × (q.execute_after ≤ℤ execute_call.unix_timestamp)
    × (execute_call.unix_timestamp ≤ℤ q.expires_at)
    × (q.vault_asset ≡ execute_accounts.vault_asset)
    × ((demo.find_program_address
          (vault_token_seeds execute_accounts.vault execute_accounts.mint)).0
        ≡ execute_accounts.vault_token)
    × Outflow demo_ledger execute_effect.ledger config vault asset execute_accounts.vault_token
        q.recipient_token_account q.amount
    × HoldsProgram demo execute_effect.ledger execute_accounts.withdrawal_request
        (Content.withdrawal_request (record q { status = executed }))
execute_pays_example =
    execute_pays demo execute_call execute_accounts demo_ledger execute_effect execute_runs

cancel_is_guarded_example :
    (vault : Vault) × (q : WithdrawalRequest) × HoldsProgram demo demo_ledger cancel_accounts.vault
      (Content.vault vault)
    × HoldsProgram demo demo_ledger cancel_accounts.withdrawal_request
        (Content.withdrawal_request q)
    × (q.status ≡ pending)
    × (q.vault ≡ cancel_accounts.vault)
    × (demo.create_program_address (withdrawal_seeds cancel_accounts.vault q.withdrawal_id) q.bump
        ≡ some cancel_accounts.withdrawal_request)
    × (cancel_call.signers cancel_accounts.caller ≡ true)
    × ((cancel_accounts.caller ≡ vault.authority)
        ⊎ ((cancel_accounts.caller ≡ vault.guardian)
            ⊎ ((cancel_accounts.caller ≡ q.proposer)
                ⊎ HasRole demo demo_ledger cancel_accounts.vault cancel_accounts.caller
                    permission_cancel_withdrawal)))
    × HoldsProgram demo cancel_effect.ledger cancel_accounts.withdrawal_request
        (Content.withdrawal_request (record q { status = cancelled }))
cancel_is_guarded_example =
    cancel_is_guarded demo cancel_call cancel_accounts demo_ledger cancel_effect cancel_runs

abbrev instant_loaded : WithdrawLoaded
instant_loaded = record {
  config = demo_config;
  vault = demo_vault;
  mint = record { program = 2; state = record { decimals = 6; extension_types = some [] } };
  asset = demo_asset;
  vault_token = record {
    program = 2;
    state = record { mint = coin; owner = vault_at; amount = 900 };
  };
  destination_token = record {
    program = 2;
    state = record { mint = coin; owner = recipient; amount = 5 };
  };
}

abbrev request_loaded : RequestWithdrawalLoaded
request_loaded = record {
  config = demo_config;
  vault = demo_vault;
  asset = demo_asset;
  recipient_token = record {
    program = 2;
    state = record { mint = coin; owner = recipient; amount = 5 };
  };
  bump = 255;
}

instant_passes : check_withdraw instant_loaded 50 ≡ ok tt
unfolding check_withdraw
instant_passes = refl

routes_exclude_example : check_request request_loaded 50 ≡ err (program timelock_not_required)
routes_exclude_example =
    routes_exclude instant_loaded request_loaded 50 refl refl refl refl instant_passes

abbrev owner_cancels : CancelWithdrawal
owner_cancels = record { caller = owner; vault = vault_at; withdrawal_request = request_at }

cancel_is_open_example : (e : Effect) × (cancel demo owner_call owner_cancels demo_ledger ≡ ok e)
cancel_is_open_example =
    cancel_is_open demo owner_call owner_cancels demo_ledger demo_vault demo_request refl refl refl
      refl refl refl refl refl refl
