-- ===== src/Tests/Runs.antt =====
-- Calls of the instructions on the concrete ledger, each of which succeeds.
use iron_vault.Error.{ok}
use iron_vault.Escrow.Create.{CreateEscrow, check_create, create, validate_create_escrow}
use iron_vault.Escrow.Refund.{RefundEscrow, check_refund, refund, validate_refund_escrow}
use iron_vault.Escrow.Release.{ReleaseEscrow, check_release, release, validate_release_escrow}
use iron_vault.Prelude.{[], refl, ◌∷◌, ◌≡◌}
use iron_vault.Prelude.Int.{checked_add, checked_add_i64, pos, ◌+ℤ◌}
use iron_vault.Protocol.{SetProtocolPause, check_set_pause, set_pause}
use iron_vault.Role.{GrantRole, RevokeRole, grant, init_role_if_needed, revoke}
use iron_vault.Runtime.{
  Content, Context, Effect, Ledger, init, invoke_transfer, load, load_interface, require_canonical,
  require_seeds, store,
}
use iron_vault.Security.{
  authorize, mint_extensions_supported, require_protocol_active, validate_mint,
  validate_role_permission,
}
use iron_vault.Seeds.{escrow_seeds, escrow_token_seeds, withdrawal_seeds}
use iron_vault.State.{ProtocolConfig, has, is_paused}
use iron_vault.Tests.Demo.{
  address, agent, asset_at, call_of, coin, config_at, custody_at, demo, demo_config, demo_ledger,
  escrow_at, keeper, maker, maker_token, outcome, owner, recipient, recipient_token, request_at,
  role_at, vault_at, vault_token_at,
}
use iron_vault.Transfer.{transfer_exact}
use iron_vault.Withdrawal.Cancel.{CancelWithdrawal, authorize_cancel, cancel}
use iron_vault.Withdrawal.Execute.{
  ExecuteWithdrawal, check_execute, constrain_execute, execute, load_execute,
}
use iron_vault.Withdrawal.Instant.{
  Withdraw, authorize_withdraw, check_withdraw, validate_withdraw, withdraw_tokens,
}
use iron_vault.Withdrawal.Request.{
  RequestWithdrawal, authorize_request, check_request, request, schedule_request, validate_request,
}
use iron_vault.Withdrawal.Window.{next_window_state}

abbrev pub release_accounts : ReleaseEscrow
release_accounts = record {
  maker = maker;
  protocol_config = config_at;
  escrow = escrow_at;
  mint = coin;
  escrow_token = custody_at;
  recipient_token = recipient_token;
  token_program = 2;
}

abbrev pub release_call : Context
release_call = call_of maker 450 []

abbrev pub release_effect : Effect
release_effect = outcome (release demo release_call release_accounts demo_ledger)

pub release_runs : release demo release_call release_accounts demo_ledger ≡ ok release_effect
unfolding release validate_release_escrow load load_interface require_seeds require_canonical
    validate_mint mint_extensions_supported check_release require_protocol_active is_paused
    transfer_exact invoke_transfer checked_add
release_runs = refl

abbrev pub refund_accounts : RefundEscrow
refund_accounts = record {
  caller = keeper;
  escrow = escrow_at;
  mint = coin;
  escrow_token = custody_at;
  maker_destination = maker_token;
  token_program = 2;
}

abbrev pub refund_call : Context
refund_call = call_of keeper 1000 []

abbrev pub refund_effect : Effect
refund_effect = outcome (refund demo refund_call refund_accounts demo_ledger)

pub refund_runs : refund demo refund_call refund_accounts demo_ledger ≡ ok refund_effect
unfolding refund validate_refund_escrow load load_interface require_seeds require_canonical
    validate_mint mint_extensions_supported check_refund transfer_exact invoke_transfer checked_add
refund_runs = refl

abbrev pub create_accounts : CreateEscrow
create_accounts = record {
  maker = maker;
  protocol_config = config_at;
  mint = coin;
  maker_token = maker_token;
  escrow = address (escrow_seeds maker 8);
  escrow_token = address (escrow_token_seeds (address (escrow_seeds maker 8)));
  token_program = 2;
}

abbrev pub create_call : Context
create_call = call_of maker 450 []

abbrev pub create_effect : Effect
create_effect =
    outcome (create demo create_call create_accounts 8 recipient 40 (pos 900) demo_ledger)

pub create_runs :
    create demo create_call create_accounts 8 recipient 40 (pos 900) demo_ledger ≡ ok create_effect
unfolding create validate_create_escrow init load load_interface require_seeds require_canonical
    validate_mint mint_extensions_supported check_create require_protocol_active is_paused
    transfer_exact invoke_transfer checked_add
create_runs = refl

abbrev pub withdraw_accounts : Withdraw
withdraw_accounts = record {
  caller = agent;
  protocol_config = config_at;
  vault = vault_at;
  mint = coin;
  vault_asset = asset_at;
  vault_token = vault_token_at;
  destination_token = recipient_token;
  token_program = 2;
}

abbrev pub withdraw_call : Context
withdraw_call = call_of agent 450 (role_at ∷ [])

abbrev pub withdraw_effect : Effect
withdraw_effect = outcome (withdraw_tokens demo withdraw_call withdraw_accounts 50 demo_ledger)

pub withdraw_runs :
    withdraw_tokens demo withdraw_call withdraw_accounts 50 demo_ledger ≡ ok withdraw_effect
unfolding withdraw_tokens validate_withdraw authorize_withdraw authorize validate_role_permission
    has load load_interface require_seeds require_canonical validate_mint mint_extensions_supported
    check_withdraw require_protocol_active is_paused transfer_exact invoke_transfer checked_add
    checked_add_i64 ◌+ℤ◌ next_window_state
withdraw_runs = refl

abbrev pub request_accounts : RequestWithdrawal
request_accounts = record {
  proposer = agent;
  protocol_config = config_at;
  vault = vault_at;
  mint = coin;
  vault_asset = asset_at;
  recipient_token = recipient_token;
  withdrawal_request = address (withdrawal_seeds vault_at 5);
}

abbrev pub request_call : Context
request_call = call_of agent 450 (role_at ∷ [])

abbrev pub request_effect : Effect
request_effect = outcome (request demo request_call request_accounts 90 demo_ledger)

pub request_runs : request demo request_call request_accounts 90 demo_ledger ≡ ok request_effect
unfolding request validate_request authorize_request authorize validate_role_permission has load
    load_interface init require_seeds require_canonical validate_mint mint_extensions_supported
    check_request schedule_request require_protocol_active is_paused checked_add checked_add_i64
    ◌+ℤ◌
request_runs = refl

abbrev pub execute_accounts : ExecuteWithdrawal
execute_accounts = record {
  caller = maker;
  protocol_config = config_at;
  vault = vault_at;
  mint = coin;
  vault_asset = asset_at;
  withdrawal_request = request_at;
  vault_token = vault_token_at;
  recipient_token = recipient_token;
  token_program = 2;
}

abbrev pub execute_call : Context
execute_call = call_of maker 450 []

abbrev pub execute_effect : Effect
execute_effect = outcome (execute demo execute_call execute_accounts demo_ledger)

pub execute_runs : execute demo execute_call execute_accounts demo_ledger ≡ ok execute_effect
unfolding execute load_execute constrain_execute load load_interface require_seeds require_canonical
    validate_mint mint_extensions_supported check_execute require_protocol_active is_paused
    transfer_exact invoke_transfer checked_add checked_add_i64 ◌+ℤ◌ next_window_state
execute_runs = refl

abbrev pub cancel_accounts : CancelWithdrawal
cancel_accounts = record { caller = keeper; vault = vault_at; withdrawal_request = request_at }

abbrev pub cancel_call : Context
cancel_call = call_of keeper 450 []

abbrev pub cancel_effect : Effect
cancel_effect = outcome (cancel demo cancel_call cancel_accounts demo_ledger)

pub cancel_runs : cancel demo cancel_call cancel_accounts demo_ledger ≡ ok cancel_effect
unfolding cancel authorize_cancel authorize load require_seeds
cancel_runs = refl

abbrev pub pause_accounts : SetProtocolPause
pause_accounts = record { caller = keeper; protocol_config = config_at }

abbrev pub pause_call : Context
pause_call = call_of keeper 450 []

-- The configuration while the escrow creation is paused, and a ledger that holds it.
abbrev pub paused_config : ProtocolConfig
paused_config = record demo_config { pause_flags = 1 }

abbrev pub paused_ledger : Ledger
paused_ledger = store demo config_at (Content.protocol_config paused_config) demo_ledger

abbrev pub pause_effect : Effect
pause_effect = outcome (set_pause demo pause_call pause_accounts 9 paused_ledger)

pub pause_runs : set_pause demo pause_call pause_accounts 9 paused_ledger ≡ ok pause_effect
unfolding set_pause check_set_pause load require_seeds
pause_runs = refl

abbrev pub grant_accounts : GrantRole
grant_accounts = record {
  authority = owner;
  protocol_config = config_at;
  vault = vault_at;
  role_assignment = role_at;
}

abbrev pub owner_call : Context
owner_call = call_of owner 450 []

abbrev pub grant_effect : Effect
grant_effect = outcome (grant demo owner_call grant_accounts agent 5 demo_ledger)

pub grant_runs : grant demo owner_call grant_accounts agent 5 demo_ledger ≡ ok grant_effect
unfolding grant init_role_if_needed load require_seeds require_canonical require_protocol_active
    is_paused
grant_runs = refl

abbrev pub revoke_accounts : RevokeRole
revoke_accounts = record {
  authority = owner;
  protocol_config = config_at;
  vault = vault_at;
  role_assignment = role_at;
}

abbrev pub revoke_effect : Effect
revoke_effect = outcome (revoke demo owner_call revoke_accounts agent demo_ledger)

pub revoke_runs : revoke demo owner_call revoke_accounts agent demo_ledger ≡ ok revoke_effect
unfolding revoke load require_seeds require_protocol_active is_paused
revoke_runs = refl
