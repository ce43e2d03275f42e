-- ===== src/Tests/Ages.antt =====
-- The properties of whole histories at concrete ones.
use iron_vault.Error.{ok}
use iron_vault.Escrow.Refund.{check_refund, refund, validate_refund_escrow}
use iron_vault.Escrow.Release.{check_release, release, validate_release_escrow}
use iron_vault.Prelude.{refl, ◌≡◌, ◌≢◌}
use iron_vault.Prelude.Int.{checked_add, checked_add_i64, ◌+ℤ◌}
use iron_vault.Program.{
  Instruction, execute_withdrawal, process, release_escrow, request_withdrawal,
}
use iron_vault.Program.History.{
  EscrowLater, Reach, RequestLater, VaultLater, escrow_for_ever, here, next, request_for_ever, runs,
  vault_for_ever,
}
use iron_vault.Program.Once.{cancel_once, execute_once, refund_once, release_once}
use iron_vault.Runtime.{
  Context, Effect, Ledger, invoke_transfer, load, load_interface, require_canonical, require_seeds,
}
use iron_vault.Security.{
  authorize, mint_extensions_supported, require_protocol_active, validate_mint,
}
use iron_vault.State.{is_paused}
use iron_vault.Tests.Demo.{
  demo, demo-TokenProgram, demo_escrow, demo_ledger, demo_request, demo_vault, escrow_at, outcome,
  request_at, vault_at,
}
use iron_vault.Tests.Runs.{
  cancel_accounts, cancel_call, cancel_effect, cancel_runs, execute_accounts, execute_call,
  execute_effect, execute_runs, refund_accounts, refund_call, refund_effect, refund_runs,
  release_accounts, release_call, release_effect, release_runs, request_accounts, request_call,
  request_effect, request_runs,
}
use iron_vault.Transfer.{transfer_exact}
use iron_vault.Withdrawal.Cancel.{authorize_cancel, cancel}
use iron_vault.Withdrawal.Execute.{check_execute, constrain_execute, execute, load_execute}
use iron_vault.Withdrawal.Window.{next_window_state}

release_is_processed :
    process demo release_call (release_escrow release_accounts) demo_ledger ≡ ok release_effect
unfolding process
release_is_processed = release_runs

request_is_processed :
    process demo request_call (request_withdrawal request_accounts 90) demo_ledger
    ≡ ok request_effect
unfolding process
request_is_processed = request_runs

execute_is_processed :
    process demo execute_call (execute_withdrawal execute_accounts) demo_ledger ≡ ok execute_effect
unfolding process
execute_is_processed = execute_runs

one_step :
    (l : Ledger) (ctx : Context) (i : Instruction) (e : Effect)
    → process demo ctx i l ≡ ok e
    → Reach demo l e.ledger
one_step l ctx i e h = next here (runs ctx i e e.ledger h refl)

escrow_for_ever_example : EscrowLater demo release_effect.ledger escrow_at demo_escrow
escrow_for_ever_example = escrow_for_ever demo demo-TokenProgram escrow_at demo_escrow refl (
    one_step demo_ledger release_call (release_escrow release_accounts) release_effect
      release_is_processed)

request_for_ever_example : RequestLater demo execute_effect.ledger request_at demo_request
request_for_ever_example = request_for_ever demo demo-TokenProgram request_at demo_request refl (
    one_step demo_ledger execute_call (execute_withdrawal execute_accounts) execute_effect
      execute_is_processed)

vault_for_ever_example : VaultLater demo request_effect.ledger vault_at demo_vault
vault_for_ever_example = vault_for_ever demo demo-TokenProgram vault_at demo_vault refl (
    one_step demo_ledger request_call (request_withdrawal request_accounts 90) request_effect
      request_is_processed)

abbrev after_release : Effect
after_release = outcome (execute demo execute_call execute_accounts release_effect.ledger)

after_release_is_processed :
    process demo execute_call (execute_withdrawal execute_accounts) release_effect.ledger
    ≡ ok after_release
unfolding execute load_execute constrain_execute load load_interface require_seeds require_canonical
    validate_mint mint_extensions_supported check_execute require_protocol_active is_paused
    transfer_exact invoke_transfer checked_add checked_add_i64 ◌+ℤ◌ next_window_state process
    release validate_release_escrow check_release
after_release_is_processed = refl

release_once_example :
    (release demo release_call release_accounts after_release.ledger ≢ ok release_effect)
    × (refund demo release_call refund_accounts after_release.ledger ≢ ok release_effect)
release_once_example =
    release_once demo demo-TokenProgram release_call release_accounts demo_ledger
      after_release.ledger release_effect release_runs
      (one_step release_effect.ledger execute_call (execute_withdrawal execute_accounts)
        after_release after_release_is_processed)
      release_call release_accounts refund_accounts release_effect refl refl

abbrev after_refund : Effect
after_refund = outcome (execute demo execute_call execute_accounts refund_effect.ledger)

after_refund_is_processed :
    process demo execute_call (execute_withdrawal execute_accounts) refund_effect.ledger
    ≡ ok after_refund
unfolding execute load_execute constrain_execute load load_interface require_seeds require_canonical
    validate_mint mint_extensions_supported check_execute require_protocol_active is_paused
    transfer_exact invoke_transfer checked_add checked_add_i64 ◌+ℤ◌ next_window_state process refund
    validate_refund_escrow check_refund
after_refund_is_processed = refl

refund_once_example :
    (release demo release_call release_accounts after_refund.ledger ≢ ok release_effect)
    × (refund demo release_call refund_accounts after_refund.ledger ≢ ok release_effect)
refund_once_example =
    refund_once demo demo-TokenProgram refund_call refund_accounts demo_ledger after_refund.ledger
      refund_effect refund_runs
      (one_step refund_effect.ledger execute_call (execute_withdrawal execute_accounts) after_refund
        after_refund_is_processed)
      release_call release_accounts refund_accounts release_effect refl refl

abbrev after_execute : Effect
after_execute = outcome (release demo release_call release_accounts execute_effect.ledger)

after_execute_is_processed :
    process demo release_call (release_escrow release_accounts) execute_effect.ledger
    ≡ ok after_execute
unfolding release validate_release_escrow load load_interface require_seeds require_canonical
    validate_mint mint_extensions_supported check_release require_protocol_active is_paused
    transfer_exact invoke_transfer checked_add process execute load_execute constrain_execute
    check_execute next_window_state checked_add_i64 ◌+ℤ◌
after_execute_is_processed = refl

execute_once_example :
    (execute demo execute_call execute_accounts after_execute.ledger ≢ ok execute_effect)
    × (cancel demo execute_call cancel_accounts after_execute.ledger ≢ ok execute_effect)
execute_once_example =
    execute_once demo demo-TokenProgram execute_call execute_accounts demo_ledger
      after_execute.ledger execute_effect execute_runs
      (one_step execute_effect.ledger release_call (release_escrow release_accounts) after_execute
        after_execute_is_processed)
      execute_call execute_accounts cancel_accounts execute_effect refl refl

abbrev after_cancel : Effect
after_cancel = outcome (release demo release_call release_accounts cancel_effect.ledger)

after_cancel_is_processed :
    process demo release_call (release_escrow release_accounts) cancel_effect.ledger
    ≡ ok after_cancel
unfolding release validate_release_escrow load load_interface require_seeds require_canonical
    validate_mint mint_extensions_supported check_release require_protocol_active is_paused
    transfer_exact invoke_transfer checked_add process cancel authorize_cancel authorize
after_cancel_is_processed = refl

cancel_once_example :
    (execute demo execute_call execute_accounts after_cancel.ledger ≢ ok execute_effect)
    × (cancel demo execute_call cancel_accounts after_cancel.ledger ≢ ok execute_effect)
cancel_once_example =
    cancel_once demo demo-TokenProgram cancel_call cancel_accounts demo_ledger after_cancel.ledger
      cancel_effect cancel_runs
      (one_step cancel_effect.ledger release_call (release_escrow release_accounts) after_cancel
        after_cancel_is_processed)
      execute_call execute_accounts cancel_accounts execute_effect refl refl
