-- ===== src/Tests/Authority.antt =====
-- The properties of the protocol pause and of the roles at concrete calls.
use iron_vault.Error.{err, missing_vault_permission, ok, program, unexpected_request_accounts}
use iron_vault.Prelude.{false, refl, true, ◌≡◌, ◌⊎◌}
use iron_vault.Protocol.{check_set_pause, set_pause}
use iron_vault.Protocol.Guardian.{escrow_create, guardian_only_pauses, set_pause_is_guarded}
use iron_vault.Role.Grants.{grant_gives, revoke_removes}
use iron_vault.Runtime.{Content, load, require_seeds}
use iron_vault.Runtime.Accounts.{HoldsProgram}
use iron_vault.Security.{authorize, validate_role_permission}
use iron_vault.Security.Delegation.{HasRole, authorize_sound}
use iron_vault.State.{has, is_paused}
use iron_vault.Tests.Demo.{agent, demo, demo_config, demo_ledger, role_at, vault_at}
use iron_vault.Tests.Runs.{
  grant_accounts, grant_effect, grant_runs, owner_call, pause_accounts, pause_call, pause_effect,
  pause_runs, paused_config, paused_ledger, request_call, revoke_accounts, revoke_effect,
  revoke_runs,
}

set_pause_is_guarded_example :
    (pause_call.signers pause_accounts.caller ≡ true)
    × ((pause_accounts.caller ≡ paused_config.admin)
        ⊎ (pause_accounts.caller ≡ paused_config.guardian))
    × HoldsProgram demo pause_effect.ledger pause_accounts.protocol_config
        (Content.protocol_config (record paused_config { pause_flags = 9 }))
set_pause_is_guarded_example =
    set_pause_is_guarded demo pause_call pause_accounts 9 paused_ledger pause_effect paused_config
      pause_runs refl

guardian_only_pauses_example : is_paused (record demo_config { pause_flags = 9 }) 1 ≡ true
unfolding set_pause check_set_pause load require_seeds is_paused
guardian_only_pauses_example =
    guardian_only_pauses demo pause_call pause_accounts 9 paused_ledger pause_effect paused_config
      (record demo_config { pause_flags = 9 }) escrow_create pause_runs refl refl refl refl

grant_gives_example :
    validate_role_permission demo grant_effect.ledger role_at vault_at agent 4 ≡ ok tt
grant_gives_example =
    grant_gives demo owner_call demo_ledger grant_effect grant_accounts agent 5 4 grant_runs

revoke_removes_example :
    validate_role_permission demo revoke_effect.ledger role_at vault_at agent 1
    ≡ err (program missing_vault_permission)
revoke_removes_example =
    revoke_removes demo owner_call demo_ledger revoke_effect revoke_accounts agent role_at 1
      revoke_runs refl

delegation_passes :
    authorize demo demo_ledger request_call false vault_at agent 2 unexpected_request_accounts
      missing_vault_permission
    ≡ ok tt
unfolding authorize validate_role_permission has
delegation_passes = refl

authorize_sound_example : (false ≡ true) ⊎ HasRole demo demo_ledger vault_at agent 2
authorize_sound_example =
    authorize_sound demo demo_ledger vault_at agent 2 request_call false unexpected_request_accounts
      missing_vault_permission delegation_passes
