-- ===== src/Withdrawal/Cancel.antt =====
-- programs/iron_vault/src/instructions/cancel_withdrawal.rs
use iron_vault.Constants.{initial_schema_version, permission_cancel_withdrawal}
use iron_vault.Error.{
  Result, constrain, constraint_has_one, ok, require, unauthorized_withdrawal_cancellation,
  unexpected_cancellation_accounts, withdrawal_not_pending, ◌>>=◌, ◌>>◌,
}
use iron_vault.Events.{withdrawal_cancelled}
use iron_vault.Prelude.{[], ◌==◌, ◌||◌, ◌∷◌}
use iron_vault.Runtime.{
  Content, Context, Effect, Ledger, Runtime, load, read_vault, read_withdrawal_request,
  require_seeds, require_signer, store,
}
use iron_vault.Security.{authorize}
use iron_vault.Seeds.{withdrawal_seeds}
use iron_vault.State.{Pubkey, Vault, WithdrawalRequest, cancelled, is_pending}
use iron_vault.Vault.{require_vault_seeds}
use iron_vault.Withdrawal.Request.{request}

-- The account keys of `CancelWithdrawal`.
pub record CancelWithdrawal : Type 0 where
  pub caller : Pubkey
  pub vault : Pubkey
  pub withdrawal_request : Pubkey

module _ (rt : Runtime) where
  -- `cancel_withdrawal::authorize`
  unfoldable pub authorize_cancel :
      Context → CancelWithdrawal → Vault → WithdrawalRequest → Ledger → Result (Unit {0})
  authorize_cancel ctx accounts vault request l =
      authorize rt l ctx
        (accounts.caller == vault.authority
          || (accounts.caller == vault.guardian || accounts.caller == request.proposer))
        accounts.vault accounts.caller permission_cancel_withdrawal unexpected_cancellation_accounts
        unauthorized_withdrawal_cancellation

  unfoldable pub cancel : Context → CancelWithdrawal → Ledger → Result Effect
  cancel ctx accounts l = do
    require_signer rt ctx accounts.caller
    vault ← load rt read_vault l accounts.vault
    request ← load rt read_withdrawal_request l accounts.withdrawal_request
    require_vault_seeds rt vault accounts.vault
    require_seeds rt (withdrawal_seeds accounts.vault request.withdrawal_id) request.bump
        accounts.withdrawal_request
    constrain (request.vault == accounts.vault) constraint_has_one
    require (is_pending request.status) withdrawal_not_pending
    authorize_cancel ctx accounts vault request l
    ok (record {
      ledger =
          store rt accounts.withdrawal_request
            (Content.withdrawal_request (record request { status = cancelled })) l;
      events =
          withdrawal_cancelled (record {
            version = initial_schema_version;
            vault = accounts.vault;
            withdrawal_request = accounts.withdrawal_request;
            caller = accounts.caller;
            proposer = request.proposer;
            withdrawal_id = request.withdrawal_id;
          })
          ∷ [];
    })
