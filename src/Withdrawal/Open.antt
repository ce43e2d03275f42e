-- ===== src/Withdrawal/Open.antt =====
-- What can always be done: when a cancellation and an execution of a request succeed.
use iron_vault.Constants.{pause_vault_outflow}
use iron_vault.Error.{Result-cases, ok}
use iron_vault.Prelude.{[], arith, false, inl, inr, some, true, ℕ, ◌+◌, ◌<◌, ◌^◌, ◌≡◌, ◌≤◌}
use iron_vault.Prelude.Int.{checked_add, ℤ, ◌≤ℤ◌}
use iron_vault.Runtime.{
  Content, Context, Effect, Interface, Ledger, Runtime, TokenAccount, TransferChecked,
  invoke_transfer, load, load_interface, read_token, require_seeds,
}
use iron_vault.Runtime.Accounts.{HoldsProgram}
use iron_vault.Security.{authorize, require_protocol_active}
use iron_vault.Seeds.{vault_seeds, withdrawal_seeds}
use iron_vault.State.{Vault, WithdrawalRequest, is_paused, pending}
use iron_vault.Transfer.{transfer_exact}
use iron_vault.Withdrawal.Cancel.{CancelWithdrawal, authorize_cancel, cancel}
use iron_vault.Withdrawal.Execute.{
  ExecuteWithdrawal, ExecuteWithdrawalLoaded, check_execute, constrain_execute, execute,
  load_execute,
}
use iron_vault.Withdrawal.Window.{next_window_state}

-- The authority of a vault can cancel every pending request of it, at any time and whatever is
-- paused: a call that it signed, with the vault and the request at their derived addresses and no
-- further account, succeeds.
pub cancel_is_open :
    (rt : Runtime) (ctx : Context) (accounts : CancelWithdrawal) (l : Ledger) (vault : Vault)
    (q : WithdrawalRequest)
    → HoldsProgram rt l accounts.vault (Content.vault vault)
    → HoldsProgram rt l accounts.withdrawal_request (Content.withdrawal_request q)
    → rt.create_program_address (vault_seeds vault.namespace_authority vault.vault_id) vault.bump
      ≡ some accounts.vault
    → rt.create_program_address (withdrawal_seeds accounts.vault q.withdrawal_id) q.bump
      ≡ some accounts.withdrawal_request
    → q.vault ≡ accounts.vault
    → q.status ≡ pending
    → ctx.signers vault.authority ≡ true
    → accounts.caller ≡ vault.authority
    → ctx.remaining_accounts ≡ []
    → (e : Effect) × (cancel rt ctx accounts l ≡ ok e)
unfolding cancel authorize_cancel authorize load require_seeds
cancel_is_open rt ctx accounts l vault q held also at_vault at_request of_vault live signed called
      alone =
    elim (Result-cases (cancel rt ctx accounts l)) [
      | inl done ↦ done
      | inr (error, failed) ↦ absurd (ground arith)
    ]

-- The call that pays the request.
abbrev pub execute_transfer : ExecuteWithdrawal → ExecuteWithdrawalLoaded → TransferChecked
execute_transfer accounts a = record {
  token_program = accounts.token_program;
  from = accounts.vault_token;
  mint = accounts.mint;
  to = accounts.recipient_token;
  authority = accounts.vault;
  signer_seeds = some (vault_seeds a.vault.namespace_authority a.vault.vault_id, a.vault.bump);
  amount = a.request.amount;
  decimals = a.mint.state.decimals;
}

-- With valid accounts and under no pause, a pending request can be executed by any caller within its
-- times, if the asset is enabled, its limits still allow the amount, the custody covers it, the
-- recipient's account can take it, and the token program carries out the transfer.
pub execute_is_open :
    (rt : Runtime) (ctx : Context) (accounts : ExecuteWithdrawal) (l m : Ledger)
    (a : ExecuteWithdrawalLoaded) (window : ℤ × ℕ) (source destination : Interface TokenAccount)
    → load_execute rt ctx accounts l ≡ ok a
    → constrain_execute rt accounts a ≡ ok tt
    → is_paused a.config pause_vault_outflow ≡ false
    → a.vault.paused ≡ false
    → a.request.status ≡ pending
    → a.request.execute_after ≤ℤ ctx.unix_timestamp
    → ctx.unix_timestamp ≤ℤ a.request.expires_at
    → a.asset.enabled ≡ true
    → a.request.amount ≤ a.asset.max_per_transaction
    → next_window_state a.asset a.request.amount ctx.unix_timestamp ≡ ok window
    → a.request.amount ≤ a.vault_token.state.amount
    → a.recipient_token.state.amount + a.request.amount < 2 ^ 64
    → rt.transfer_checked ctx.signers (execute_transfer accounts a) l ≡ some m
    → load_interface rt read_token m accounts.vault_token ≡ ok source
    → load_interface rt read_token m accounts.recipient_token ≡ ok destination
    → source.state.amount + a.request.amount ≡ a.vault_token.state.amount
    → destination.state.amount ≡ a.recipient_token.state.amount + a.request.amount
    → (e : Effect) × (execute rt ctx accounts l ≡ ok e)
unfolding execute check_execute require_protocol_active transfer_exact invoke_transfer checked_add
execute_is_open rt ctx accounts l m a window source destination loaded constrained active unpaused
      live after before enabled within taken covered fits moved at_source at_destination paid_out
      paid_in =
    elim (Result-cases (execute rt ctx accounts l)) [
      | inl done ↦ done
      | inr (error, failed) ↦ absurd (ground arith)
    ]
