-- ===== src/Withdrawal/Routes.antt =====
-- The two routes out of a vault, and what each of them guarantees.
use iron_vault.Constants.{
  pause_vault_outflow, permission_cancel_withdrawal, permission_request_withdrawal,
  permission_withdraw,
}
use iron_vault.Error.{ok}
use iron_vault.Multisig.Approval.{signed}
use iron_vault.Prelude.{arith, false, none, refl, some, subst, true, ℕ, ◌+◌, ◌<◌, ◌≡◌, ◌≤◌, ◌⊎◌}
use iron_vault.Prelude.Int.{◌+ℤ◌, ◌<ℤ◌, ◌≤ℤ◌}
use iron_vault.Runtime.{Content, Context, Effect, Ledger, Runtime, store}
use iron_vault.Runtime.Accounts.{HoldsProgram}
use iron_vault.Security.Delegation.{HasRole, authorize_sound}
use iron_vault.Seeds.{vault_token_seeds, withdrawal_seeds}
use iron_vault.State.{
  ProtocolConfig, Vault, VaultAsset, WithdrawalRequest, cancelled, executed, is_paused, pending,
}
use iron_vault.Withdrawal.Cancel.{CancelWithdrawal, authorize_cancel, cancel}
use iron_vault.Withdrawal.Checks.{
  by_authority_or_role, by_one_of_three, check_request-eq_ok, schedule_request-eq_ok,
}
use iron_vault.Withdrawal.Execute.{ExecuteWithdrawal, execute}
use iron_vault.Withdrawal.Execution.{execute-custody, execute-eq_ok}
use iron_vault.Withdrawal.Instant.{Withdraw, authorize_withdraw, withdraw_tokens}
use iron_vault.Withdrawal.Lifecycle.{cancel-eq_ok, request-eq_ok}
use iron_vault.Withdrawal.Outflow.{Outflow, withdraw-custody, withdraw-eq_ok}
use iron_vault.Withdrawal.Request.{RequestWithdrawal, authorize_request, new_request, request}

module _ (rt : Runtime) (ctx : Context) (l : Ledger) (e : Effect) where
  -- An instant withdrawal is signed by an authorized caller, stays within the threshold and the limit
  -- of one transaction, happens under no pause of the protocol's or the vault's account, and moves
  -- exactly its amount out of the canonical custody.
  pub withdraw_is_guarded :
      (accounts : Withdraw) (amount : ℕ)
      → withdraw_tokens rt ctx accounts amount l ≡ ok e
      → (config : ProtocolConfig) × (vault : Vault) × (asset : VaultAsset) × HoldsProgram rt l
          accounts.protocol_config
          (Content.protocol_config config)
        × HoldsProgram rt l accounts.vault (Content.vault vault)
        × HoldsProgram rt l accounts.vault_asset (Content.vault_asset asset)
        × (ctx.signers accounts.caller ≡ true)
        × ((accounts.caller ≡ vault.authority)
            ⊎ HasRole rt l accounts.vault accounts.caller permission_withdraw)
        × ((rt.find_program_address (vault_token_seeds accounts.vault accounts.mint)).0
            ≡ accounts.vault_token)
        × (0 < amount)
        × (amount ≤ asset.timelock_threshold)
        × Outflow l e.ledger config vault asset accounts.vault_token accounts.destination_token
            amount
  unfolding authorize_withdraw
  withdraw_is_guarded accounts amount h =
      let (
        config, vault, asset, window, m, t, source, destination, held_config, held_vault, held, _,
        _, signed, authorized, positive, below, _, _, _, _, outflow, _,
      ) =
        withdraw-eq_ok rt ctx l e accounts amount h in
      (
        config,
        vault,
        asset,
        held_config,
        held_vault,
        held,
        signed,
        by_authority_or_role accounts.caller vault.authority _ (
            authorize_sound rt l accounts.vault accounts.caller permission_withdraw ctx _ _ _
              authorized),
        withdraw-custody rt ctx l e accounts amount h,
        positive,
        below,
        outflow,
      )

  -- A request is made under no pause of the protocol's or the vault's account and signed by the
  -- authority or a proposer with the permission, for an
  -- amount above the threshold; it is pending, with its timelock and its execution window after
  -- `now`, for that vault, asset and proposer, under the next identifier and at the address derived
  -- from it, and the identifier then counts on by one.
  pub request_schedules :
      (accounts : RequestWithdrawal) (amount : ℕ)
      → request rt ctx accounts amount l ≡ ok e
      → (config : ProtocolConfig) × (vault : Vault) × (asset : VaultAsset) × (q : WithdrawalRequest)
        × HoldsProgram rt l accounts.protocol_config (Content.protocol_config config)
        × HoldsProgram rt l accounts.vault (Content.vault vault)
        × HoldsProgram rt l accounts.vault_asset (Content.vault_asset asset)
        × (ctx.signers accounts.proposer ≡ true)
        × ((accounts.proposer ≡ vault.authority)
            ⊎ HasRole rt l accounts.vault accounts.proposer permission_request_withdrawal)
        × (is_paused config pause_vault_outflow ≡ false)
        × (vault.paused ≡ false)
        × (asset.timelock_threshold < amount)
        × (amount ≤ asset.max_per_transaction)
        × (l accounts.withdrawal_request ≡ none)
        × HoldsProgram rt e.ledger accounts.withdrawal_request (Content.withdrawal_request q)
        × (q.status ≡ pending)
        × (rt.find_program_address (withdrawal_seeds accounts.vault vault.next_withdrawal_id)
            ≡ (accounts.withdrawal_request, q.bump))
        × (q.vault ≡ accounts.vault)
        × (q.vault_asset ≡ accounts.vault_asset)
        × (q.proposer ≡ accounts.proposer)
        × (q.created_at ≡ ctx.unix_timestamp)
        × (q.amount ≡ amount)
        × (q.withdrawal_id ≡ vault.next_withdrawal_id)
        × (q.recipient_token_account ≡ accounts.recipient_token)
        × (q.execute_after ≡ ctx.unix_timestamp +ℤ asset.timelock_seconds)
        × (q.expires_at ≡ q.execute_after +ℤ asset.request_execution_window_seconds)
        × (ctx.unix_timestamp <ℤ q.execute_after)
        × (q.execute_after <ℤ q.expires_at)
        × HoldsProgram rt e.ledger accounts.vault
            (Content.vault (record vault { next_withdrawal_id = vault.next_withdrawal_id + 1 }))
  unfolding authorize_request
  request_schedules accounts amount h =
      let (
        a, s, signed, held_config, held_vault, held, absent, canonical, active, authorized, checked,
        timed, wrote,
      ) =
        request-eq_ok rt ctx l e accounts amount h in
      let c = check_request-eq_ok a amount checked in
      let t = schedule_request-eq_ok a ctx.unix_timestamp s timed in
      (
        a.config,
        a.vault,
        a.asset,
        new_request accounts a amount ctx.unix_timestamp s,
        held_config,
        held_vault,
        held,
        signed,
        by_authority_or_role accounts.proposer a.vault.authority _ (
            authorize_sound rt l accounts.vault accounts.proposer permission_request_withdrawal ctx
              _ _ _ authorized),
        active,
        c.0,
        c.1,
        c.2,
        absent,
        ground arith,
        refl,
        canonical,
        refl,
        refl,
        refl,
        refl,
        refl,
        refl,
        refl,
        t.0,
        t.1,
        t.2,
        t.3,
        next_vault a.vault s.next_withdrawal_id t.4 (ground arith),
      )
    where
      next_vault :
          (v : Vault) (n : ℕ)
          → n ≡ v.next_withdrawal_id + 1
          → HoldsProgram rt e.ledger accounts.vault
              (Content.vault (record v { next_withdrawal_id = n }))
          → HoldsProgram rt e.ledger accounts.vault
              (Content.vault (record v { next_withdrawal_id = v.next_withdrawal_id + 1 }))
      next_vault v n same at = ground arith

-- An execution happens under no pause of the protocol's or the vault's account, within the times that
-- the request fixed, with the asset and to the account that it fixed, and moves exactly its amount out
-- of the vault's canonical custody; the request is executed then, and otherwise as it was.
pub execute_pays :
    (rt : Runtime) (ctx : Context) (accounts : ExecuteWithdrawal) (l : Ledger) (e : Effect)
    → execute rt ctx accounts l ≡ ok e
    → (config : ProtocolConfig) × (vault : Vault) × (asset : VaultAsset) × (q : WithdrawalRequest)
      × HoldsProgram rt l accounts.protocol_config (Content.protocol_config config)
      × HoldsProgram rt l accounts.vault (Content.vault vault)
      × HoldsProgram rt l accounts.vault_asset (Content.vault_asset asset)
      × HoldsProgram rt l accounts.withdrawal_request (Content.withdrawal_request q)
      × (q.status ≡ pending)
      × (q.execute_after ≤ℤ ctx.unix_timestamp)
      × (ctx.unix_timestamp ≤ℤ q.expires_at)
      × (q.vault_asset ≡ accounts.vault_asset)
      × ((rt.find_program_address (vault_token_seeds accounts.vault accounts.mint)).0
          ≡ accounts.vault_token)
      × Outflow l e.ledger config vault asset accounts.vault_token q.recipient_token_account
          q.amount
      × HoldsProgram rt e.ledger accounts.withdrawal_request
          (Content.withdrawal_request (record q { status = executed }))
execute_pays rt ctx accounts l e h =
    let s = execute-eq_ok rt ctx accounts l e h in
    (
      s.0,
      s.1,
      s.2,
      s.3,
      s.25,
      s.9,
      s.10,
      s.11,
      s.14,
      s.15,
      s.16,
      s.17,
      execute-custody rt ctx accounts l e h,
      subst (λ k. Outflow l e.ledger s.0 s.1 s.2 accounts.vault_token k s.3.amount) s.18 s.24,
      executed_at _ _ _ s.26,
    )
  where
    executed_at :
        (n m : Ledger) (c : Content)
        → n ≡ store rt accounts.withdrawal_request c m
        → HoldsProgram rt n accounts.withdrawal_request c
    executed_at n m c wrote = ground arith

-- A cancellation is signed by its caller, who is the authority, the guardian, the proposer or a
-- holder of the permission. The request was pending, names that vault and lies at the address derived
-- from it with its stored bump; only its status changes, to cancelled.
pub cancel_is_guarded :
    (rt : Runtime) (ctx : Context) (accounts : CancelWithdrawal) (l : Ledger) (e : Effect)
    → cancel rt ctx accounts l ≡ ok e
    → (vault : Vault) × (q : WithdrawalRequest) × HoldsProgram rt l accounts.vault
        (Content.vault vault)
      × HoldsProgram rt l accounts.withdrawal_request (Content.withdrawal_request q)
      × (q.status ≡ pending)
      × (q.vault ≡ accounts.vault)
      × (rt.create_program_address (withdrawal_seeds accounts.vault q.withdrawal_id) q.bump
          ≡ some accounts.withdrawal_request)
      × (ctx.signers accounts.caller ≡ true)
      × ((accounts.caller ≡ vault.authority)
          ⊎ ((accounts.caller ≡ vault.guardian)
              ⊎ ((accounts.caller ≡ q.proposer)
                  ⊎ HasRole rt l accounts.vault accounts.caller permission_cancel_withdrawal)))
      × HoldsProgram rt e.ledger accounts.withdrawal_request
          (Content.withdrawal_request (record q { status = cancelled }))
unfolding authorize_cancel
cancel_is_guarded rt ctx accounts l e h =
    let (vault, q, signed, held_vault, held, was_pending, same_vault, derived, authorized, wrote) =
      cancel-eq_ok rt ctx l e accounts h in
    (
      vault,
      q,
      held_vault,
      held,
      was_pending,
      same_vault,
      derived,
      signed,
      by_one_of_three accounts.caller vault.authority vault.guardian q.proposer _ (
          authorize_sound rt l accounts.vault accounts.caller permission_cancel_withdrawal ctx _ _ _
            authorized),
      ground arith,
    )
