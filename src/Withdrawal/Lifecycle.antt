-- ===== src/Withdrawal/Lifecycle.antt =====
-- What a successful request and a successful cancellation have read, checked and written.
use iron_vault.Constants.{pause_vault_outflow}
use iron_vault.Error.{>>=-eq_ok, ok}
use iron_vault.Multisig.Approval.{signed}
use iron_vault.Prelude.{arith, false, none, some, true, ℕ, ◌≡◌, ◌≤◌}
use iron_vault.Prelude.Int.{checked_add, ℤ}
use iron_vault.Runtime.{
  Content, Context, Effect, Ledger, Runtime, init, load, read_protocol_config, read_vault,
  read_vault_asset, read_withdrawal_request, require_seeds, require_signer, store,
}
use iron_vault.Runtime.Accounts.{
  HoldsProgram, init-eq_ok, load_protocol_config-eq_ok, load_vault-eq_ok, load_vault_asset-eq_ok,
  load_withdrawal_request-eq_ok,
}
use iron_vault.Security.{require_protocol_active}
use iron_vault.Seeds.{withdrawal_seeds}
use iron_vault.State.{Vault, WithdrawalRequest, cancelled, is_paused, pending}
use iron_vault.Withdrawal.Cancel.{CancelWithdrawal, authorize_cancel, cancel}
use iron_vault.Withdrawal.Request.{
  RequestWithdrawal, RequestWithdrawalLoaded, Schedule, authorize_request, check_request,
  new_request, request, schedule_request, validate_request,
}

module _ (rt : Runtime) (ctx : Context) (l : Ledger) (e : Effect) where
  validate_request-eq_ok :
      (accounts : RequestWithdrawal) (a : RequestWithdrawalLoaded)
      → validate_request rt ctx accounts l ≡ ok a
      → (ctx.signers accounts.proposer ≡ true)
        × (load rt read_protocol_config l accounts.protocol_config ≡ ok a.config)
        × (load rt read_vault l accounts.vault ≡ ok a.vault)
        × (load rt read_vault_asset l accounts.vault_asset ≡ ok a.asset)
        × (init rt
              (withdrawal_seeds accounts.vault a.vault.next_withdrawal_id)
              l
              accounts.withdrawal_request
            ≡ ok a.bump)
        × (a.asset.vault ≡ accounts.vault)
  unfolding validate_request
  validate_request-eq_ok accounts a h = ground arith

  pub request-eq_ok :
      (accounts : RequestWithdrawal) (amount : ℕ)
      → request rt ctx accounts amount l ≡ ok e
      → (a : RequestWithdrawalLoaded) × (s : Schedule) × (ctx.signers accounts.proposer ≡ true)
        × HoldsProgram rt l accounts.protocol_config (Content.protocol_config a.config)
        × HoldsProgram rt l accounts.vault (Content.vault a.vault)
        × HoldsProgram rt l accounts.vault_asset (Content.vault_asset a.asset)
        × (l accounts.withdrawal_request ≡ none)
        × (rt.find_program_address (withdrawal_seeds accounts.vault a.vault.next_withdrawal_id)
            ≡ (accounts.withdrawal_request, a.bump))
        × (is_paused a.config pause_vault_outflow ≡ false)
        × (authorize_request rt ctx accounts a.vault l ≡ ok tt)
        × (check_request a amount ≡ ok tt)
        × (schedule_request a ctx.unix_timestamp ≡ ok s)
        × (e.ledger
            ≡ store rt accounts.withdrawal_request
                (Content.withdrawal_request (new_request accounts a amount ctx.unix_timestamp s))
                (store rt accounts.vault
                  (Content.vault (record a.vault { next_withdrawal_id = s.next_withdrawal_id }))
                  l))
  unfolding request require_protocol_active
  request-eq_ok accounts amount h =
      let (a, valid, h1) = >>=-eq_ok (validate_request rt ctx accounts l) _ h in
      let (_, active, h2) = >>=-eq_ok (require_protocol_active a.config pause_vault_outflow) _ h1 in
      let (_, authorized, h3) = >>=-eq_ok (authorize_request rt ctx accounts a.vault l) _ h2 in
      let (_, checked, h4) = >>=-eq_ok (check_request a amount) _ h3 in
      let (s, timed, h5) = >>=-eq_ok (schedule_request a ctx.unix_timestamp) _ h4 in
      let v = validate_request-eq_ok accounts a valid in
      let (absent, canonical) =
        init-eq_ok rt (withdrawal_seeds accounts.vault a.vault.next_withdrawal_id) l
          accounts.withdrawal_request a.bump v.4 in
      (
        a,
        s,
        v.0,
        load_protocol_config-eq_ok rt l accounts.protocol_config a.config v.1,
        load_vault-eq_ok rt l accounts.vault a.vault v.2,
        load_vault_asset-eq_ok rt l accounts.vault_asset a.asset v.3,
        absent,
        canonical,
        ground arith,
        authorized,
        checked,
        timed,
        ground arith,
      )

  pub cancel-eq_ok :
      (accounts : CancelWithdrawal)
      → cancel rt ctx accounts l ≡ ok e
      → (vault : Vault) × (request : WithdrawalRequest) × (ctx.signers accounts.caller ≡ true)
        × HoldsProgram rt l accounts.vault (Content.vault vault)
        × HoldsProgram rt l accounts.withdrawal_request (Content.withdrawal_request request)
        × (request.status ≡ pending)
        × (request.vault ≡ accounts.vault)
        × (rt.create_program_address
              (withdrawal_seeds accounts.vault request.withdrawal_id)
              request.bump
            ≡ some accounts.withdrawal_request)
        × (authorize_cancel rt ctx accounts vault request l ≡ ok tt)
        × (e.ledger
            ≡ store rt accounts.withdrawal_request
                (Content.withdrawal_request (record request { status = cancelled }))
                l)
  unfolding cancel require_seeds
  cancel-eq_ok accounts h =
      let (_, signed, h1) = >>=-eq_ok (require_signer rt ctx accounts.caller) _ h in
      let (vault, found, h2) = >>=-eq_ok (load rt read_vault l accounts.vault) _ h1 in
      let (request, found_request, h3) =
        >>=-eq_ok (load rt read_withdrawal_request l accounts.withdrawal_request) _ h2 in
      (
        vault,
        request,
        ground arith,
        load_vault-eq_ok rt l accounts.vault vault found,
        load_withdrawal_request-eq_ok rt l accounts.withdrawal_request request found_request,
        ground arith,
        ground arith,
        ground arith,
        ground arith,
        ground arith,
      )

-- The identifier of the next request is one more.
pub next_id_grows :
    (a : RequestWithdrawalLoaded) (now : ℤ) (s : Schedule)
    → schedule_request a now ≡ ok s
    → a.vault.next_withdrawal_id ≤ s.next_withdrawal_id
unfolding schedule_request checked_add
next_id_grows a now s h = ground arith
