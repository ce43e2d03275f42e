-- ===== src/Program/Evolution/Movement.antt =====
-- The evolution of the state accounts under the escrows, deposits and withdrawals.
use iron_vault.Asset.Deposit.{Deposit, deposit_tokens}
use iron_vault.Asset.Outcome.{deposit-eq_ok}
use iron_vault.Error.{ok}
use iron_vault.Escrow.Create.{CreateEscrow, create}
use iron_vault.Escrow.Funding.{create_funds}
use iron_vault.Escrow.Refund.{RefundEscrow, refund}
use iron_vault.Escrow.Release.{ReleaseEscrow, release}
use iron_vault.Escrow.Settlement.{IsPaidTo, Payment, refund_settles, release_settles}
use iron_vault.Prelude.{ap, arith, inl, inr, none, refl, some, ℕ, ◌∙◌, ◌≡◌, ◌≢◌}
use iron_vault.Prelude.Int.{ℤ}
use iron_vault.Program.Evolution.{Evolution, Keeps-Evolution, init-Evolution, store-Evolution}
use iron_vault.Program.Evolution.Configuration.{along}
use iron_vault.Runtime.{
  Account, Content, Context, Effect, Interface, Ledger, Runtime, TokenAccount, TransferChecked,
  empty_token, store, store_token,
}
use iron_vault.Runtime.Accounts.{HoldsToken}
use iron_vault.Runtime.Frame.{Keeps, TokenProgram, token_is_no_state, transfer_exact-Keeps}
use iron_vault.State.{Escrow, EscrowStatus, Pubkey, funded, refunded, released}
use iron_vault.Withdrawal.Cancel.{CancelWithdrawal, cancel}
use iron_vault.Withdrawal.Execute.{ExecuteWithdrawal, execute}
use iron_vault.Withdrawal.Execution.{execute-eq_ok}
use iron_vault.Withdrawal.Instant.{Withdraw, withdraw_tokens}
use iron_vault.Withdrawal.Lifecycle.{cancel-eq_ok, next_id_grows, request-eq_ok}
use iron_vault.Withdrawal.Outflow.{withdraw-eq_ok}
use iron_vault.Withdrawal.Request.{RequestWithdrawal, request}

differs_from_absent : (l : Ledger) (k w : Pubkey) (a : Account) → l w ≡ none → l k ≡ some a → k ≢ w
differs_from_absent l k w a absent at e = let same : l k ≡ l w = ap l e in ground arith

module _ (rt : Runtime) (tp : TokenProgram rt) (ctx : Context) (l : Ledger) (e : Effect) where
  -- The evolution over one transfer between token accounts.
  transfer-Evolution :
      (t : TransferChecked) (n m : Ledger) (from to : Pubkey)
      (source destination : Interface TokenAccount)
      → t.from ≡ from
      → t.to ≡ to
      → HoldsToken l from source
      → HoldsToken l to destination
      → rt.transfer_checked ctx.signers t l ≡ some m
      → Evolution rt l m
  transfer-Evolution t n m from to source destination same_from same_to at_from at_to called =
      Keeps-Evolution rt l m (
        transfer_exact-Keeps rt tp ctx t l m source destination (rw same_from at_from)
          (rw same_to at_to) called)

  creation-Keeps :
      (t : TransferChecked) (a : CreateEscrow) (m n : Ledger) (source : Interface TokenAccount)
      → t.from ≡ a.maker_token
      → t.to ≡ a.escrow_token
      → l a.escrow ≡ none
      → l a.escrow_token ≡ none
      → HoldsToken l a.maker_token source
      → n
        ≡ store_token a.escrow_token a.token_program
            (empty_token a.mint a.escrow)
            (store rt a.escrow Content.other l)
      → rt.transfer_checked ctx.signers t n ≡ some m
      → Keeps rt l m
  creation-Keeps t a m n source from to absent custody_absent at_source made called k c s at =
      let other_escrow = differs_from_absent l k a.escrow _ absent at in
      let other_custody = differs_from_absent l k a.escrow_token _ custody_absent at in
      let other_source = token_is_no_state rt l k a.maker_token c source s at at_source in
      tp.frame ctx.signers t n m k called (rw from other_source) (rw to other_custody)
      ∙ (rw made (ground arith))

  pub create-Evolution :
      (a : CreateEscrow) (escrow_id : ℕ) (recipient : Pubkey) (amount : ℕ) (expires_at : ℤ)
      → create rt ctx a escrow_id recipient amount expires_at l ≡ ok e
      → Evolution rt l e.ledger
  create-Evolution a escrow_id recipient amount expires_at h =
      let (
        b, m, t, _, absent, custody_absent, source, _, _, _, _, _, _, from, to, made, called, _, _,
        _, wrote,
      ) =
        create_funds rt ctx a l escrow_id recipient amount expires_at e h in
      along rt l _ e.ledger wrote (
        init-Evolution rt l m a.escrow _ absent (
          Keeps-Evolution rt l m (
            creation-Keeps t a m b.ledger b.maker_token from to absent custody_absent source made
              called)))

  Payment-Evolution :
      (m : Ledger) (k from to : Pubkey) (escrow : Escrow) (owner : Pubkey) (status : EscrowStatus)
      → status ≢ funded
      → IsPaidTo l to escrow owner
      → Payment rt ctx l m k from to escrow
      → Evolution rt l (store rt k (Content.escrow (record escrow { status = status })) m)
  Payment-Evolution m k from to escrow owner status terminal (paid, at, _, _, _) s =
      store-Evolution rt l m k (Content.escrow escrow) _ s.held (refl, inr (s.was_funded, terminal))
        (transfer-Evolution s.transfer l m from to s.custody paid s.transfer_from s.transfer_to
          s.custody_held at s.transferred)

  pub release-Evolution : (a : ReleaseEscrow) → release rt ctx a l ≡ ok e → Evolution rt l e.ledger
  release-Evolution a h =
      let (escrow, _, m, _, _, _, _, paid, settles, wrote) = release_settles rt ctx a l e h in
      along rt l _ e.ledger wrote (
        Payment-Evolution m a.escrow a.escrow_token a.recipient_token escrow escrow.recipient
          released (λ x. cc) paid settles)

  pub refund-Evolution : (a : RefundEscrow) → refund rt ctx a l ≡ ok e → Evolution rt l e.ledger
  refund-Evolution a h =
      let (escrow, m, _, paid, settles, wrote) = refund_settles rt ctx a l e h in
      along rt l _ e.ledger wrote (
        Payment-Evolution m a.escrow a.escrow_token a.maker_destination escrow escrow.maker refunded
          (λ x. cc) paid settles)

  pub deposit-Evolution :
      (a : Deposit) (amount : ℕ) → deposit_tokens rt ctx a amount l ≡ ok e → Evolution rt l e.ledger
  deposit-Evolution a amount h =
      let (_, t, source, custody, _, at_source, at_custody, _, _, _, _, _, from, to, called, _, _) =
        deposit-eq_ok rt ctx l e a amount h in
      transfer-Evolution t l e.ledger a.source_token a.vault_token source custody from to at_source
        at_custody called

  pub withdraw-Evolution :
      (a : Withdraw) (amount : ℕ)
      → withdraw_tokens rt ctx a amount l ≡ ok e
      → Evolution rt l e.ledger
  withdraw-Evolution a amount h =
      let (
        _, _, asset, window, m, t, source, destination, _, _, held, at_source, at_destination, _, _,
        _, _, _, from, to, called, _, wrote,
      ) =
        withdraw-eq_ok rt ctx l e a amount h in
      along rt l _ e.ledger wrote (
        store-Evolution rt l m a.vault_asset (Content.vault_asset asset) _ held (ground arith) (
          transfer-Evolution t l m a.vault_token a.destination_token source destination from to
            at_source at_destination called))

  pub request-Evolution :
      (a : RequestWithdrawal) (amount : ℕ)
      → request rt ctx a amount l ≡ ok e
      → Evolution rt l e.ledger
  request-Evolution a amount h =
      let (b, s, _, _, held, _, absent, _, _, _, _, timed, wrote) =
        request-eq_ok rt ctx l e a amount h in
      along rt l _ e.ledger wrote (
        init-Evolution rt l _ a.withdrawal_request _ absent (
          store-Evolution rt l l a.vault (Content.vault b.vault) _ held
            (refl, next_id_grows b ctx.unix_timestamp s timed, inl refl)
            (Keeps-Evolution rt l l (λ k c is at. at))))

  pub execute-Evolution :
      (a : ExecuteWithdrawal) → execute rt ctx a l ≡ ok e → Evolution rt l e.ledger
  execute-Evolution a h =
      let (
        _, _, asset, request, window, m, t, source, destination, _, held, held_request, at_source,
        at_destination, was_pending, _, _, _, _, _, _, from, to, called, _, _, wrote,
      ) =
        execute-eq_ok rt ctx a l e h in
      along rt l _ e.ledger wrote (
        store-Evolution rt l _ a.withdrawal_request (Content.withdrawal_request request) _
          held_request (refl, inr (was_pending, λ x. cc))
          (store-Evolution rt l m a.vault_asset (Content.vault_asset asset) _ held refl (
            transfer-Evolution t l m a.vault_token a.recipient_token source destination from to
              at_source at_destination called)))

  pub cancel-Evolution : (a : CancelWithdrawal) → cancel rt ctx a l ≡ ok e → Evolution rt l e.ledger
  cancel-Evolution a h =
      let (_, request, _, _, held, was_pending, _, _, _, wrote) = cancel-eq_ok rt ctx l e a h in
      along rt l _ e.ledger wrote (
        store-Evolution rt l l a.withdrawal_request (Content.withdrawal_request request) _ held
          (refl, inr (was_pending, λ x. cc)) (Keeps-Evolution rt l l (λ k c is at. at)))
