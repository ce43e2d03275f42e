-- ===== src/Program/Once.antt =====
-- An escrow is settled once, and a request ends once, whatever happens afterwards.
use iron_vault.Error.{ok}
use iron_vault.Escrow.Refund.{RefundEscrow, refund}
use iron_vault.Escrow.Release.{ReleaseEscrow, release}
use iron_vault.Escrow.Settlement.{refund_settles, release_settles}
use iron_vault.Prelude.{arith, ◌≡◌, ◌≢◌}
use iron_vault.Program.History.{Reach, escrow_for_ever, request_for_ever}
use iron_vault.Runtime.{Content, Context, Effect, Ledger, Runtime, store}
use iron_vault.Runtime.Accounts.{HoldsProgram}
use iron_vault.Runtime.Frame.{TokenProgram}
use iron_vault.State.{
  Escrow, Pubkey, WithdrawalRequest, cancelled, executed, funded, pending, refunded, released,
}
use iron_vault.Withdrawal.Cancel.{CancelWithdrawal, cancel}
use iron_vault.Withdrawal.Execute.{ExecuteWithdrawal, execute}
use iron_vault.Withdrawal.Execution.{execute-eq_ok}
use iron_vault.Withdrawal.Lifecycle.{cancel-eq_ok}

module _ (rt : Runtime) where
  released_is_final :
      (ctx : Context) (accounts : ReleaseEscrow) (m : Ledger) (e : Effect) (f : Escrow)
      → HoldsProgram rt m accounts.escrow (Content.escrow f)
      → f.status ≢ funded
      → release rt ctx accounts m ≢ ok e
  released_is_final ctx accounts m e f held final h =
      let (g, _, _, _, _, _, _, _, settles, _) = release_settles rt ctx accounts m e h in
      final (ground (arith, settles.held, settles.was_funded))

  refunded_is_final :
      (ctx : Context) (accounts : RefundEscrow) (m : Ledger) (e : Effect) (f : Escrow)
      → HoldsProgram rt m accounts.escrow (Content.escrow f)
      → f.status ≢ funded
      → refund rt ctx accounts m ≢ ok e
  refunded_is_final ctx accounts m e f held final h =
      let (g, _, _, _, settles, _) = refund_settles rt ctx accounts m e h in
      final (ground (arith, settles.held, settles.was_funded))

  execution_is_final :
      (ctx : Context) (accounts : ExecuteWithdrawal) (m : Ledger) (e : Effect)
      (q : WithdrawalRequest)
      → HoldsProgram rt m accounts.withdrawal_request (Content.withdrawal_request q)
      → q.status ≢ pending
      → execute rt ctx accounts m ≢ ok e
  execution_is_final ctx accounts m e q held final h =
      let s = execute-eq_ok rt ctx accounts m e h in
      final (pending_of m accounts.withdrawal_request q s.3 held s.11 s.14)
    where
      pending_of :
          (m : Ledger) (k : Pubkey) (q p : WithdrawalRequest)
          → HoldsProgram rt m k (Content.withdrawal_request q)
          → HoldsProgram rt m k (Content.withdrawal_request p)
          → p.status ≡ pending
          → q.status ≡ pending
      pending_of m k q p at also was = ground arith

  cancellation_is_final :
      (ctx : Context) (accounts : CancelWithdrawal) (m : Ledger) (e : Effect)
      (q : WithdrawalRequest)
      → HoldsProgram rt m accounts.withdrawal_request (Content.withdrawal_request q)
      → q.status ≢ pending
      → cancel rt ctx accounts m ≢ ok e
  cancellation_is_final ctx accounts m e q held final h =
      let (_, p, _, _, at, was_pending, _, _, _, _) = cancel-eq_ok rt ctx m e accounts h in
      final (ground arith)

module _ (rt : Runtime) (tp : TokenProgram rt) where
  settled_for_ever :
      (l m : Ledger) (k : Pubkey) (f : Escrow)
      → HoldsProgram rt l k (Content.escrow f)
      → f.status ≢ funded
      → Reach rt l m
      → (again : Context) (a : ReleaseEscrow) (b : RefundEscrow) (e : Effect) → a.escrow ≡ k
      → b.escrow ≡ k
      → (release rt again a m ≢ ok e) × (refund rt again b m ≢ ok e)
  settled_for_ever l m k f held final later again a b e released_k refunded_k =
      let (g, at, _, moves) = escrow_for_ever rt tp k f held later in
      let still : g.status ≢ funded = λ p. final (ground arith) in
      (
        λ h. released_is_final rt again a m e g (rw released_k at) still h,
        λ h. refunded_is_final rt again b m e g (rw refunded_k at) still h,
      )

  ended_for_ever :
      (l m : Ledger) (k : Pubkey) (q : WithdrawalRequest)
      → HoldsProgram rt l k (Content.withdrawal_request q)
      → q.status ≢ pending
      → Reach rt l m
      → (again : Context) (a : ExecuteWithdrawal) (b : CancelWithdrawal) (e : Effect)
      → a.withdrawal_request ≡ k
      → b.withdrawal_request ≡ k
      → (execute rt again a m ≢ ok e) × (cancel rt again b m ≢ ok e)
  ended_for_ever l m k q held final later again a b e executed_k cancelled_k =
      let (g, at, _, moves) = request_for_ever rt tp k q held later in
      let still : g.status ≢ pending = λ p. final (ground arith) in
      (
        λ h. execution_is_final rt again a m e g (rw executed_k at) still h,
        λ h. cancellation_is_final rt again b m e g (rw cancelled_k at) still h,
      )

  -- After a release has succeeded no release and no refund of that escrow ever succeeds again.
  pub release_once :
      (ctx : Context) (accounts : ReleaseEscrow) (l m : Ledger) (e : Effect)
      → release rt ctx accounts l ≡ ok e
      → Reach rt e.ledger m
      → (again : Context) (a : ReleaseEscrow) (b : RefundEscrow) (x : Effect)
      → a.escrow ≡ accounts.escrow
      → b.escrow ≡ accounts.escrow
      → (release rt again a m ≢ ok x) × (refund rt again b m ≢ ok x)
  release_once ctx accounts l m e h later again a b x at_a at_b =
      let (f, _, n, _, _, _, _, _, _, wrote) = release_settles rt ctx accounts l e h in
      settled_for_ever e.ledger m accounts.escrow (record f { status = released }) (ground arith)
        (λ y. cc) later again a b x at_a at_b

  -- After a refund has succeeded no release and no refund of that escrow ever succeeds again.
  pub refund_once :
      (ctx : Context) (accounts : RefundEscrow) (l m : Ledger) (e : Effect)
      → refund rt ctx accounts l ≡ ok e
      → Reach rt e.ledger m
      → (again : Context) (a : ReleaseEscrow) (b : RefundEscrow) (x : Effect)
      → a.escrow ≡ accounts.escrow
      → b.escrow ≡ accounts.escrow
      → (release rt again a m ≢ ok x) × (refund rt again b m ≢ ok x)
  refund_once ctx accounts l m e h later again a b x at_a at_b =
      let (f, n, _, _, _, wrote) = refund_settles rt ctx accounts l e h in
      settled_for_ever e.ledger m accounts.escrow (record f { status = refunded }) (ground arith)
        (λ y. cc) later again a b x at_a at_b

  -- After an execution has succeeded the request is never executed again, nor cancelled.
  pub execute_once :
      (ctx : Context) (accounts : ExecuteWithdrawal) (l m : Ledger) (e : Effect)
      → execute rt ctx accounts l ≡ ok e
      → Reach rt e.ledger m
      → (again : Context) (a : ExecuteWithdrawal) (b : CancelWithdrawal) (x : Effect)
      → a.withdrawal_request ≡ accounts.withdrawal_request
      → b.withdrawal_request ≡ accounts.withdrawal_request
      → (execute rt again a m ≢ ok x) × (cancel rt again b m ≢ ok x)
  execute_once ctx accounts l m e h later again a b x at_a at_b =
      let s = execute-eq_ok rt ctx accounts l e h in
      ended_after_execution s.3 _ s.26 again a b x at_a at_b
    where
      ended_after_execution :
          (q : WithdrawalRequest) (n : Ledger)
          → e.ledger
            ≡ store rt accounts.withdrawal_request
                (Content.withdrawal_request (record q { status = executed }))
                n
          → (again : Context) (a : ExecuteWithdrawal) (b : CancelWithdrawal) (x : Effect)
          → a.withdrawal_request ≡ accounts.withdrawal_request
          → b.withdrawal_request ≡ accounts.withdrawal_request
          → (execute rt again a m ≢ ok x) × (cancel rt again b m ≢ ok x)
      ended_after_execution q n wrote again a b x at_a at_b =
          ended_for_ever e.ledger m accounts.withdrawal_request (record q { status = executed })
            (ground arith) (λ y. cc) later again a b x at_a at_b

  -- After a cancellation has succeeded the request is never executed, nor cancelled again.
  pub cancel_once :
      (ctx : Context) (accounts : CancelWithdrawal) (l m : Ledger) (e : Effect)
      → cancel rt ctx accounts l ≡ ok e
      → Reach rt e.ledger m
      → (again : Context) (a : ExecuteWithdrawal) (b : CancelWithdrawal) (x : Effect)
      → a.withdrawal_request ≡ accounts.withdrawal_request
      → b.withdrawal_request ≡ accounts.withdrawal_request
      → (execute rt again a m ≢ ok x) × (cancel rt again b m ≢ ok x)
  cancel_once ctx accounts l m e h later again a b x at_a at_b =
      let (_, q, _, _, _, _, _, _, _, wrote) = cancel-eq_ok rt ctx l e accounts h in
      ended_for_ever e.ledger m accounts.withdrawal_request (record q { status = cancelled })
        (ground arith) (λ y. cc) later again a b x at_a at_b
