-- ===== src/Withdrawal/Closed.antt =====
-- What a paused vault refuses.
use iron_vault.Error.{ok}
use iron_vault.Prelude.{arith, false, true, ℕ, ◌≡◌, ◌≢◌}
use iron_vault.Runtime.{Content, Context, Effect, Ledger, Runtime}
use iron_vault.Runtime.Accounts.{HoldsProgram}
use iron_vault.State.{Pubkey, Vault}
use iron_vault.Withdrawal.Execute.{ExecuteWithdrawal, execute}
use iron_vault.Withdrawal.Execution.{execute-eq_ok}
use iron_vault.Withdrawal.Instant.{Withdraw, withdraw_tokens}
use iron_vault.Withdrawal.Request.{RequestWithdrawal, request}
use iron_vault.Withdrawal.Routes.{request_schedules, withdraw_is_guarded}

module _ (rt : Runtime) (ctx : Context) (l : Ledger) (e : Effect) where
  one_vault :
      (k : Pubkey) (v w : Vault)
      → HoldsProgram rt l k (Content.vault v)
      → HoldsProgram rt l k (Content.vault w)
      → v.paused ≡ true
      → w.paused ≢ false
  one_vault k v w at also closed open_ = ground arith

  -- While a vault is paused no instant withdrawal, no request and no execution of it succeeds.
  pub paused_vault_is_closed :
      (k : Pubkey) (vault : Vault) (a : Withdraw) (b : RequestWithdrawal) (c : ExecuteWithdrawal)
      (amount : ℕ)
      → HoldsProgram rt l k (Content.vault vault)
      → vault.paused ≡ true
      → a.vault ≡ k
      → b.vault ≡ k
      → c.vault ≡ k
      → (withdraw_tokens rt ctx a amount l ≢ ok e)
        × (request rt ctx b amount l ≢ ok e)
        × (execute rt ctx c l ≢ ok e)
  paused_vault_is_closed k vault a b c amount held closed at_a at_b at_c = (
    λ h.
        let (_, v, _, _, held_v, _, _, _, _, _, _, outflow) =
          withdraw_is_guarded rt ctx l e a amount h in
        one_vault k vault v held (rw (← at_a) held_v) closed outflow.vault_active,
    λ h.
        let r = request_schedules rt ctx l e b amount h in
        one_vault k vault r.1 held (rw (← at_b) r.5) closed r.10,
    λ h.
        let s = execute-eq_ok rt ctx c l e h in
        one_vault k vault s.1 held (rw (← at_c) s.9) closed s.24.vault_active,
  )
