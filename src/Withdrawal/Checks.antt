-- ===== src/Withdrawal/Checks.antt =====
-- What the checks of the two routes out of a vault say, and who passes an authorization.
use iron_vault.Error.{err, ok, program, timelock_not_required}
use iron_vault.Prelude.{
  arith, false, inl, inr, true, ℕ, ℕ_discrete, ◌+◌, ◌<◌, ◌==◌, ◌||◌, ◌≡◌, ◌≤◌, ◌⊎◌,
}
use iron_vault.Prelude.Int.{checked_add, checked_add_i64, ℤ, ◌+ℤ◌, ◌<ℤ◌}
use iron_vault.State.{Pubkey}
use iron_vault.Withdrawal.Instant.{WithdrawLoaded, check_withdraw}
use iron_vault.Withdrawal.Request.{
  RequestWithdrawalLoaded, Schedule, check_request, schedule_request,
}

-- The amount decides the route: for one asset of an unpaused vault, an amount that passes the checks
-- of an instant withdrawal is refused as a request, since it needs no timelock.
pub routes_exclude :
    (a : WithdrawLoaded) (b : RequestWithdrawalLoaded) (amount : ℕ)
    → a.asset.timelock_threshold ≡ b.asset.timelock_threshold
    → a.asset.max_per_transaction ≡ b.asset.max_per_transaction
    → a.asset.enabled ≡ b.asset.enabled
    → a.vault.paused ≡ b.vault.paused
    → check_withdraw a amount ≡ ok tt
    → check_request b amount ≡ err (program timelock_not_required)
unfolding check_withdraw check_request
routes_exclude a b amount same_threshold same_max same_enabled same_paused h = ground arith

pub by_authority_or_role :
    (caller authority : Pubkey) (Role : Type 0)
    → ((caller == authority) ≡ true) ⊎ Role
    → (caller ≡ authority) ⊎ Role
by_authority_or_role caller authority Role (inl same) = inl (ground arith)
by_authority_or_role caller authority Role (inr role) = inr role

pub by_one_of_three :
    (caller a b c : Pubkey) (Role : Type 0)
    → ((caller == a || (caller == b || caller == c)) ≡ true) ⊎ Role
    → (caller ≡ a) ⊎ ((caller ≡ b) ⊎ ((caller ≡ c) ⊎ Role))
by_one_of_three caller a b c Role (inr role) = inr (inr (inr role))
by_one_of_three caller a b c Role (inl same) = elim (ℕ_discrete caller a) [
  | yes p ↦ inl p
  | no p ↦ elim (ℕ_discrete caller b) [
    | yes q ↦ inr (inl q)
    | no q ↦ inr (inr (inl (ground arith)))
  ]
]

pub check_request-eq_ok :
    (a : RequestWithdrawalLoaded) (amount : ℕ)
    → check_request a amount ≡ ok tt
    → (a.vault.paused ≡ false)
      × (a.asset.timelock_threshold < amount)
      × (amount ≤ a.asset.max_per_transaction)
unfolding check_request
check_request-eq_ok a amount h = ground arith

pub schedule_request-eq_ok :
    (a : RequestWithdrawalLoaded) (now : ℤ) (s : Schedule)
    → schedule_request a now ≡ ok s
    → (s.execute_after ≡ now +ℤ a.asset.timelock_seconds)
      × (s.expires_at ≡ s.execute_after +ℤ a.asset.request_execution_window_seconds)
      × (now <ℤ s.execute_after)
      × (s.execute_after <ℤ s.expires_at)
      × (s.next_withdrawal_id ≡ a.vault.next_withdrawal_id + 1)
unfolding schedule_request checked_add checked_add_i64
schedule_request-eq_ok a now s h = ground arith
