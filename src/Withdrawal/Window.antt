-- ===== src/Withdrawal/Window.antt =====
-- `next_window_state` of programs/iron_vault/src/instructions/withdraw.rs: the rolling window that
-- both kinds of outflow share.
use iron_vault.Error.{
  Result, invalid_withdrawal_policy, ok, ok_or, program, require, window_limit_exceeded,
  withdrawal_policy_overflow, ◌>>=◌, ◌>>◌,
}
use iron_vault.Prelude.{if◌then◌else◌, leb, ℕ}
use iron_vault.Prelude.Int.{checked_add, checked_add_i64, eqb_ℤ, leb_ℤ, ltb_ℤ, pos, ℤ}
use iron_vault.State.{VaultAsset}

-- The start and the spend of the window after an outflow of `amount` at `now`.
unfoldable pub next_window_state : VaultAsset → ℕ → ℤ → Result (ℤ × ℕ)
next_window_state asset amount now =
    if eqb_ℤ asset.window_seconds (pos 0)
    then ok (asset.window_started_at, asset.window_spent)
    else (do
      require (ltb_ℤ (pos 0) asset.window_seconds) invalid_withdrawal_policy
      window_ends ←
          ok_or (checked_add_i64 asset.window_started_at asset.window_seconds)
            (program withdrawal_policy_overflow)
      let elapsed = leb_ℤ window_ends now
      let window_start = if elapsed then now else asset.window_started_at
      let spent_before = if elapsed then 0 else asset.window_spent
      spent_after ← ok_or (checked_add spent_before amount) (program withdrawal_policy_overflow)
      require (leb spent_after asset.window_limit) window_limit_exceeded
      ok (window_start, spent_after))
