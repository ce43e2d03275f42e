-- ===== src/Asset/Window.antt =====
-- The window of an asset across `update` of
-- programs/iron_vault/src/instructions/update_limits.rs.
use iron_vault.Asset.Limits.{Policy, UpdateLimits, rewindow, update_policy, with_policy}
use iron_vault.Asset.Policy.{update_policy-eq_ok}
use iron_vault.Error.{ok}
use iron_vault.Prelude.{arith, ℕ, ◌≡◌}
use iron_vault.Prelude.Int.{checked_add_i64, eq_of_parts, pos, ℤ, ◌+ℤ◌, ◌<ℤ◌}
use iron_vault.Runtime.{Content, Context, Effect, Ledger, Runtime, store}
use iron_vault.Runtime.Accounts.{HoldsProgram}
use iron_vault.State.{VaultAsset}

module _ (rt : Runtime) (ctx : Context) (l : Ledger) (e : Effect) where
  live_window_stays :
      (asset : VaultAsset) (window_seconds now start : ℤ) (spent : ℕ)
      → rewindow asset window_seconds now ≡ ok (start, spent)
      → pos 0 <ℤ asset.window_seconds
      → now <ℤ (asset.window_started_at +ℤ asset.window_seconds)
      → (window_seconds ≡ asset.window_seconds)
        × (start ≡ asset.window_started_at)
        × (spent ≡ asset.window_spent)
  unfolding rewindow checked_add_i64
  live_window_stays asset window_seconds now start spent h positive live =
      (ground (arith, eq_of_parts window_seconds asset.window_seconds), ground arith, ground arith)

  -- Before the end of the asset's window a change of the limits succeeds only with the duration that
  -- the window has, and the asset that it stores differs from the one before in the limits and the
  -- timelock at most: the window keeps its duration, its start and what has been spent in it.
  pub limits_keep_live_window :
      (accounts : UpdateLimits) (p : Policy) (asset : VaultAsset)
      → update_policy rt ctx accounts p l ≡ ok e
      → HoldsProgram rt l accounts.vault_asset (Content.vault_asset asset)
      → pos 0 <ℤ asset.window_seconds
      → ctx.unix_timestamp <ℤ (asset.window_started_at +ℤ asset.window_seconds)
      → (p.window_seconds ≡ asset.window_seconds)
        × HoldsProgram rt e.ledger accounts.vault_asset (
            Content.vault_asset (record asset {
              max_per_transaction = p.max_per_transaction;
              window_limit = p.window_limit;
              timelock_threshold = p.timelock_threshold;
              timelock_seconds = p.timelock_seconds;
              request_execution_window_seconds = p.request_execution_window_seconds;
            }))
  limits_keep_live_window accounts p asset h at positive live =
      let (vault, found, window, _, _, at_found, _, _, moved, _, wrote) =
        update_policy-eq_ok rt ctx l e accounts p h in
      let same : found ≡ asset = same_asset found asset at_found at in
      let (seconds, start, spent) =
        live_window_stays asset p.window_seconds ctx.unix_timestamp window.0 window.1
          (rw (← same) moved) positive live in
      (seconds, stored found window same seconds start spent wrote)
    where
      same_asset :
          (a b : VaultAsset)
          → HoldsProgram rt l accounts.vault_asset (Content.vault_asset a)
          → HoldsProgram rt l accounts.vault_asset (Content.vault_asset b)
          → a ≡ b
      same_asset a b at_a at_b = cc

      stored :
          (found : VaultAsset) (window : ℤ × ℕ)
          → found ≡ asset
          → p.window_seconds ≡ asset.window_seconds
          → window.0 ≡ asset.window_started_at
          → window.1 ≡ asset.window_spent
          → e.ledger
            ≡ store rt accounts.vault_asset (Content.vault_asset (with_policy found p window)) l
          → HoldsProgram rt e.ledger accounts.vault_asset (
              Content.vault_asset (record asset {
                max_per_transaction = p.max_per_transaction;
                window_limit = p.window_limit;
                timelock_threshold = p.timelock_threshold;
                timelock_seconds = p.timelock_seconds;
                request_execution_window_seconds = p.request_execution_window_seconds;
              }))
      stored found window same seconds start spent wrote =
          let kept : with_policy found p window ≡ record asset {
            max_per_transaction = p.max_per_transaction;
            window_limit = p.window_limit;
            timelock_threshold = p.timelock_threshold;
            timelock_seconds = p.timelock_seconds;
            request_execution_window_seconds = p.request_execution_window_seconds;
          } =
            cc in
          ground arith
