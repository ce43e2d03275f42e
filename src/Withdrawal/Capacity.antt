-- ===== src/Withdrawal/Capacity.antt =====
-- Runs of outflows of one asset: withdraw.rs and execute_withdrawal.rs with the window that they
-- share.
use iron_vault.Error.{ok}
use iron_vault.Prelude.{ap, arith, false, some, ℕ, ◌+◌, ◌==◌, ◌∙◌, ◌≡◌, ◌≢◌, ◌≤◌}
use iron_vault.Prelude.Int.{checked_add, checked_add_i64, pos, ℤ, ◌+ℤ◌, ◌<ℤ◌}
use iron_vault.Runtime.{Content, Context, Effect, Ledger, Runtime, store}
use iron_vault.Runtime.Accounts.{HoldsProgram}
use iron_vault.State.{Pubkey, VaultAsset, WithdrawalRequest}
use iron_vault.Withdrawal.Execute.{ExecuteWithdrawal, execute}
use iron_vault.Withdrawal.Execution.{execute-eq_ok}
use iron_vault.Withdrawal.Instant.{Withdraw, spend_window, withdraw_tokens}
use iron_vault.Withdrawal.Outflow.{withdraw-eq_ok}
use iron_vault.Withdrawal.Window.{next_window_state}

-- The end of the window, as `next_window_state` computes it.
abbrev pub IsLive : VaultAsset → ℤ → Type 0
IsLive asset now = now <ℤ (asset.window_started_at +ℤ asset.window_seconds)

-- Before the end of the window an outflow adds its amount to the spend and keeps the start, and the
-- sum is within the limit.
pub next_window_charges :
    (asset : VaultAsset) (amount : ℕ) (now start : ℤ) (spent : ℕ)
    → next_window_state asset amount now ≡ ok (start, spent)
    → pos 0 <ℤ asset.window_seconds
    → IsLive asset now
    → (start ≡ asset.window_started_at)
      × (spent ≡ asset.window_spent + amount)
      × (spent ≤ asset.window_limit)
unfolding next_window_state checked_add checked_add_i64
next_window_charges asset amount now start spent h positive live =
    (ground arith, ground arith, ground arith)

-- A run of outflows of the asset at `k`, which took `l` to the ledger of the index and paid out the
-- number of the index in all: instant withdrawals and executions of requests that succeeded before
-- `window_ends`, and between them anything that leaves the asset's account as it is.
pub data Outflows (rt : Runtime) (k : Pubkey) (window_ends : ℤ) (l : Ledger)
    : Ledger → ℕ → Type 0 where
  no_outflow : {sum : ℕ} → sum ≡ 0 → Outflows rt k window_ends l l sum
  paid_directly :
      {m n : Ledger} {sum next_sum : ℕ}
      → Outflows rt k window_ends l m sum
      → (ctx : Context) (accounts : Withdraw) (amount : ℕ) (e : Effect)
      → withdraw_tokens rt ctx accounts amount m ≡ ok e
      → accounts.vault_asset ≡ k
      → ctx.unix_timestamp <ℤ window_ends
      → n ≡ e.ledger
      → next_sum ≡ sum + amount
      → Outflows rt k window_ends l n next_sum
  paid_on_request :
      {m n : Ledger} {sum next_sum : ℕ}
      → Outflows rt k window_ends l m sum
      → (ctx : Context) (accounts : ExecuteWithdrawal) (q : WithdrawalRequest) (e : Effect)
      → execute rt ctx accounts m ≡ ok e
      → HoldsProgram rt m accounts.withdrawal_request (Content.withdrawal_request q)
      → accounts.vault_asset ≡ k
      → ctx.unix_timestamp <ℤ window_ends
      → n ≡ e.ledger
      → next_sum ≡ sum + q.amount
      → Outflows rt k window_ends l n next_sum
  unrelated :
      {m n : Ledger} {sum : ℕ}
      → Outflows rt k window_ends l m sum
      → n k ≡ m k
      → Outflows rt k window_ends l n sum

-- What one outflow of `amount` leaves of the window of `asset`.
one_charge :
    (asset : VaultAsset) (amount : ℕ) (now : ℤ) (window : ℤ × ℕ)
    → next_window_state asset amount now ≡ ok window
    → pos 0 <ℤ asset.window_seconds
    → IsLive asset now
    → (record asset { window_started_at = window.0; window_spent = window.1 }
        ≡ record asset { window_spent = asset.window_spent + amount })
      × (asset.window_spent + amount ≤ asset.window_limit)
one_charge asset amount now window taken positive before =
    let (same, spent, fits) =
      next_window_charges asset amount now window.0 window.1 taken positive before in
    (cc, omega arith)

module _ (rt : Runtime) (k : Pubkey) (asset : VaultAsset) where
  -- The asset with `sum` more spent, within the limit.
  abbrev IsSpent : Ledger → ℕ → Type 0
  IsSpent m sum =
      HoldsProgram rt m k
        (Content.vault_asset (record asset { window_spent = asset.window_spent + sum }))
      × (asset.window_spent + sum ≤ asset.window_limit)

  charged-IsSpent :
      (m : Ledger) (sum next_sum amount : ℕ) (now : ℤ) (found : VaultAsset) (window : ℤ × ℕ)
      → IsSpent m sum
      → HoldsProgram rt m k (Content.vault_asset found)
      → next_window_state found amount now ≡ ok window
      → pos 0 <ℤ asset.window_seconds
      → IsLive asset now
      → next_sum ≡ sum + amount
      → (n : Ledger)
      → HoldsProgram rt n k (
          Content.vault_asset
            (record found { window_started_at = window.0; window_spent = window.1 }))
      → IsSpent n next_sum
  charged-IsSpent m sum next_sum amount now found window (at, fits) at_found taken positive before
        more n at_n =
      let same : found ≡ record asset { window_spent = asset.window_spent + sum } = cc in
      let (kept, within) =
        one_charge (record asset { window_spent = asset.window_spent + sum }) amount now window
          (rw (← same) taken) positive before in
      let total : asset.window_spent + sum + amount ≡ asset.window_spent + next_sum = omega arith in
      let kept' : record asset { window_started_at = window.0; window_spent = window.1 }
          ≡ record asset { window_spent = asset.window_spent + next_sum } =
        rw (← total) kept in
      let stored : record found { window_started_at = window.0; window_spent = window.1 }
          ≡ record asset { window_spent = asset.window_spent + next_sum } =
        cc in
      (
        at_n
            ∙ ap (λ c. some (record { program = rt.program_id; content = Content.vault_asset c }))
                stored,
        omega arith,
      )

  positive_there :
      (m : Ledger) (sum : ℕ) (found : VaultAsset)
      → IsSpent m sum
      → HoldsProgram rt m k (Content.vault_asset found)
      → pos 0 <ℤ asset.window_seconds
      → pos 0 <ℤ found.window_seconds
  positive_there m sum found (at, fits) at_found positive =
      let same : found ≡ record asset { window_spent = asset.window_spent + sum } = cc in
      rw same positive

  written :
      {j : Pubkey} {n : Ledger} (found : VaultAsset) (window : ℤ × ℕ) (paid : Ledger)
      → j ≡ k
      → n ≡ store rt j (Content.vault_asset (spend_window found window)) paid
      → pos 0 <ℤ found.window_seconds
      → HoldsProgram rt n k (
          Content.vault_asset
            (record found { window_started_at = window.0; window_spent = window.1 }))
  written found window paid same wrote positive = ground arith

  withdrawal-IsSpent :
      (m : Ledger) (sum next_sum : ℕ) (ctx : Context) (accounts : Withdraw) (amount : ℕ)
      (e : Effect)
      → IsSpent m sum
      → withdraw_tokens rt ctx accounts amount m ≡ ok e
      → accounts.vault_asset ≡ k
      → pos 0 <ℤ asset.window_seconds
      → IsLive asset ctx.unix_timestamp
      → next_sum ≡ sum + amount
      → IsSpent e.ledger next_sum
  withdrawal-IsSpent m sum next_sum ctx accounts amount e spent h at_k positive before more =
      let (
        _, _, found, window, paid, _, _, _, _, _, held, _, _, _, _, _, _, taken, _, _, _, _, wrote,
      ) =
        withdraw-eq_ok rt ctx m e accounts amount h in
      charged-IsSpent m sum next_sum amount ctx.unix_timestamp found window spent (rw (← at_k) held)
        taken positive before more e.ledger
        (written found window paid at_k wrote
          (positive_there m sum found spent (rw (← at_k) held) positive))

  execution-IsSpent :
      (m : Ledger) (sum next_sum : ℕ) (ctx : Context) (accounts : ExecuteWithdrawal)
      (q : WithdrawalRequest) (e : Effect)
      → IsSpent m sum
      → execute rt ctx accounts m ≡ ok e
      → HoldsProgram rt m accounts.withdrawal_request (Content.withdrawal_request q)
      → accounts.vault_asset ≡ k
      → pos 0 <ℤ asset.window_seconds
      → IsLive asset ctx.unix_timestamp
      → next_sum ≡ sum + q.amount
      → IsSpent e.ledger next_sum
  execution-IsSpent m sum next_sum ctx accounts q e spent h at_q at_k positive before more =
      let s = execute-eq_ok rt ctx accounts m e h in
      let same : q ≡ s.3 = one_request accounts q s.3 at_q s.11 in
      charged-IsSpent m sum next_sum q.amount ctx.unix_timestamp s.2 s.4 spent (rw (← at_k) s.10)
        (rw same s.20) positive before more e.ledger
        (executed_there _ _ _ _ s.2 s.4 _
          (apart accounts.withdrawal_request accounts.vault_asset at_q s.10) at_k s.26)
    where
      one_request :
          (a : ExecuteWithdrawal) (x y : WithdrawalRequest)
          → HoldsProgram rt m a.withdrawal_request (Content.withdrawal_request x)
          → HoldsProgram rt m a.withdrawal_request (Content.withdrawal_request y)
          → x ≡ y
      one_request a x y at_x at_y = cc

      apart :
          (j j' : Pubkey) {x : WithdrawalRequest} {y : VaultAsset}
          → HoldsProgram rt m j (Content.withdrawal_request x)
          → HoldsProgram rt m j' (Content.vault_asset y)
          → j ≢ j'
      apart j j' {x} {y} at_x at_y e = let same : m j ≡ m j' = ap m e in ground arith

      executed_there :
          (j j' : Pubkey) (n paid : Ledger) (found : VaultAsset) (window : ℤ × ℕ) (x : Content)
          → j ≢ j'
          → j' ≡ k
          → n
            ≡ store rt j x (
                store rt j'
                  (Content.vault_asset
                    (record found { window_started_at = window.0; window_spent = window.1 }))
                  paid)
          → HoldsProgram rt n k (
              Content.vault_asset
                (record found { window_started_at = window.0; window_spent = window.1 }))
      executed_there j j' n paid found window x differ same wrote =
          let other : (k == j) ≡ false = ground arith in ground arith

  -- The outflows of an asset before the end of its window, instant withdrawals and executed requests
  -- together, with anything between them that leaves the asset's account as it is, add up, with what
  -- had been spent before, to at most the limit, if that was within it: after them the asset's
  -- account holds this sum as the spend of the same window, and is otherwise as before.
  pub window_capacity :
      {l m : Ledger} {sum : ℕ}
      → HoldsProgram rt l k (Content.vault_asset asset)
      → pos 0 <ℤ asset.window_seconds
      → asset.window_spent ≤ asset.window_limit
      → Outflows rt k (asset.window_started_at +ℤ asset.window_seconds) l m sum
      → HoldsProgram rt m k
          (Content.vault_asset (record asset { window_spent = asset.window_spent + sum }))
        × (asset.window_spent + sum ≤ asset.window_limit)
  window_capacity at positive within (no_outflow {sum = sum} none_yet) =
      let same : asset.window_spent + sum ≡ asset.window_spent = omega arith in
      (rw same at, omega arith)
  window_capacity at positive within
        (paid_directly {m = m} {sum = sum} {next_sum = next_sum} run ctx accounts amount e h at_k
          before same more) =
      let r = window_capacity at positive within run in
      rw same
        (withdrawal-IsSpent m sum next_sum ctx accounts amount e r h at_k positive before more)
  window_capacity at positive within
        (paid_on_request {m = m} {sum = sum} {next_sum = next_sum} run ctx accounts q e h at_q at_k
          before same more) =
      let r = window_capacity at positive within run in
      rw same (execution-IsSpent m sum next_sum ctx accounts q e r h at_q at_k positive before more)
  window_capacity at positive within (unrelated run same) =
      let (held, fits) = window_capacity at positive within run in (same ∙ held, fits)
