-- ===== src/Withdrawal/Outflow.antt =====
-- What a successful instant withdrawal and a successful execution have read, checked and moved.
use iron_vault.Constants.{pause_vault_outflow}
use iron_vault.Error.{>>=-eq_ok, invalid_withdrawal_destination_balance, ok}
use iron_vault.Prelude.{arith, false, refl, some, true, ℕ, ◌+◌, ◌<◌, ◌≡◌, ◌≤◌}
use iron_vault.Prelude.Int.{checked_add, ℤ}
use iron_vault.Runtime.{
  Content, Context, Effect, Interface, Ledger, Runtime, TokenAccount, TransferChecked, load,
  load_interface, read_protocol_config, read_token, read_vault, read_vault_asset, require_canonical,
  store,
}
use iron_vault.Runtime.Accounts.{
  HoldsProgram, HoldsToken, balance, load_protocol_config-eq_ok, load_token-eq_ok, load_vault-eq_ok,
  load_vault_asset-eq_ok,
}
use iron_vault.Security.{require_protocol_active}
use iron_vault.Seeds.{vault_token_seeds}
use iron_vault.State.{ProtocolConfig, Pubkey, Vault, VaultAsset, is_paused}
use iron_vault.Transfer.{checked_add_or, transfer_exact}
use iron_vault.Transfer.Balances.{transfer_exact-balance}
use iron_vault.Withdrawal.Instant.{
  Withdraw, WithdrawLoaded, authorize_withdraw, check_withdraw, spend_window, validate_withdraw,
  withdraw_tokens,
}
use iron_vault.Withdrawal.Window.{next_window_state}

-- An outflow of `amount` from the custody `from` of `asset` into `to`, which turned ledger `l` into
-- `m`: neither pause was on, the asset was enabled, the amount was within the limit of one
-- transaction, the window took it, and the two balances moved by exactly the amount.
pub record Outflow (l m : Ledger) (config : ProtocolConfig) (vault : Vault) (asset : VaultAsset)
    (from to : Pubkey) (amount : ℕ) : Type 0 where
  pub outflow_active : is_paused config pause_vault_outflow ≡ false
  pub vault_active : vault.paused ≡ false
  pub enabled : asset.enabled ≡ true
  pub within_transaction : amount ≤ asset.max_per_transaction
  pub funds : amount ≤ balance l from
  pub paid_out : balance m from + amount ≡ balance l from
  pub paid_in : balance m to ≡ balance l to + amount

module _ (rt : Runtime) (ctx : Context) (l : Ledger) (e : Effect) where
  validate_withdraw-eq_ok :
      (accounts : Withdraw) (a : WithdrawLoaded)
      → validate_withdraw rt ctx accounts l ≡ ok a
      → (ctx.signers accounts.caller ≡ true)
        × (load rt read_protocol_config l accounts.protocol_config ≡ ok a.config)
        × (load rt read_vault l accounts.vault ≡ ok a.vault)
        × (load rt read_vault_asset l accounts.vault_asset ≡ ok a.asset)
        × (load_interface rt read_token l accounts.vault_token ≡ ok a.vault_token)
        × (load_interface rt read_token l accounts.destination_token ≡ ok a.destination_token)
        × (a.asset.vault ≡ accounts.vault)
        × (a.destination_token.state.mint ≡ a.asset.mint)
  unfolding validate_withdraw
  validate_withdraw-eq_ok accounts a h = ground arith

  validate_withdraw-custody :
      (accounts : Withdraw) (a : WithdrawLoaded)
      → validate_withdraw rt ctx accounts l ≡ ok a
      → (rt.find_program_address (vault_token_seeds accounts.vault accounts.mint)).0
        ≡ accounts.vault_token
  unfolding validate_withdraw require_canonical
  validate_withdraw-custody accounts a h = ground arith

  pub withdraw-eq_ok :
      (accounts : Withdraw) (amount : ℕ)
      → withdraw_tokens rt ctx accounts amount l ≡ ok e
      → (config : ProtocolConfig) × (vault : Vault) × (asset : VaultAsset) × (window : ℤ × ℕ)
        × (m : Ledger) × (t : TransferChecked) × (source destination : Interface TokenAccount)
        × HoldsProgram rt l accounts.protocol_config (Content.protocol_config config)
        × HoldsProgram rt l accounts.vault (Content.vault vault)
        × HoldsProgram rt l accounts.vault_asset (Content.vault_asset asset)
        × HoldsToken l accounts.vault_token source
        × HoldsToken l accounts.destination_token destination
        × (ctx.signers accounts.caller ≡ true)
        × (authorize_withdraw rt ctx accounts vault l ≡ ok tt)
        × (0 < amount)
        × (amount ≤ asset.timelock_threshold)
        × (next_window_state asset amount ctx.unix_timestamp ≡ ok window)
        × (t.from ≡ accounts.vault_token)
        × (t.to ≡ accounts.destination_token)
        × (rt.transfer_checked ctx.signers t l ≡ some m)
        × Outflow l e.ledger config vault asset accounts.vault_token accounts.destination_token
            amount
        × (e.ledger
            ≡ store rt accounts.vault_asset (Content.vault_asset (spend_window asset window)) m)
  unfolding withdraw_tokens check_withdraw require_protocol_active checked_add
  withdraw-eq_ok accounts amount h =
      let (a, valid, h1) = >>=-eq_ok (validate_withdraw rt ctx accounts l) _ h in
      let (_, active, h2) = >>=-eq_ok (require_protocol_active a.config pause_vault_outflow) _ h1 in
      let (_, authorized, h3) = >>=-eq_ok (authorize_withdraw rt ctx accounts a.vault l) _ h2 in
      let (_, checked, h4) = >>=-eq_ok (check_withdraw a amount) _ h3 in
      let (window, taken, h5) =
        >>=-eq_ok (next_window_state a.asset amount ctx.unix_timestamp) _ h4 in
      let (after, added, h6) =
        >>=-eq_ok
          (checked_add_or a.destination_token.state.amount amount
            invalid_withdrawal_destination_balance)
          _ h5 in
      let (m, moved, h7) = >>=-eq_ok (transfer_exact rt ctx _ _ _ _ _ l) _ h6 in
      let (source, destination, at_source, at_destination, out, into, called) =
        transfer_exact-balance rt ctx _ l m _ _ _ _ moved in
      let v = validate_withdraw-eq_ok accounts a valid in
      let held = load_vault_asset-eq_ok rt l accounts.vault_asset a.asset v.3 in
      let was_source = load_token-eq_ok rt l accounts.vault_token a.vault_token v.4 in
      let was_destination =
        load_token-eq_ok rt l accounts.destination_token a.destination_token v.5 in
      (
        a.config,
        a.vault,
        a.asset,
        window,
        m,
        _,
        a.vault_token,
        a.destination_token,
        load_protocol_config-eq_ok rt l accounts.protocol_config a.config v.1,
        load_vault-eq_ok rt l accounts.vault a.vault v.2,
        held,
        was_source,
        was_destination,
        v.0,
        authorized,
        ground arith,
        ground arith,
        taken,
        refl,
        refl,
        called,
        record {
          outflow_active = ground arith;
          vault_active = ground arith;
          enabled = ground arith;
          within_transaction = ground arith;
          funds = ground arith;
          paid_out = ground arith;
          paid_in = ground arith;
        },
        ground arith,
      )

  -- The custody that an instant withdrawal pays from.
  pub withdraw-custody :
      (accounts : Withdraw) (amount : ℕ)
      → withdraw_tokens rt ctx accounts amount l ≡ ok e
      → (rt.find_program_address (vault_token_seeds accounts.vault accounts.mint)).0
        ≡ accounts.vault_token
  unfolding withdraw_tokens
  withdraw-custody accounts amount h =
      let (a, valid, _) = >>=-eq_ok (validate_withdraw rt ctx accounts l) _ h in
      validate_withdraw-custody accounts a valid
