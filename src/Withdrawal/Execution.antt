-- ===== src/Withdrawal/Execution.antt =====
-- What a successful execution of a request has read, checked and moved.
use iron_vault.Constants.{pause_vault_outflow}
use iron_vault.Error.{
  >>=-eq_ok, invalid_vault_custody_balance, invalid_withdrawal_destination_balance, ok,
  ok-injective,
}
use iron_vault.Prelude.{ap, arith, false, refl, some, subst, sym, true, ℕ, ◌-◌, ◌∙◌, ◌≡◌, ◌≤◌}
use iron_vault.Prelude.Int.{ℤ, ◌≤ℤ◌}
use iron_vault.Runtime.{
  Content, Context, Effect, Interface, Ledger, Runtime, TokenAccount, TransferChecked, load,
  load_interface, read_protocol_config, read_token, read_vault, read_vault_asset,
  read_withdrawal_request, require_canonical, store,
}
use iron_vault.Runtime.Accounts.{
  HoldsProgram, HoldsToken, balance, load_protocol_config-eq_ok, load_token-eq_ok, load_vault-eq_ok,
  load_vault_asset-eq_ok, load_withdrawal_request-eq_ok,
}
use iron_vault.Security.{require_protocol_active}
use iron_vault.Seeds.{vault_token_seeds}
use iron_vault.State.{
  ProtocolConfig, Pubkey, Vault, VaultAsset, WithdrawalRequest, executed, is_paused, pending,
}
use iron_vault.Transfer.{checked_add_or, transfer_exact}
use iron_vault.Transfer.Balances.{balance-store, moved_balances, sum_after, transfer_exact-balance}
use iron_vault.Withdrawal.Execute.{
  ExecuteWithdrawal, ExecuteWithdrawalLoaded, check_execute, constrain_execute, execute,
  load_execute,
}
use iron_vault.Withdrawal.Outflow.{Outflow}
use iron_vault.Withdrawal.Window.{next_window_state}

-- The stages that a successful execution has gone through.
record Stages (rt : Runtime) (ctx : Context) (accounts : ExecuteWithdrawal) (l : Ledger)
    (e : Effect) : Type 0 where
  a : ExecuteWithdrawalLoaded
  window : ℤ × ℕ
  after : ℕ
  m : Ledger
  transfer : TransferChecked
  same_from : transfer.from ≡ accounts.vault_token
  same_to : transfer.to ≡ accounts.recipient_token
  same_amount : transfer.amount ≡ a.request.amount
  loaded : load_execute rt ctx accounts l ≡ ok a
  constrained : constrain_execute rt accounts a ≡ ok tt
  checked : check_execute ctx a ≡ ok tt
  taken : next_window_state a.asset a.request.amount ctx.unix_timestamp ≡ ok window
  added :
      checked_add_or a.recipient_token.state.amount a.request.amount
        invalid_withdrawal_destination_balance
      ≡ ok after
  moved :
      transfer_exact rt ctx transfer a.vault_token.state.amount
        (ok after)
        invalid_vault_custody_balance
        invalid_withdrawal_destination_balance
        l
      ≡ ok m
  wrote :
      e.ledger
      ≡ store rt accounts.withdrawal_request
          (Content.withdrawal_request (record a.request { status = executed }))
          (store rt accounts.vault_asset
            (Content.vault_asset
              (record a.asset { window_started_at = window.0; window_spent = window.1 }))
            m)

module _ (rt : Runtime) (ctx : Context) (accounts : ExecuteWithdrawal) (l : Ledger)
    (e : Effect) where
  load_execute-eq_ok :
      (a : ExecuteWithdrawalLoaded)
      → load_execute rt ctx accounts l ≡ ok a
      → (load rt read_protocol_config l accounts.protocol_config ≡ ok a.config)
        × (load rt read_vault l accounts.vault ≡ ok a.vault)
        × (load rt read_vault_asset l accounts.vault_asset ≡ ok a.asset)
        × (load rt read_withdrawal_request l accounts.withdrawal_request ≡ ok a.request)
        × (load_interface rt read_token l accounts.vault_token ≡ ok a.vault_token)
        × (load_interface rt read_token l accounts.recipient_token ≡ ok a.recipient_token)
  unfolding load_execute
  load_execute-eq_ok a h = ground arith

  constrain_execute-eq_ok :
      (a : ExecuteWithdrawalLoaded)
      → constrain_execute rt accounts a ≡ ok tt
      → (a.request.vault_asset ≡ accounts.vault_asset)
        × (accounts.recipient_token ≡ a.request.recipient_token_account)
        × (a.recipient_token.state.owner ≡ a.request.recipient_owner)
  unfolding constrain_execute
  constrain_execute-eq_ok a h = ground arith

  check_execute-eq_ok :
      (a : ExecuteWithdrawalLoaded)
      → check_execute ctx a ≡ ok tt
      → (a.request.status ≡ pending)
        × (a.request.execute_after ≤ℤ ctx.unix_timestamp)
        × (ctx.unix_timestamp ≤ℤ a.request.expires_at)
        × (is_paused a.config pause_vault_outflow ≡ false)
        × (a.vault.paused ≡ false)
        × (a.asset.enabled ≡ true)
        × (a.request.amount ≤ a.asset.max_per_transaction)
        × (a.request.amount ≤ a.vault_token.state.amount)
  unfolding check_execute require_protocol_active
  check_execute-eq_ok a h = ground arith

  constrain_execute-custody :
      (a : ExecuteWithdrawalLoaded)
      → constrain_execute rt accounts a ≡ ok tt
      → (rt.find_program_address (vault_token_seeds accounts.vault accounts.mint)).0
        ≡ accounts.vault_token
  unfolding constrain_execute require_canonical
  constrain_execute-custody a h = ground arith

  execute-Stages : execute rt ctx accounts l ≡ ok e → Stages rt ctx accounts l e
  unfolding execute
  execute-Stages h =
      let (a, loaded, h1) = >>=-eq_ok (load_execute rt ctx accounts l) _ h in
      let (_, constrained, h2) = >>=-eq_ok (constrain_execute rt accounts a) _ h1 in
      let (_, checked, h3) = >>=-eq_ok (check_execute ctx a) _ h2 in
      let (window, taken, h4) = >>=-eq_ok (next_window_state _ _ _) _ h3 in
      let (after, added, h5) = >>=-eq_ok (checked_add_or _ _ _) _ h4 in
      let (m, moved, h6) = >>=-eq_ok (transfer_exact rt ctx _ _ _ _ _ l) _ h5 in
      record {
        a = a;
        window = window;
        after = after;
        m = m;
        transfer = _;
        same_from = refl;
        same_to = refl;
        same_amount = refl;
        loaded = loaded;
        constrained = constrained;
        checked = checked;
        taken = taken;
        added = added;
        moved = moved;
        wrote = ap (λ (x : Effect). x.ledger) (sym (ok-injective h6));
      }

  -- The custody that an execution pays from.
  pub execute-custody :
      execute rt ctx accounts l ≡ ok e
      → (rt.find_program_address (vault_token_seeds accounts.vault accounts.mint)).0
        ≡ accounts.vault_token
  execute-custody h = let s = execute-Stages h in constrain_execute-custody s.a s.constrained

  Stages-Outflow :
      (s : Stages rt ctx accounts l e)
      → (source destination : Interface TokenAccount) → HoldsToken s.m accounts.vault_token source
      → HoldsToken s.m accounts.recipient_token destination
      → (source.state.amount ≡ s.a.vault_token.state.amount - s.a.request.amount)
      → (ok s.after ≡ ok destination.state.amount)
      → Outflow l e.ledger s.a.config s.a.vault s.a.asset accounts.vault_token
          accounts.recipient_token s.a.request.amount
  Stages-Outflow s source destination at_source at_destination out into =
      let a = s.a in
      let v = load_execute-eq_ok a s.loaded in
      let c = check_execute-eq_ok a s.checked in
      let held = load_vault_asset-eq_ok rt l accounts.vault_asset a.asset v.2 in
      let held_request =
        load_withdrawal_request-eq_ok rt l accounts.withdrawal_request a.request v.3 in
      let was_source = load_token-eq_ok rt l accounts.vault_token a.vault_token v.4 in
      let was_destination = load_token-eq_ok rt l accounts.recipient_token a.recipient_token v.5 in
      let (funds, paid_out, paid_in) =
        moved_balances l s.m accounts.vault_token accounts.recipient_token a.request.amount
          a.vault_token a.recipient_token source destination was_source was_destination at_source
          at_destination c.7 out (sum_after _ _ _ _ _ s.added into) in
      let spent =
        Content.vault_asset
          (record a.asset { window_started_at = s.window.0; window_spent = s.window.1 }) in
      let kept : (k : Pubkey) (t : Interface TokenAccount)
          → HoldsToken l k t
          → balance e.ledger k ≡ balance s.m k =
        λ k t at.
          ap (λ (x : Ledger). balance x k) s.wrote
          ∙ balance-store rt l (store rt accounts.vault_asset spent s.m) accounts.withdrawal_request
              k _ _ t tt held_request at
          ∙ balance-store rt l s.m accounts.vault_asset k _ spent t tt held at in
      record {
        outflow_active = c.3;
        vault_active = c.4;
        enabled = c.5;
        within_transaction = c.6;
        funds = funds;
        paid_out = rw (kept accounts.vault_token a.vault_token was_source) paid_out;
        paid_in = rw (kept accounts.recipient_token a.recipient_token was_destination) paid_in;
      }

  Stages-outcome :
      Stages rt ctx accounts l e
      → (config : ProtocolConfig) × (vault : Vault) × (asset : VaultAsset)
        × (request : WithdrawalRequest) × (window : ℤ × ℕ) × (m : Ledger) × (t : TransferChecked)
        × (source destination : Interface TokenAccount) × HoldsProgram rt l accounts.vault
            (Content.vault vault)
        × HoldsProgram rt l accounts.vault_asset (Content.vault_asset asset)
        × HoldsProgram rt l accounts.withdrawal_request (Content.withdrawal_request request)
        × HoldsToken l accounts.vault_token source
        × HoldsToken l accounts.recipient_token destination
        × (request.status ≡ pending)
        × (request.execute_after ≤ℤ ctx.unix_timestamp)
        × (ctx.unix_timestamp ≤ℤ request.expires_at)
        × (request.vault_asset ≡ accounts.vault_asset)
        × (accounts.recipient_token ≡ request.recipient_token_account)
        × (destination.state.owner ≡ request.recipient_owner)
        × (next_window_state asset request.amount ctx.unix_timestamp ≡ ok window)
        × (t.from ≡ accounts.vault_token)
        × (t.to ≡ accounts.recipient_token)
        × (rt.transfer_checked ctx.signers t l ≡ some m)
        × Outflow l e.ledger config vault asset accounts.vault_token accounts.recipient_token
            request.amount
        × HoldsProgram rt l accounts.protocol_config (Content.protocol_config config)
        × (e.ledger
            ≡ store rt accounts.withdrawal_request
                (Content.withdrawal_request (record request { status = executed }))
                (store rt accounts.vault_asset
                  (Content.vault_asset
                    (record asset { window_started_at = window.0; window_spent = window.1 }))
                  m))
  Stages-outcome s =
      let a = s.a in
      let v = load_execute-eq_ok a s.loaded in
      let n = constrain_execute-eq_ok a s.constrained in
      let c = check_execute-eq_ok a s.checked in
      let (source, destination, at_source, at_destination, out, into, called) =
        transfer_exact-balance rt ctx s.transfer l s.m _ _ _ _ s.moved in
      (
        a.config,
        a.vault,
        a.asset,
        a.request,
        s.window,
        s.m,
        s.transfer,
        a.vault_token,
        a.recipient_token,
        load_vault-eq_ok rt l accounts.vault a.vault v.1,
        load_vault_asset-eq_ok rt l accounts.vault_asset a.asset v.2,
        load_withdrawal_request-eq_ok rt l accounts.withdrawal_request a.request v.3,
        load_token-eq_ok rt l accounts.vault_token a.vault_token v.4,
        load_token-eq_ok rt l accounts.recipient_token a.recipient_token v.5,
        c.0,
        c.1,
        c.2,
        n.0,
        n.1,
        n.2,
        s.taken,
        s.same_from,
        s.same_to,
        called,
        Stages-Outflow s source destination
            (subst (λ k. HoldsToken s.m k source) s.same_from at_source)
            (subst (λ k. HoldsToken s.m k destination) s.same_to at_destination)
            (subst (λ n. source.state.amount ≡ s.a.vault_token.state.amount - n) s.same_amount out)
            into,
        load_protocol_config-eq_ok rt l accounts.protocol_config a.config v.0,
        s.wrote,
      )

  pub execute-eq_ok :
      execute rt ctx accounts l ≡ ok e
      → (config : ProtocolConfig) × (vault : Vault) × (asset : VaultAsset)
        × (request : WithdrawalRequest) × (window : ℤ × ℕ) × (m : Ledger) × (t : TransferChecked)
        × (source destination : Interface TokenAccount) × HoldsProgram rt l accounts.vault
            (Content.vault vault)
        × HoldsProgram rt l accounts.vault_asset (Content.vault_asset asset)
        × HoldsProgram rt l accounts.withdrawal_request (Content.withdrawal_request request)
        × HoldsToken l accounts.vault_token source
        × HoldsToken l accounts.recipient_token destination
        × (request.status ≡ pending)
        × (request.execute_after ≤ℤ ctx.unix_timestamp)
        × (ctx.unix_timestamp ≤ℤ request.expires_at)
        × (request.vault_asset ≡ accounts.vault_asset)
        × (accounts.recipient_token ≡ request.recipient_token_account)
        × (destination.state.owner ≡ request.recipient_owner)
        × (next_window_state asset request.amount ctx.unix_timestamp ≡ ok window)
        × (t.from ≡ accounts.vault_token)
        × (t.to ≡ accounts.recipient_token)
        × (rt.transfer_checked ctx.signers t l ≡ some m)
        × Outflow l e.ledger config vault asset accounts.vault_token accounts.recipient_token
            request.amount
        × HoldsProgram rt l accounts.protocol_config (Content.protocol_config config)
        × (e.ledger
            ≡ store rt accounts.withdrawal_request
                (Content.withdrawal_request (record request { status = executed }))
                (store rt accounts.vault_asset
                  (Content.vault_asset
                    (record asset { window_started_at = window.0; window_spent = window.1 }))
                  m))
  execute-eq_ok h = Stages-outcome (execute-Stages h)
