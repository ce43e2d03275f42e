-- ===== src/Transfer/Balances.antt =====
-- What a transfer that passed its rechecks has done to the two balances.
use iron_vault.Error.{>>=-eq_ok, IronVaultError, Result, ok}
use iron_vault.Prelude.{arith, some, ℕ, ◌+◌, ◌-◌, ◌≡◌, ◌≤◌}
use iron_vault.Prelude.Int.{checked_add}
use iron_vault.Runtime.{
  Content, Context, Interface, Ledger, Runtime, TokenAccount, TransferChecked, invoke_transfer,
  load_interface, read_token, store,
}
use iron_vault.Runtime.Accounts.{HoldsProgram, HoldsToken, balance, load_token-eq_ok}
use iron_vault.Runtime.Frame.{IsState, token_is_no_state}
use iron_vault.State.{Pubkey}
use iron_vault.Transfer.{checked_add_or, transfer_exact}

module _ (rt : Runtime) (ctx : Context) (t : TransferChecked) (l l' : Ledger) where
  pub transfer_exact-balance :
      (source_before : ℕ) (after : Result ℕ) (source_error destination_error : IronVaultError)
      → transfer_exact rt ctx t source_before after source_error destination_error l ≡ ok l'
      → (source destination : Interface TokenAccount) × HoldsToken l' t.from source
        × HoldsToken l' t.to destination
        × (source.state.amount ≡ source_before - t.amount)
        × (after ≡ ok destination.state.amount)
        × (rt.transfer_checked ctx.signers t l ≡ some l')
  unfolding transfer_exact invoke_transfer
  transfer_exact-balance source_before after source_error destination_error h =
      let (m, moved, h1) = >>=-eq_ok (invoke_transfer rt ctx t l) _ h in
      let (source, at_source, h2) = >>=-eq_ok (load_interface rt read_token m t.from) _ h1 in
      let (destination, at_destination, h3) =
        >>=-eq_ok (load_interface rt read_token m t.to) _ h2 in
      let same : m ≡ l' = ground arith in
      (
        source,
        destination,
        ground (arith, load_token-eq_ok rt m t.from source at_source),
        ground (arith, load_token-eq_ok rt m t.to destination at_destination),
        ground arith,
        ground arith,
        ground arith,
      )

-- A transfer whose rechecks passed has moved the amount between the two balances.
pub moved_balances :
    (l m : Ledger) (from to : Pubkey) (amount : ℕ)
    (source destination source' destination' : Interface TokenAccount)
    → HoldsToken l from source
    → HoldsToken l to destination
    → HoldsToken m from source'
    → HoldsToken m to destination'
    → amount ≤ source.state.amount
    → source'.state.amount ≡ source.state.amount - amount
    → destination'.state.amount ≡ destination.state.amount + amount
    → (amount ≤ balance l from)
      × (balance m from + amount ≡ balance l from)
      × (balance m to ≡ balance l to + amount)
moved_balances l m from to amount source destination source' destination' a b c d funds out into =
    ground arith

-- Writing back a state account leaves every token balance.
pub balance-store :
    (rt : Runtime) (l m : Ledger) (w k : Pubkey) (c d : Content) (t : Interface TokenAccount)
    → IsState c
    → HoldsProgram rt l w c
    → HoldsToken l k t
    → balance (store rt w d m) k ≡ balance m k
balance-store rt l m w k c d t s at_w at_k =
    ground (arith, token_is_no_state rt l w k c t s at_w at_k)

-- The checked sum that was compared with the reloaded balance.
pub sum_after :
    (a b c d : ℕ) (error : IronVaultError)
    → checked_add_or a b error ≡ ok c
    → ok c ≡ ok d
    → d ≡ a + b
unfolding checked_add
sum_after a b c d error h k = ground arith
