-- ===== src/Transfer.antt =====
-- The token call that six instructions make, with the reload and the recheck of both balances that
-- each of them writes after it.
pub mod Balances
use iron_vault.Error.{IronVaultError, Result, ok, ok_or, program, require, ◌>>=◌, ◌>>◌}
use iron_vault.Prelude.{ℕ, ◌-◌, ◌==◌}
use iron_vault.Prelude.Int.{checked_add}
use iron_vault.Runtime.{
  Context, Ledger, Runtime, TransferChecked, invoke_transfer, load_interface, read_token,
}

module _ (rt : Runtime) where
  -- `token_interface::transfer_checked`, `reload` twice, and the two `require_eq!`. `after` is the
  -- destination's expected balance, an error where its checked addition fails at this point.
  unfoldable pub transfer_exact :
      Context
      → TransferChecked
      → ℕ
      → Result ℕ
      → IronVaultError
      → IronVaultError
      → Ledger
      → Result Ledger
  transfer_exact ctx t source_before after source_error destination_error l = do
    l' ← invoke_transfer rt ctx t l
    source ← load_interface rt read_token l' t.from
    destination ← load_interface rt read_token l' t.to
    require (source.state.amount == source_before - t.amount) source_error
    destination_after ← after
    require (destination.state.amount == destination_after) destination_error
    ok l'

-- `checked_add(..).ok_or(error)`
abbrev pub checked_add_or : ℕ → ℕ → IronVaultError → Result ℕ
checked_add_or a b error = ok_or (checked_add a b) (program error)
