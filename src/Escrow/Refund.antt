-- ===== src/Escrow/Refund.antt =====
-- programs/iron_vault/src/instructions/refund_escrow.rs
use iron_vault.Constants.{initial_schema_version}
use iron_vault.Error.{
  Result, constrain, constraint_has_one, constraint_raw, escrow_not_expired, escrow_not_funded,
  insufficient_funds, invalid_custody_balance, invalid_maker_destination_balance,
  invalid_maker_destination_mint, invalid_maker_destination_owner, invalid_source_mint,
  invalid_token_program, ok, require, ◌>>=◌, ◌>>◌,
}
use iron_vault.Events.{escrow_refunded}
use iron_vault.Prelude.{[], leb, some, ◌==◌, ◌∷◌}
use iron_vault.Prelude.Int.{leb_ℤ}
use iron_vault.Runtime.{
  Content, Context, Effect, Interface, Ledger, Mint, Runtime, TokenAccount, load, load_interface,
  read_escrow, read_mint, read_token, require_canonical, require_seeds, require_signer,
  require_token_interface, store,
}
use iron_vault.Security.{validate_mint}
use iron_vault.Seeds.{escrow_seeds, escrow_token_seeds}
use iron_vault.State.{Escrow, Pubkey, is_funded, refunded}
use iron_vault.Transfer.{checked_add_or, transfer_exact}

-- The account keys of `RefundEscrow`.
pub record RefundEscrow : Type 0 where
  pub caller : Pubkey
  pub escrow : Pubkey
  pub mint : Pubkey
  pub escrow_token : Pubkey
  pub maker_destination : Pubkey
  pub token_program : Pubkey

-- The accounts that validation has read.
pub record RefundEscrowLoaded : Type 0 where
  pub escrow : Escrow
  pub mint : Interface Mint
  pub escrow_token : Interface TokenAccount
  pub maker_destination : Interface TokenAccount

unfoldable pub check_refund : Context → RefundEscrowLoaded → Result (Unit {0})
check_refund ctx a = do
  require (is_funded a.escrow.status) escrow_not_funded
  require (leb_ℤ a.escrow.expires_at ctx.unix_timestamp) escrow_not_expired
  require (leb a.escrow.amount a.escrow_token.state.amount) insufficient_funds

module _ (rt : Runtime) where
  unfoldable pub validate_refund_escrow :
      Context → RefundEscrow → Ledger → Result RefundEscrowLoaded
  validate_refund_escrow ctx accounts l = do
    require_signer rt ctx accounts.caller
    escrow ← load rt read_escrow l accounts.escrow
    mint ← load_interface rt read_mint l accounts.mint
    escrow_token ← load_interface rt read_token l accounts.escrow_token
    maker_destination ← load_interface rt read_token l accounts.maker_destination
    require_token_interface rt accounts.token_program
    require_seeds rt (escrow_seeds escrow.maker escrow.escrow_id) escrow.bump accounts.escrow
    constrain (escrow.mint == accounts.mint) constraint_has_one
    constrain (escrow.token_program == accounts.token_program) constraint_raw
    validate_mint rt mint accounts.token_program
    require_canonical rt (escrow_token_seeds accounts.escrow) accounts.escrow_token
    require (escrow_token.state.owner == accounts.escrow) invalid_custody_balance
    require (escrow_token.state.mint == escrow.mint) invalid_source_mint
    require (escrow_token.program == accounts.token_program) invalid_token_program
    require (maker_destination.state.owner == escrow.maker) invalid_maker_destination_owner
    require (maker_destination.state.mint == escrow.mint) invalid_maker_destination_mint
    require (maker_destination.program == accounts.token_program) invalid_token_program
    ok (record {
      escrow = escrow;
      mint = mint;
      escrow_token = escrow_token;
      maker_destination = maker_destination;
    })

  unfoldable pub refund : Context → RefundEscrow → Ledger → Result Effect
  refund ctx accounts l = do
    a ← validate_refund_escrow ctx accounts l
    check_refund ctx a
    let escrow = a.escrow
    let amount = escrow.amount
    let custody_before = a.escrow_token.state.amount
    let destination_before = a.maker_destination.state.amount
    l' ←
        transfer_exact rt ctx
          (record {
            token_program = accounts.token_program;
            from = accounts.escrow_token;
            mint = accounts.mint;
            to = accounts.maker_destination;
            authority = accounts.escrow;
            signer_seeds = some (escrow_seeds escrow.maker escrow.escrow_id, escrow.bump);
            amount = amount;
            decimals = a.mint.state.decimals;
          })
          custody_before
          (checked_add_or destination_before amount invalid_maker_destination_balance)
          invalid_custody_balance invalid_maker_destination_balance l
    ok (record {
      ledger = store rt accounts.escrow (Content.escrow (record escrow { status = refunded })) l';
      events =
          escrow_refunded (record {
            version = initial_schema_version;
            escrow = accounts.escrow;
            escrow_token = accounts.escrow_token;
            caller = accounts.caller;
            maker = escrow.maker;
            maker_destination = accounts.maker_destination;
            mint = escrow.mint;
            amount = amount;
          })
          ∷ [];
    })
