-- ===== src/Escrow/Release.antt =====
-- programs/iron_vault/src/instructions/release_escrow.rs
use iron_vault.Constants.{initial_schema_version, pause_escrow_release}
use iron_vault.Error.{
  Result, constrain, constraint_has_one, constraint_raw, escrow_expired, escrow_not_funded,
  insufficient_funds, invalid_custody_balance, invalid_recipient_balance, invalid_recipient_mint,
  invalid_recipient_owner, invalid_source_mint, invalid_token_program, ok, require, ◌>>=◌, ◌>>◌,
}
use iron_vault.Events.{escrow_released}
use iron_vault.Prelude.{[], leb, some, ◌==◌, ◌∷◌}
use iron_vault.Prelude.Int.{ltb_ℤ}
use iron_vault.Runtime.{
  Content, Context, Effect, Interface, Ledger, Mint, Runtime, TokenAccount, load, load_interface,
  read_escrow, read_mint, read_protocol_config, read_token, require_canonical, require_seeds,
  require_signer, require_token_interface, store,
}
use iron_vault.Security.{require_protocol_active, validate_mint}
use iron_vault.Seeds.{escrow_seeds, escrow_token_seeds, protocol_seeds}
use iron_vault.State.{Escrow, ProtocolConfig, Pubkey, is_funded, released}
use iron_vault.Transfer.{checked_add_or, transfer_exact}

-- The account keys of `ReleaseEscrow`.
pub record ReleaseEscrow : Type 0 where
  pub maker : Pubkey
  pub protocol_config : Pubkey
  pub escrow : Pubkey
  pub mint : Pubkey
  pub escrow_token : Pubkey
  pub recipient_token : Pubkey
  pub token_program : Pubkey

-- The accounts that validation has read.
pub record ReleaseEscrowLoaded : Type 0 where
  pub config : ProtocolConfig
  pub escrow : Escrow
  pub mint : Interface Mint
  pub escrow_token : Interface TokenAccount
  pub recipient_token : Interface TokenAccount

unfoldable pub check_release : Context → ReleaseEscrowLoaded → Result (Unit {0})
check_release ctx a = do
  require_protocol_active a.config pause_escrow_release
  require (is_funded a.escrow.status) escrow_not_funded
  require (ltb_ℤ ctx.unix_timestamp a.escrow.expires_at) escrow_expired
  require (leb a.escrow.amount a.escrow_token.state.amount) insufficient_funds

module _ (rt : Runtime) where
  unfoldable pub validate_release_escrow :
      Context → ReleaseEscrow → Ledger → Result ReleaseEscrowLoaded
  validate_release_escrow ctx accounts l = do
    require_signer rt ctx accounts.maker
    config ← load rt read_protocol_config l accounts.protocol_config
    escrow ← load rt read_escrow l accounts.escrow
    mint ← load_interface rt read_mint l accounts.mint
    escrow_token ← load_interface rt read_token l accounts.escrow_token
    recipient_token ← load_interface rt read_token l accounts.recipient_token
    require_token_interface rt accounts.token_program
    require_seeds rt protocol_seeds config.bump accounts.protocol_config
    require_seeds rt (escrow_seeds escrow.maker escrow.escrow_id) escrow.bump accounts.escrow
    constrain (escrow.maker == accounts.maker) constraint_has_one
    constrain (escrow.mint == accounts.mint) constraint_has_one
    constrain (escrow.token_program == accounts.token_program) constraint_raw
    validate_mint rt mint accounts.token_program
    require_canonical rt (escrow_token_seeds accounts.escrow) accounts.escrow_token
    require (escrow_token.state.owner == accounts.escrow) invalid_custody_balance
    require (escrow_token.state.mint == escrow.mint) invalid_source_mint
    require (escrow_token.program == accounts.token_program) invalid_token_program
    require (recipient_token.state.owner == escrow.recipient) invalid_recipient_owner
    require (recipient_token.state.mint == escrow.mint) invalid_recipient_mint
    require (recipient_token.program == accounts.token_program) invalid_token_program
    ok (record {
      config = config;
      escrow = escrow;
      mint = mint;
      escrow_token = escrow_token;
      recipient_token = recipient_token;
    })

  unfoldable pub release : Context → ReleaseEscrow → Ledger → Result Effect
  release ctx accounts l = do
    a ← validate_release_escrow ctx accounts l
    check_release ctx a
    let escrow = a.escrow
    let amount = escrow.amount
    let custody_before = a.escrow_token.state.amount
    let recipient_before = a.recipient_token.state.amount
    l' ←
        transfer_exact rt ctx
          (record {
            token_program = accounts.token_program;
            from = accounts.escrow_token;
            mint = accounts.mint;
            to = accounts.recipient_token;
            authority = accounts.escrow;
            signer_seeds = some (escrow_seeds escrow.maker escrow.escrow_id, escrow.bump);
            amount = amount;
            decimals = a.mint.state.decimals;
          })
          custody_before (checked_add_or recipient_before amount invalid_recipient_balance)
          invalid_custody_balance invalid_recipient_balance l
    ok (record {
      ledger = store rt accounts.escrow (Content.escrow (record escrow { status = released })) l';
      events =
          escrow_released (record {
            version = initial_schema_version;
            escrow = accounts.escrow;
            escrow_token = accounts.escrow_token;
            maker = escrow.maker;
            recipient = escrow.recipient;
            recipient_token = accounts.recipient_token;
            mint = escrow.mint;
            amount = amount;
          })
          ∷ [];
    })
