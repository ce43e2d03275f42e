-- ===== src/Escrow/Create.antt =====
-- programs/iron_vault/src/instructions/create_escrow.rs
use iron_vault.Constants.{initial_schema_version, pause_escrow_create}
use iron_vault.Error.{
  Result, insufficient_funds, invalid_amount, invalid_custody_balance, invalid_expiry,
  invalid_recipient, invalid_source_balance, invalid_source_mint, invalid_source_owner,
  invalid_token_program, ok, require, ◌>>=◌, ◌>>◌,
}
use iron_vault.Events.{escrow_created}
use iron_vault.Prelude.{[], leb, ltb, none, replicate, ℕ, ◌!=◌, ◌&&◌, ◌==◌, ◌∷◌}
use iron_vault.Prelude.Int.{ltb_ℤ, ℤ}
use iron_vault.Runtime.{
  Content, Context, Effect, Interface, Ledger, Mint, Runtime, TokenAccount, empty_token, init, load,
  load_interface, read_mint, read_protocol_config, read_token, require_seeds, require_signer,
  require_token_interface, store, store_token,
}
use iron_vault.Security.{require_protocol_active, validate_mint}
use iron_vault.Seeds.{escrow_seeds, escrow_token_seeds, protocol_seeds}
use iron_vault.State.{Escrow, ProtocolConfig, Pubkey, default_key, funded}
use iron_vault.Transfer.{transfer_exact}

-- The account keys of `CreateEscrow`.
pub record CreateEscrow : Type 0 where
  pub maker : Pubkey
  pub protocol_config : Pubkey
  pub mint : Pubkey
  pub maker_token : Pubkey
  pub escrow : Pubkey
  pub escrow_token : Pubkey
  pub token_program : Pubkey

-- The accounts that validation has read or made, the bump that `init` found, and the ledger with
-- the two new accounts.
pub record CreateEscrowLoaded : Type 0 where
  pub config : ProtocolConfig
  pub mint : Interface Mint
  pub maker_token : Interface TokenAccount
  pub bump : ℕ
  pub escrow_token : TokenAccount
  pub ledger : Ledger

-- `Escrow` as the handler fills it in.
abbrev pub new_escrow : CreateEscrow → ℕ → ℕ → Pubkey → ℕ → ℤ → ℤ → Escrow
new_escrow accounts bump escrow_id recipient amount now expires_at = record {
  maker = accounts.maker;
  recipient = recipient;
  mint = accounts.mint;
  token_program = accounts.token_program;
  escrow_id = escrow_id;
  amount = amount;
  created_at = now;
  expires_at = expires_at;
  status = funded;
  bump = bump;
  reserved = replicate 30 0;
}

unfoldable pub check_create :
    Context → CreateEscrow → CreateEscrowLoaded → Pubkey → ℕ → ℤ → Result (Unit {0})
check_create ctx accounts a recipient amount expires_at = do
  require_protocol_active a.config pause_escrow_create
  require (ltb 0 amount) invalid_amount
  require (recipient != default_key && recipient != accounts.maker) invalid_recipient
  require (ltb_ℤ ctx.unix_timestamp expires_at) invalid_expiry
  require (leb amount a.maker_token.state.amount) insufficient_funds
  require (a.escrow_token.amount == 0) invalid_custody_balance

module _ (rt : Runtime) where
  unfoldable pub validate_create_escrow :
      Context → CreateEscrow → ℕ → Ledger → Result CreateEscrowLoaded
  validate_create_escrow ctx accounts escrow_id l = do
    require_signer rt ctx accounts.maker
    config ← load rt read_protocol_config l accounts.protocol_config
    mint ← load_interface rt read_mint l accounts.mint
    maker_token ← load_interface rt read_token l accounts.maker_token
    require_token_interface rt accounts.token_program
    bump ← init rt (escrow_seeds accounts.maker escrow_id) l accounts.escrow
    let with_escrow = store rt accounts.escrow Content.other l
    _ ← init rt (escrow_token_seeds accounts.escrow) with_escrow accounts.escrow_token
    let custody = empty_token accounts.mint accounts.escrow
    let with_custody = store_token accounts.escrow_token accounts.token_program custody with_escrow
    require_seeds rt protocol_seeds config.bump accounts.protocol_config
    validate_mint rt mint accounts.token_program
    require (maker_token.state.owner == accounts.maker) invalid_source_owner
    require (maker_token.state.mint == accounts.mint) invalid_source_mint
    require (maker_token.program == accounts.token_program) invalid_token_program
    ok (record {
      config = config;
      mint = mint;
      maker_token = maker_token;
      bump = bump;
      escrow_token = custody;
      ledger = with_custody;
    })

  unfoldable pub create : Context → CreateEscrow → ℕ → Pubkey → ℕ → ℤ → Ledger → Result Effect
  create ctx accounts escrow_id recipient amount expires_at l = do
    a ← validate_create_escrow ctx accounts escrow_id l
    check_create ctx accounts a recipient amount expires_at
    let now = ctx.unix_timestamp
    let escrow = new_escrow accounts a.bump escrow_id recipient amount now expires_at
    let source_before = a.maker_token.state.amount
    l' ←
        transfer_exact rt ctx
          (record {
            token_program = accounts.token_program;
            from = accounts.maker_token;
            mint = accounts.mint;
            to = accounts.escrow_token;
            authority = accounts.maker;
            signer_seeds = none;
            amount = amount;
            decimals = a.mint.state.decimals;
          })
          source_before (ok amount) invalid_source_balance invalid_custody_balance a.ledger
    ok (record {
      ledger = store rt accounts.escrow (Content.escrow escrow) l';
      events =
          escrow_created (record {
            version = initial_schema_version;
            escrow = accounts.escrow;
            escrow_token = accounts.escrow_token;
            maker = accounts.maker;
            recipient = recipient;
            mint = accounts.mint;
            amount = amount;
            created_at = now;
            expires_at = expires_at;
            escrow_id = escrow_id;
          })
          ∷ [];
    })
