-- ===== src/Escrow/Settlement.antt =====
-- What a release and a refund do: who may settle an escrow, when, and where the tokens go.
use iron_vault.Constants.{pause_escrow_release}
use iron_vault.Error.{>>=-eq_ok, ok}
use iron_vault.Escrow.Refund.{
  RefundEscrow, RefundEscrowLoaded, check_refund, refund, validate_refund_escrow,
}
use iron_vault.Escrow.Release.{
  ReleaseEscrow, ReleaseEscrowLoaded, check_release, release, validate_release_escrow,
}
use iron_vault.Prelude.{arith, false, refl, some, true, ◌+◌, ◌≡◌}
use iron_vault.Prelude.Int.{checked_add, ◌<ℤ◌, ◌≤ℤ◌}
use iron_vault.Runtime.{
  Content, Context, Effect, Interface, Ledger, Runtime, TokenAccount, TransferChecked, load,
  load_interface, read_escrow, read_protocol_config, read_token, require_canonical, store,
}
use iron_vault.Runtime.Accounts.{
  HoldsProgram, HoldsToken, balance, load_escrow-eq_ok, load_protocol_config-eq_ok,
  load_token-eq_ok,
}
use iron_vault.Security.{require_protocol_active}
use iron_vault.Seeds.{escrow_token_seeds}
use iron_vault.State.{Escrow, ProtocolConfig, Pubkey, funded, is_paused, refunded, released}
use iron_vault.Transfer.{transfer_exact}
use iron_vault.Transfer.Balances.{transfer_exact-balance}

-- The payment that settles escrow `e`, held at `k`, and turns ledger `l` into `m`: the escrow was
-- funded, and its exact amount went from its custody `from` into the account `to`.
pub record Payment (rt : Runtime) (ctx : Context) (l m : Ledger) (k from to : Pubkey) (e : Escrow)
    : Type 0 where
  pub was_funded : e.status ≡ funded
  pub held : HoldsProgram rt l k (Content.escrow e)
  pub custody : Interface TokenAccount
  pub transfer : TransferChecked
  pub custody_held : HoldsToken l from custody
  pub transfer_from : transfer.from ≡ from
  pub transfer_to : transfer.to ≡ to
  pub transferred : rt.transfer_checked ctx.signers transfer l ≡ some m
  pub custody_is_canonical : from ≡ (rt.find_program_address (escrow_token_seeds k)).0
  pub paid_out : balance m from + e.amount ≡ balance l from
  pub paid_in : balance m to ≡ balance l to + e.amount

-- The destination is a token account of the given owner and of the escrow's mint.
abbrev pub IsPaidTo : Ledger → Pubkey → Escrow → Pubkey → Type 0
IsPaidTo l to e owner =
    (t : Interface TokenAccount) × HoldsToken l to t
    × (t.state.owner ≡ owner)
    × (t.state.mint ≡ e.mint)
    × (t.program ≡ e.token_program)

module _ (rt : Runtime) (ctx : Context) (accounts : ReleaseEscrow) (l : Ledger) where
  validate_release-eq_ok :
      (a : ReleaseEscrowLoaded)
      → validate_release_escrow rt ctx accounts l ≡ ok a
      → (ctx.signers accounts.maker ≡ true)
        × (a.escrow.maker ≡ accounts.maker)
        × (load rt read_protocol_config l accounts.protocol_config ≡ ok a.config)
        × (load rt read_escrow l accounts.escrow ≡ ok a.escrow)
        × (load_interface rt read_token l accounts.escrow_token ≡ ok a.escrow_token)
        × (load_interface rt read_token l accounts.recipient_token ≡ ok a.recipient_token)
        × (accounts.escrow_token ≡ (rt.find_program_address (escrow_token_seeds accounts.escrow)).0)
        × (a.recipient_token.state.owner ≡ a.escrow.recipient)
        × (a.recipient_token.state.mint ≡ a.escrow.mint)
        × (a.recipient_token.program ≡ a.escrow.token_program)
  unfolding validate_release_escrow require_canonical
  validate_release-eq_ok a h = ground arith

  -- A successful release settles the escrow: the maker signed, the release is not paused and not
  -- late, and the recipient of the terms is paid.
  pub release_settles :
      (e : Effect)
      → release rt ctx accounts l ≡ ok e
      → (escrow : Escrow) × (config : ProtocolConfig) × (m : Ledger) × (ctx.signers escrow.maker
          ≡ true)
        × HoldsProgram rt l accounts.protocol_config (Content.protocol_config config)
        × (is_paused config pause_escrow_release ≡ false)
        × (ctx.unix_timestamp <ℤ escrow.expires_at)
        × IsPaidTo l accounts.recipient_token escrow escrow.recipient
        × Payment rt ctx l m accounts.escrow accounts.escrow_token accounts.recipient_token escrow
        × (e.ledger
            ≡ store rt accounts.escrow (Content.escrow (record escrow { status = released })) m)
  unfolding release check_release require_protocol_active checked_add
  release_settles e h =
      let (a, va, h1) = >>=-eq_ok (validate_release_escrow rt ctx accounts l) _ h in
      let (_, checked, h2) = >>=-eq_ok (check_release ctx a) _ h1 in
      let (m, moved, h3) = >>=-eq_ok (transfer_exact rt ctx _ _ _ _ _ l) _ h2 in
      let (source, paid, at_source, at_paid, out, into, called) =
        transfer_exact-balance rt ctx _ l m _ _ _ _ moved in
      let v = validate_release-eq_ok a va in
      let at_custody = load_token-eq_ok rt l accounts.escrow_token a.escrow_token v.4 in
      let at_recipient = load_token-eq_ok rt l accounts.recipient_token a.recipient_token v.5 in
      (
        a.escrow,
        a.config,
        m,
        ground arith,
        load_protocol_config-eq_ok rt l accounts.protocol_config a.config v.2,
        ground arith,
        ground arith,
        (a.recipient_token, at_recipient, ground arith, ground arith, ground arith),
        record {
          was_funded = ground arith;
          held = load_escrow-eq_ok rt l accounts.escrow a.escrow v.3;
          custody = a.escrow_token;
          transfer = _;
          custody_held = at_custody;
          transfer_from = refl;
          transfer_to = refl;
          transferred = called;
          custody_is_canonical = ground arith;
          paid_out = ground arith;
          paid_in = ground arith;
        },
        ground arith,
      )

module _ (rt : Runtime) (ctx : Context) (accounts : RefundEscrow) (l : Ledger) where
  validate_refund-eq_ok :
      (a : RefundEscrowLoaded)
      → validate_refund_escrow rt ctx accounts l ≡ ok a
      → (load rt read_escrow l accounts.escrow ≡ ok a.escrow)
        × (load_interface rt read_token l accounts.escrow_token ≡ ok a.escrow_token)
        × (load_interface rt read_token l accounts.maker_destination ≡ ok a.maker_destination)
        × (accounts.escrow_token ≡ (rt.find_program_address (escrow_token_seeds accounts.escrow)).0)
        × (a.maker_destination.state.owner ≡ a.escrow.maker)
        × (a.maker_destination.state.mint ≡ a.escrow.mint)
        × (a.maker_destination.program ≡ a.escrow.token_program)
  unfolding validate_refund_escrow require_canonical
  validate_refund-eq_ok a h = ground arith

  -- A successful refund settles an expired escrow in favour of its maker, whoever called it.
  pub refund_settles :
      (e : Effect)
      → refund rt ctx accounts l ≡ ok e
      → (escrow : Escrow) × (m : Ledger) × (escrow.expires_at ≤ℤ ctx.unix_timestamp)
        × IsPaidTo l accounts.maker_destination escrow escrow.maker
        × Payment rt ctx l m accounts.escrow accounts.escrow_token accounts.maker_destination escrow
        × (e.ledger
            ≡ store rt accounts.escrow (Content.escrow (record escrow { status = refunded })) m)
  unfolding refund check_refund checked_add
  refund_settles e h =
      let (a, va, h1) = >>=-eq_ok (validate_refund_escrow rt ctx accounts l) _ h in
      let (_, checked, h2) = >>=-eq_ok (check_refund ctx a) _ h1 in
      let (m, moved, h3) = >>=-eq_ok (transfer_exact rt ctx _ _ _ _ _ l) _ h2 in
      let (source, paid, at_source, at_paid, out, into, called) =
        transfer_exact-balance rt ctx _ l m _ _ _ _ moved in
      let v = validate_refund-eq_ok a va in
      let at_custody = load_token-eq_ok rt l accounts.escrow_token a.escrow_token v.1 in
      let at_maker = load_token-eq_ok rt l accounts.maker_destination a.maker_destination v.2 in
      (
        a.escrow,
        m,
        ground arith,
        (a.maker_destination, at_maker, ground arith, ground arith, ground arith),
        record {
          was_funded = ground arith;
          held = load_escrow-eq_ok rt l accounts.escrow a.escrow v.0;
          custody = a.escrow_token;
          transfer = _;
          custody_held = at_custody;
          transfer_from = refl;
          transfer_to = refl;
          transferred = called;
          custody_is_canonical = ground arith;
          paid_out = ground arith;
          paid_in = ground arith;
        },
        ground arith,
      )
