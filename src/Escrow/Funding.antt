-- ===== src/Escrow/Funding.antt =====
-- What a successful creation of an escrow has read, checked and moved.
use iron_vault.Constants.{pause_escrow_create}
use iron_vault.Error.{>>=-eq_ok, ok}
use iron_vault.Escrow.Create.{
  CreateEscrow, CreateEscrowLoaded, check_create, create, validate_create_escrow,
}
use iron_vault.Prelude.{
  ap, arith, false, none, refl, replicate, some, sym, true, ℕ, ◌+◌, ◌<◌, ◌≡◌, ◌≢◌, ◌≤◌,
}
use iron_vault.Prelude.Int.{ℤ, ◌<ℤ◌}
use iron_vault.Runtime.{
  Content, Context, Effect, Ledger, Runtime, TransferChecked, empty_token, init, load_interface,
  read_token, require_canonical, store, store_token,
}
use iron_vault.Runtime.Accounts.{HoldsToken, balance, load_token-eq_ok}
use iron_vault.Security.{require_protocol_active}
use iron_vault.Seeds.{escrow_seeds, escrow_token_seeds}
use iron_vault.State.{Pubkey, default_key, funded, is_paused}
use iron_vault.Transfer.{transfer_exact}
use iron_vault.Transfer.Balances.{transfer_exact-balance}

module _ (rt : Runtime) (ctx : Context) (accounts : CreateEscrow) (l : Ledger) where
  validate_create-eq_ok :
      (escrow_id : ℕ) (a : CreateEscrowLoaded)
      → validate_create_escrow rt ctx accounts escrow_id l ≡ ok a
      → (ctx.signers accounts.maker ≡ true)
        × (l accounts.escrow ≡ none)
        × (l accounts.escrow_token ≡ none)
        × (accounts.escrow ≢ accounts.escrow_token)
        × (rt.find_program_address (escrow_seeds accounts.maker escrow_id)
            ≡ (accounts.escrow, a.bump))
        × ((rt.find_program_address (escrow_token_seeds accounts.escrow)).0 ≡ accounts.escrow_token)
        × (load_interface rt read_token l accounts.maker_token ≡ ok a.maker_token)
        × (a.maker_token.state.owner ≡ accounts.maker)
        × (a.ledger
            ≡ store_token accounts.escrow_token accounts.token_program
                (empty_token accounts.mint accounts.escrow)
                (store rt accounts.escrow Content.other l))
  unfolding validate_create_escrow init require_canonical
  validate_create-eq_ok escrow_id a h = ground arith

  -- The checks of `create`.
  pub check_create-eq_ok :
      (a : CreateEscrowLoaded) (recipient : Pubkey) (amount : ℕ) (expires_at : ℤ)
      → check_create ctx accounts a recipient amount expires_at ≡ ok tt
      → (is_paused a.config pause_escrow_create ≡ false)
        × (0 < amount)
        × (recipient ≢ default_key)
        × (recipient ≢ accounts.maker)
        × (ctx.unix_timestamp <ℤ expires_at)
        × (amount ≤ a.maker_token.state.amount)
  unfolding check_create require_protocol_active
  check_create-eq_ok a recipient amount expires_at h = ground arith

  -- A successful creation: the maker signed, nothing was at the two addresses, the terms are sound,
  -- exactly the amount went from the maker's account into the fresh custody, and the escrow that is
  -- stored is funded, with the given terms, the maker, the mint and its token program, the time of
  -- the call and the canonical bump.
  pub create_funds :
      (escrow_id : ℕ) (recipient : Pubkey) (amount : ℕ) (expires_at : ℤ) (e : Effect)
      → create rt ctx accounts escrow_id recipient amount expires_at l ≡ ok e
      → (a : CreateEscrowLoaded) × (m : Ledger) × (t : TransferChecked) × (ctx.signers
            accounts.maker
          ≡ true)
        × (l accounts.escrow ≡ none)
        × (l accounts.escrow_token ≡ none)
        × HoldsToken l accounts.maker_token a.maker_token
        × (a.maker_token.state.owner ≡ accounts.maker)
        × (accounts.escrow ≡ (rt.find_program_address (escrow_seeds accounts.maker escrow_id)).0)
        × (accounts.escrow_token ≡ (rt.find_program_address (escrow_token_seeds accounts.escrow)).0)
        × (0 < amount)
        × (recipient ≢ accounts.maker)
        × (ctx.unix_timestamp <ℤ expires_at)
        × (t.from ≡ accounts.maker_token)
        × (t.to ≡ accounts.escrow_token)
        × (a.ledger
            ≡ store_token accounts.escrow_token accounts.token_program
                (empty_token accounts.mint accounts.escrow)
                (store rt accounts.escrow Content.other l))
        × (rt.transfer_checked ctx.signers t a.ledger ≡ some m)
        × (balance m accounts.maker_token + amount ≡ balance l accounts.maker_token)
        × (balance m accounts.escrow_token ≡ amount)
        × (accounts.escrow ≢ accounts.escrow_token)
        × (e.ledger
            ≡ store rt accounts.escrow
                (Content.escrow (record {
                  maker = accounts.maker;
                  recipient = recipient;
                  mint = accounts.mint;
                  token_program = accounts.token_program;
                  escrow_id = escrow_id;
                  amount = amount;
                  created_at = ctx.unix_timestamp;
                  expires_at = expires_at;
                  status = funded;
                  bump = (rt.find_program_address (escrow_seeds accounts.maker escrow_id)).1;
                  reserved = replicate 30 0;
                }))
                m)
  unfolding create
  create_funds escrow_id recipient amount expires_at e h =
      let (a, valid, h1) = >>=-eq_ok (validate_create_escrow rt ctx accounts escrow_id l) _ h in
      let (_, checked, h2) =
        >>=-eq_ok (check_create ctx accounts a recipient amount expires_at) _ h1 in
      let (m, moved, h3) = >>=-eq_ok (transfer_exact rt ctx _ _ _ _ _ _) _ h2 in
      let (source, custody, at_source, at_custody, out, into, called) =
        transfer_exact-balance rt ctx _ a.ledger m _ _ _ _ moved in
      let v = validate_create-eq_ok escrow_id a valid in
      let c = check_create-eq_ok a recipient amount expires_at checked in
      let was_source = load_token-eq_ok rt l accounts.maker_token a.maker_token v.6 in
      (
        a,
        m,
        _,
        v.0,
        v.1,
        v.2,
        was_source,
        v.7,
        ap (λ p. p.0) (sym v.4),
        sym v.5,
        c.1,
        c.3,
        c.4,
        refl,
        refl,
        v.8,
        called,
        ground arith,
        ground arith,
        v.3,
        ground arith,
      )
