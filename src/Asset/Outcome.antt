-- ===== src/Asset/Outcome.antt =====
-- What a successful registration, deposit and change of limits has read, checked and written.
use iron_vault.Asset.Deposit.{
  Deposit, DepositLoaded, check_deposit, deposit_tokens, validate_deposit,
}
use iron_vault.Asset.Register.{RegisterAsset, new_asset, register_vault_asset}
use iron_vault.Error.{>>=-eq_ok, ok}
use iron_vault.Prelude.{ap, arith, none, refl, some, true, ℕ, ◌+◌, ◌<◌, ◌∙◌, ◌≡◌, ◌≢◌}
use iron_vault.Prelude.Int.{checked_add}
use iron_vault.Runtime.{
  Content, Context, Effect, Interface, Ledger, Runtime, TokenAccount, TransferChecked, empty_token,
  init, load, load_interface, read_mint, read_protocol_config, read_token, read_vault,
  read_vault_asset, require_canonical, require_signer, require_token_interface, store, store_token,
}
use iron_vault.Runtime.Accounts.{
  HoldsProgram, HoldsToken, balance, init-eq_ok, load_token-eq_ok, load_vault-eq_ok,
  load_vault_asset-eq_ok,
}
use iron_vault.Seeds.{vault_asset_seeds, vault_token_seeds}
use iron_vault.State.{Vault, VaultAsset}
use iron_vault.Transfer.{transfer_exact}
use iron_vault.Transfer.Balances.{transfer_exact-balance}

module _ (rt : Runtime) (ctx : Context) (l : Ledger) (e : Effect) where
  pub register-eq_ok :
      (accounts : RegisterAsset)
      → register_vault_asset rt ctx accounts l ≡ ok e
      → (vault : Vault) × (bump : ℕ) × (ctx.signers vault.authority ≡ true)
        × HoldsProgram rt l accounts.vault (Content.vault vault)
        × (l accounts.vault_asset ≡ none)
        × (l accounts.vault_token ≡ none)
        × (accounts.vault_asset ≢ accounts.vault_token)
        × ((rt.find_program_address (vault_token_seeds accounts.vault accounts.mint)).0
            ≡ accounts.vault_token)
        × (e.ledger
            ≡ store rt accounts.vault_asset
                (Content.vault_asset (new_asset accounts bump ctx.unix_timestamp))
                (store_token accounts.vault_token accounts.token_program
                  (empty_token accounts.mint accounts.vault)
                  (store rt accounts.vault_asset Content.other l)))
  unfolding register_vault_asset
  register-eq_ok accounts h =
      let (_, signed, h1) = >>=-eq_ok (require_signer rt ctx accounts.authority) _ h in
      let (config, loaded, h2) =
        >>=-eq_ok (load rt read_protocol_config l accounts.protocol_config) _ h1 in
      let (vault, found, h3) = >>=-eq_ok (load rt read_vault l accounts.vault) _ h2 in
      let (mint, found_mint, h4) = >>=-eq_ok (load_interface rt read_mint l accounts.mint) _ h3 in
      let (_, known, h5) = >>=-eq_ok (require_token_interface rt accounts.token_program) _ h4 in
      let (bump, made, h6) =
        >>=-eq_ok (init rt (vault_asset_seeds accounts.vault accounts.mint) l accounts.vault_asset)
          _ h5 in
      let (custody_bump, custody_made, h7) =
        >>=-eq_ok
          (init rt (vault_token_seeds accounts.vault accounts.mint)
            (store rt accounts.vault_asset Content.other l) accounts.vault_token)
          _ h6 in
      let (absent, canonical) =
        init-eq_ok rt (vault_asset_seeds accounts.vault accounts.mint) l accounts.vault_asset bump
          made in
      let (custody_absent, custody_canonical) =
        init-eq_ok rt (vault_token_seeds accounts.vault accounts.mint)
          (store rt accounts.vault_asset Content.other l) accounts.vault_token custody_bump
          custody_made in
      (
        vault,
        bump,
        ground arith,
        load_vault-eq_ok rt l accounts.vault vault found,
        absent,
        ground arith,
        ground arith,
        ground arith,
        ground arith,
      )

  validate_deposit-eq_ok :
      (accounts : Deposit) (a : DepositLoaded)
      → validate_deposit rt ctx accounts l ≡ ok a
      → (ctx.signers accounts.depositor ≡ true)
        × (load rt read_vault_asset l accounts.vault_asset ≡ ok a.asset)
        × (load_interface rt read_token l accounts.source_token ≡ ok a.source_token)
        × (load_interface rt read_token l accounts.vault_token ≡ ok a.vault_token)
        × (a.asset.vault ≡ accounts.vault)
        × (a.asset.mint ≡ accounts.mint)
        × (a.source_token.state.owner ≡ accounts.depositor)
        × (accounts.vault_token
            ≡ (rt.find_program_address (vault_token_seeds accounts.vault accounts.mint)).0)
  unfolding validate_deposit require_canonical
  validate_deposit-eq_ok accounts a h = ground arith

  -- A successful deposit into an enabled asset was signed by the depositor, who owns the source, and
  -- moves exactly its positive amount into the canonical custody; the ledger is the one that the
  -- token program left.
  pub deposit-eq_ok :
      (accounts : Deposit) (amount : ℕ)
      → deposit_tokens rt ctx accounts amount l ≡ ok e
      → (asset : VaultAsset) × (t : TransferChecked) × (source custody : Interface TokenAccount)
        × HoldsProgram rt l accounts.vault_asset (Content.vault_asset asset)
        × HoldsToken l accounts.source_token source
        × HoldsToken l accounts.vault_token custody
        × (asset.enabled ≡ true)
        × (0 < amount)
        × (source.state.owner ≡ accounts.depositor)
        × (ctx.signers accounts.depositor ≡ true)
        × (accounts.vault_token
            ≡ (rt.find_program_address (vault_token_seeds accounts.vault accounts.mint)).0)
        × (t.from ≡ accounts.source_token)
        × (t.to ≡ accounts.vault_token)
        × (rt.transfer_checked ctx.signers t l ≡ some e.ledger)
        × (balance e.ledger accounts.source_token + amount ≡ balance l accounts.source_token)
        × (balance e.ledger accounts.vault_token ≡ balance l accounts.vault_token + amount)
  unfolding deposit_tokens check_deposit checked_add
  deposit-eq_ok accounts amount h =
      let (a, valid, h1) = >>=-eq_ok (validate_deposit rt ctx accounts l) _ h in
      let (custody_after, checked, h2) = >>=-eq_ok (check_deposit a amount) _ h1 in
      let (l', moved, h3) = >>=-eq_ok (transfer_exact rt ctx _ _ _ _ _ l) _ h2 in
      let (source, custody, at_source, at_custody, out, into, called) =
        transfer_exact-balance rt ctx _ l l' _ _ _ _ moved in
      let v = validate_deposit-eq_ok accounts a valid in
      let was_source = load_token-eq_ok rt l accounts.source_token a.source_token v.2 in
      let was_custody = load_token-eq_ok rt l accounts.vault_token a.vault_token v.3 in
      let done : l' ≡ e.ledger = ground arith in
      (
        a.asset,
        _,
        a.source_token,
        a.vault_token,
        load_vault_asset-eq_ok rt l accounts.vault_asset a.asset v.1,
        was_source,
        was_custody,
        ground arith,
        ground arith,
        ground arith,
        ground arith,
        ground arith,
        refl,
        refl,
        called ∙ ap some done,
        ground arith,
        ground arith,
      )
