-- ===== src/Vault/Outcome.antt =====
-- What a successful instruction on a vault account has read, checked and written.
use iron_vault.Error.{>>=-eq_ok, ok}
use iron_vault.Prelude.{arith, false, none, refl, replicate, true, ℕ, ◌≡◌, ◌≢◌, ◌⊎◌}
use iron_vault.Runtime.{
  Content, Context, Effect, Ledger, Runtime, init, load, read_protocol_config, read_vault,
  require_signer, store,
}
use iron_vault.Runtime.Accounts.{HoldsProgram, init-eq_ok, load_vault-eq_ok}
use iron_vault.Seeds.{vault_seeds}
use iron_vault.State.{Pubkey, Vault, default_key}
use iron_vault.Vault.{
  CreateVault, PauseVault, SetVaultAuthority, UnpauseVault, create_vault_account, pause,
  set_authority, unpause,
}

module _ (rt : Runtime) (ctx : Context) (l : Ledger) (e : Effect) where
  pub create_vault-eq_ok :
      (accounts : CreateVault) (vault_id : ℕ) (guardian : Pubkey)
      → create_vault_account rt ctx accounts vault_id guardian l ≡ ok e
      → (vault : Vault) × (ctx.signers accounts.authority ≡ true)
        × (l accounts.vault ≡ none)
        × (vault.authority ≡ accounts.authority)
        × (vault.guardian ≡ guardian)
        × (guardian ≢ accounts.authority)
        × (vault.paused ≡ false)
        × (e.ledger ≡ store rt accounts.vault (Content.vault vault) l)
  unfolding create_vault_account
  create_vault-eq_ok accounts vault_id guardian h =
      let (_, signed, h1) = >>=-eq_ok (require_signer rt ctx accounts.authority) _ h in
      let (config, loaded, h2) =
        >>=-eq_ok (load rt read_protocol_config l accounts.protocol_config) _ h1 in
      let (bump, made, h3) =
        >>=-eq_ok (init rt (vault_seeds accounts.authority vault_id) l accounts.vault) _ h2 in
      (
        record {
          namespace_authority = accounts.authority;
          authority = accounts.authority;
          guardian = guardian;
          vault_id = vault_id;
          next_withdrawal_id = 0;
          paused = false;
          bump = bump;
          reserved = replicate 46 0;
        },
        ground arith,
        ground (
          arith,
          init-eq_ok rt (vault_seeds accounts.authority vault_id) l accounts.vault bump made,
        ),
        refl,
        refl,
        ground arith,
        refl,
        ground arith,
      )

  -- A successful change was signed by the authority of the vault, and replaces it by a key that is
  -- neither the default one, nor the authority, nor the guardian; nothing else changes.
  pub set_authority-eq_ok :
      (accounts : SetVaultAuthority) (new_authority : Pubkey)
      → set_authority rt ctx accounts new_authority l ≡ ok e
      → (vault : Vault) × (ctx.signers vault.authority ≡ true)
        × HoldsProgram rt l accounts.vault (Content.vault vault)
        × (new_authority ≢ default_key)
        × (new_authority ≢ vault.authority)
        × (new_authority ≢ vault.guardian)
        × (e.ledger
            ≡ store rt accounts.vault
                (Content.vault (record vault { authority = new_authority }))
                l)
  unfolding set_authority
  set_authority-eq_ok accounts new_authority h =
      let (_, signed, h1) = >>=-eq_ok (require_signer rt ctx accounts.current_authority) _ h in
      let (config, loaded, h2) =
        >>=-eq_ok (load rt read_protocol_config l accounts.protocol_config) _ h1 in
      let (vault, found, h3) = >>=-eq_ok (load rt read_vault l accounts.vault) _ h2 in
      (
        vault,
        ground arith,
        load_vault-eq_ok rt l accounts.vault vault found,
        ground arith,
        ground arith,
        ground arith,
        ground arith,
      )

  -- A successful pause was signed by the authority or the guardian of a vault that was not paused,
  -- and changes nothing but the pause.
  pub pause-eq_ok :
      (accounts : PauseVault)
      → pause rt ctx accounts l ≡ ok e
      → (vault : Vault) × (ctx.signers accounts.caller ≡ true)
        × HoldsProgram rt l accounts.vault (Content.vault vault)
        × ((accounts.caller ≡ vault.authority) ⊎ (accounts.caller ≡ vault.guardian))
        × (vault.paused ≡ false)
        × (e.ledger ≡ store rt accounts.vault (Content.vault (record vault { paused = true })) l)
  unfolding pause
  pause-eq_ok accounts h =
      let (_, signed, h1) = >>=-eq_ok (require_signer rt ctx accounts.caller) _ h in
      let (vault, found, h2) = >>=-eq_ok (load rt read_vault l accounts.vault) _ h1 in
      (
        vault,
        ground arith,
        load_vault-eq_ok rt l accounts.vault vault found,
        ground arith,
        ground arith,
        ground arith,
      )

  pub unpause-eq_ok :
      (accounts : UnpauseVault)
      → unpause rt ctx accounts l ≡ ok e
      → (vault : Vault) × (ctx.signers vault.authority ≡ true)
        × HoldsProgram rt l accounts.vault (Content.vault vault)
        × (vault.paused ≡ true)
        × (e.ledger ≡ store rt accounts.vault (Content.vault (record vault { paused = false })) l)
  unfolding unpause
  unpause-eq_ok accounts h =
      let (_, signed, h1) = >>=-eq_ok (require_signer rt ctx accounts.authority) _ h in
      let (vault, found, h2) = >>=-eq_ok (load rt read_vault l accounts.vault) _ h1 in
      (
        vault,
        ground arith,
        load_vault-eq_ok rt l accounts.vault vault found,
        ground arith,
        ground arith,
      )
