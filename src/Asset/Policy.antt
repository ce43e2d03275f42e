-- ===== src/Asset/Policy.antt =====
-- What a successful change of limits has read, checked and written.
use iron_vault.Asset.Limits.{
  Policy, UpdateLimits, UpdateLimitsLoaded, authorize_update, is_valid_policy, rewindow,
  update_policy, validate_update_limits, with_policy,
}
use iron_vault.Constants.{pause_vault_config}
use iron_vault.Error.{>>=-eq_ok, invalid_withdrawal_policy, ok, require}
use iron_vault.Prelude.{arith, true, ℕ, ◌≡◌}
use iron_vault.Prelude.Int.{ℤ}
use iron_vault.Runtime.{
  Content, Context, Effect, Ledger, Runtime, load, read_vault, read_vault_asset, store,
}
use iron_vault.Runtime.Accounts.{HoldsProgram, load_vault-eq_ok, load_vault_asset-eq_ok}
use iron_vault.Security.{require_protocol_active}
use iron_vault.State.{Vault, VaultAsset}

module _ (rt : Runtime) (ctx : Context) (l : Ledger) (e : Effect) where
  validate_update_limits-eq_ok :
      (accounts : UpdateLimits) (a : UpdateLimitsLoaded)
      → validate_update_limits rt ctx accounts l ≡ ok a
      → (ctx.signers accounts.caller ≡ true)
        × (load rt read_vault l accounts.vault ≡ ok a.vault)
        × (load rt read_vault_asset l accounts.vault_asset ≡ ok a.asset)
        × (a.asset.vault ≡ accounts.vault)
  unfolding validate_update_limits
  validate_update_limits-eq_ok accounts a h = ground arith

  pub update_policy-eq_ok :
      (accounts : UpdateLimits) (p : Policy)
      → update_policy rt ctx accounts p l ≡ ok e
      → (vault : Vault) × (asset : VaultAsset) × (window : ℤ × ℕ) × (ctx.signers accounts.caller
          ≡ true)
        × HoldsProgram rt l accounts.vault (Content.vault vault)
        × HoldsProgram rt l accounts.vault_asset (Content.vault_asset asset)
        × (authorize_update rt ctx accounts vault l ≡ ok tt)
        × (is_valid_policy p ≡ true)
        × (rewindow asset p.window_seconds ctx.unix_timestamp ≡ ok window)
        × (asset.vault ≡ accounts.vault)
        × (e.ledger
            ≡ store rt accounts.vault_asset (Content.vault_asset (with_policy asset p window)) l)
  unfolding update_policy
  update_policy-eq_ok accounts p h =
      let (a, valid, h1) = >>=-eq_ok (validate_update_limits rt ctx accounts l) _ h in
      let (_, active, h2) = >>=-eq_ok (require_protocol_active a.config pause_vault_config) _ h1 in
      let (_, authorized, h3) = >>=-eq_ok (authorize_update rt ctx accounts a.vault l) _ h2 in
      let (_, sound, h4) = >>=-eq_ok (require (is_valid_policy p) invalid_withdrawal_policy) _ h3 in
      let (window, moved, h5) =
        >>=-eq_ok (rewindow a.asset p.window_seconds ctx.unix_timestamp) _ h4 in
      let v = validate_update_limits-eq_ok accounts a valid in
      (
        a.vault,
        a.asset,
        window,
        ground arith,
        load_vault-eq_ok rt l accounts.vault a.vault v.1,
        load_vault_asset-eq_ok rt l accounts.vault_asset a.asset v.2,
        authorized,
        ground arith,
        moved,
        ground arith,
        ground arith,
      )
