-- ===== src/Program/Evolution/Configuration.antt =====
-- The evolution of the state accounts under the instructions that move no tokens.
use iron_vault.Asset.Limits.{Policy, UpdateLimits, update_policy}
use iron_vault.Asset.Outcome.{register-eq_ok}
use iron_vault.Asset.Policy.{update_policy-eq_ok}
use iron_vault.Asset.Register.{RegisterAsset, register_vault_asset}
use iron_vault.Error.{ok}
use iron_vault.Prelude.{ap, arith, inl, inr, refl, subst, sym, ℕ, ◌≡◌}
use iron_vault.Program.Evolution.{Evolution, Keeps-Evolution, init-Evolution, store-Evolution}
use iron_vault.Protocol.{
  InitializeProtocol, SetProtocolPause, initialize_protocol_account, set_pause,
}
use iron_vault.Protocol.Outcome.{initialize_protocol-eq_ok, set_pause-eq_ok}
use iron_vault.Role.{GrantRole, RevokeRole, grant, revoke}
use iron_vault.Role.Outcome.{grant-eq_ok, revoke-eq_ok}
use iron_vault.Runtime.{Content, Context, Effect, Ledger, Runtime}
use iron_vault.Seeds.{role_seeds}
use iron_vault.State.{Pubkey, RoleAssignment}
use iron_vault.Vault.{
  CreateVault, PauseVault, SetVaultAuthority, UnpauseVault, create_vault_account, pause,
  set_authority, unpause,
}
use iron_vault.Vault.Outcome.{create_vault-eq_ok, pause-eq_ok, set_authority-eq_ok, unpause-eq_ok}

refl-Evolution : (rt : Runtime) (l : Ledger) → Evolution rt l l
refl-Evolution rt l = Keeps-Evolution rt l l (λ k c s at. at)

-- To take the ledger of an effect for the one that was written.
abbrev pub along : (rt : Runtime) (l m n : Ledger) → n ≡ m → Evolution rt l m → Evolution rt l n
along rt l m n same = subst (Evolution rt l) (sym same)

module _ (rt : Runtime) (ctx : Context) (l : Ledger) (e : Effect) where
  pub initialize_protocol-Evolution :
      (a : InitializeProtocol) (admin guardian : Pubkey)
      → initialize_protocol_account rt ctx a admin guardian l ≡ ok e
      → Evolution rt l e.ledger
  initialize_protocol-Evolution a admin guardian h =
      let (config, absent, _, _, _, _, wrote) =
        initialize_protocol-eq_ok rt ctx l e a admin guardian h in
      along rt l _ e.ledger wrote
        (init-Evolution rt l l a.protocol_config _ absent (refl-Evolution rt l))

  pub set_pause-Evolution :
      (a : SetProtocolPause) (flags : ℕ)
      → set_pause rt ctx a flags l ≡ ok e
      → Evolution rt l e.ledger
  set_pause-Evolution a flags h =
      let (config, _, held, _, wrote) = set_pause-eq_ok rt ctx l e a flags h in
      along rt l _ e.ledger wrote (
        store-Evolution rt l l a.protocol_config (Content.protocol_config config) _ held refl
          (refl-Evolution rt l))

  pub create_vault-Evolution :
      (a : CreateVault) (vault_id : ℕ) (guardian : Pubkey)
      → create_vault_account rt ctx a vault_id guardian l ≡ ok e
      → Evolution rt l e.ledger
  create_vault-Evolution a vault_id guardian h =
      let (vault, _, absent, _, _, _, _, wrote) =
        create_vault-eq_ok rt ctx l e a vault_id guardian h in
      along rt l _ e.ledger wrote (init-Evolution rt l l a.vault _ absent (refl-Evolution rt l))

  pub set_authority-Evolution :
      (a : SetVaultAuthority) (new_authority : Pubkey)
      → set_authority rt ctx a new_authority l ≡ ok e
      → Evolution rt l e.ledger
  set_authority-Evolution a new_authority h =
      let (vault, _, held, _, _, apart, wrote) = set_authority-eq_ok rt ctx l e a new_authority h in
      along rt l _ e.ledger wrote (
        store-Evolution rt l l a.vault (Content.vault vault) _ held (refl, omega arith, inr apart)
          (refl-Evolution rt l))

  pub pause-Evolution : (a : PauseVault) → pause rt ctx a l ≡ ok e → Evolution rt l e.ledger
  pause-Evolution a h =
      let (vault, _, held, _, _, wrote) = pause-eq_ok rt ctx l e a h in
      along rt l _ e.ledger wrote (
        store-Evolution rt l l a.vault (Content.vault vault) _ held (refl, omega arith, inl refl)
          (refl-Evolution rt l))

  pub unpause-Evolution : (a : UnpauseVault) → unpause rt ctx a l ≡ ok e → Evolution rt l e.ledger
  unpause-Evolution a h =
      let (vault, _, held, _, wrote) = unpause-eq_ok rt ctx l e a h in
      along rt l _ e.ledger wrote (
        store-Evolution rt l l a.vault (Content.vault vault) _ held (refl, omega arith, inl refl)
          (refl-Evolution rt l))

  pub grant-Evolution :
      (a : GrantRole) (principal : Pubkey) (permissions : ℕ)
      → grant rt ctx a principal permissions l ≡ ok e
      → Evolution rt l e.ledger
  grant-Evolution a principal permissions h =
      let (
        vault, role, _, _, canonical, free, _, _, known, of_vault, of_principal, mask, active, bump,
        reserved, wrote,
      ) =
        grant-eq_ok rt ctx l e a principal permissions h in
      along rt l _ e.ledger wrote (elim free [
        | inl absent ↦ init-Evolution rt l l a.role_assignment _ absent (refl-Evolution rt l)
        | inr (old, held) ↦
            store-Evolution rt l l a.role_assignment (Content.role_assignment old)
              (Content.role_assignment role) held
              (inr (
                inr (
                  (
                    rw mask known,
                    placed_there role canonical of_vault of_principal bump,
                    active,
                    reserved,
                  ))))
              (refl-Evolution rt l)
      ])
    where
      placed_there :
          (role : RoleAssignment)
          → (rt.find_program_address (role_seeds a.vault principal)).0 ≡ a.role_assignment
          → role.vault ≡ a.vault
          → role.principal ≡ principal
          → role.bump ≡ (rt.find_program_address (role_seeds a.vault principal)).1
          → rt.find_program_address (role_seeds role.vault role.principal)
            ≡ (a.role_assignment, role.bump)
      placed_there role canonical of_vault of_principal bump = rw of_vault (
          rw of_principal (
            rw bump (
              ap (λ k. (k, (rt.find_program_address (role_seeds a.vault principal)).1)) canonical)))

  pub revoke-Evolution :
      (a : RevokeRole) (principal : Pubkey)
      → revoke rt ctx a principal l ≡ ok e
      → Evolution rt l e.ledger
  revoke-Evolution a principal h =
      let (vault, role, _, _, held, _, _, was_active, wrote) =
        revoke-eq_ok rt ctx l e a principal h in
      along rt l _ e.ledger wrote (
        store-Evolution rt l l a.role_assignment (Content.role_assignment role) _ held
          (inr (inl (was_active, refl))) (refl-Evolution rt l))

  pub register-Evolution :
      (a : RegisterAsset) → register_vault_asset rt ctx a l ≡ ok e → Evolution rt l e.ledger
  register-Evolution a h =
      let (vault, bump, _, _, absent, custody_absent, _, _, wrote) =
        register-eq_ok rt ctx l e a h in
      along rt l _ e.ledger wrote (
        init-Evolution rt l _ a.vault_asset _ absent (
          init-Evolution rt l _ a.vault_token _ custody_absent
            (init-Evolution rt l l a.vault_asset _ absent (refl-Evolution rt l))))

  pub update_policy-Evolution :
      (a : UpdateLimits) (p : Policy) → update_policy rt ctx a p l ≡ ok e → Evolution rt l e.ledger
  update_policy-Evolution a p h =
      let (vault, asset, window, _, _, held, _, _, _, _, wrote) =
        update_policy-eq_ok rt ctx l e a p h in
      along rt l _ e.ledger wrote (
        store-Evolution rt l l a.vault_asset (Content.vault_asset asset) _ held refl
          (refl-Evolution rt l))
