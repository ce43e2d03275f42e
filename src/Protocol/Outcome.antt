-- ===== src/Protocol/Outcome.antt =====
-- What a successful instruction on the protocol configuration has read, checked and written.
use iron_vault.Constants.{initial_schema_version}
use iron_vault.Error.{>>=-eq_ok, ok}
use iron_vault.Prelude.{arith, none, refl, replicate, true, ℕ, ◌≡◌, ◌≢◌}
use iron_vault.Protocol.{
  InitializeProtocol, SetProtocolPause, check_set_pause, initialize_protocol_account, set_pause,
}
use iron_vault.Runtime.{
  Content, Context, Effect, Ledger, Runtime, init, load, read_protocol_config, require_signer,
  store,
}
use iron_vault.Runtime.Accounts.{HoldsProgram, init-eq_ok, load_protocol_config-eq_ok}
use iron_vault.Seeds.{protocol_seeds}
use iron_vault.State.{ProtocolConfig, Pubkey}

module _ (rt : Runtime) (ctx : Context) (l : Ledger) (e : Effect) where
  pub initialize_protocol-eq_ok :
      (accounts : InitializeProtocol) (admin guardian : Pubkey)
      → initialize_protocol_account rt ctx accounts admin guardian l ≡ ok e
      → (config : ProtocolConfig) × (l accounts.protocol_config ≡ none)
        × (config.admin ≡ admin)
        × (config.guardian ≡ guardian)
        × (config.pause_flags ≡ 0)
        × (admin ≢ guardian)
        × (e.ledger ≡ store rt accounts.protocol_config (Content.protocol_config config) l)
  unfolding initialize_protocol_account
  initialize_protocol-eq_ok accounts admin guardian h =
      let (_, signed, h1) = >>=-eq_ok (require_signer rt ctx accounts.initializer) _ h in
      let (bump, made, h2) = >>=-eq_ok (init rt protocol_seeds l accounts.protocol_config) _ h1 in
      (
        record {
          version = initial_schema_version;
          admin = admin;
          guardian = guardian;
          pause_flags = 0;
          bump = bump;
          reserved = replicate 61 0;
        },
        ground (arith, init-eq_ok rt protocol_seeds l accounts.protocol_config bump made),
        refl,
        refl,
        refl,
        ground arith,
        ground arith,
      )

  pub set_pause-eq_ok :
      (accounts : SetProtocolPause) (flags : ℕ)
      → set_pause rt ctx accounts flags l ≡ ok e
      → (config : ProtocolConfig) × (ctx.signers accounts.caller ≡ true)
        × HoldsProgram rt l accounts.protocol_config (Content.protocol_config config)
        × (check_set_pause config accounts.caller flags ≡ ok tt)
        × (e.ledger
            ≡ store rt accounts.protocol_config
                (Content.protocol_config (record config { pause_flags = flags }))
                l)
  unfolding set_pause
  set_pause-eq_ok accounts flags h =
      let (_, signed, h1) = >>=-eq_ok (require_signer rt ctx accounts.caller) _ h in
      let (config, loaded, h2) =
        >>=-eq_ok (load rt read_protocol_config l accounts.protocol_config) _ h1 in
      (
        config,
        ground arith,
        load_protocol_config-eq_ok rt l accounts.protocol_config config loaded,
        ground arith,
        ground arith,
      )
