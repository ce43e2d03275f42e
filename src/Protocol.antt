-- ===== src/Protocol.antt =====
-- The protocol configuration: programs/iron_vault/src/instructions/initialize_protocol.rs and
-- set_protocol_pause.rs, with the scaffold's initialize.rs.
pub mod Outcome
pub mod Guardian
use iron_vault.Constants.{initial_schema_version, known_pause_flags, not_u32}
use iron_vault.Error.{
  Result, guardian_cannot_unpause, invalid_pause_flags, invalid_protocol_authority, ok, require,
  unauthorized_protocol_pause, ◌>>=◌, ◌>>◌,
}
use iron_vault.Events.{protocol_initialized, protocol_pause_updated}
use iron_vault.Prelude.{[], bit_and, if◌then◌else◌, replicate, ℕ, ◌!=◌, ◌&&◌, ◌==◌, ◌||◌, ◌∷◌}
use iron_vault.Runtime.{
  Content, Context, Effect, Ledger, Runtime, init, load, read_protocol_config, require_seeds,
  require_signer, store,
}
use iron_vault.Seeds.{protocol_seeds}
use iron_vault.State.{ProtocolConfig, Pubkey, default_key}

-- The account keys of `InitializeProtocol`.
pub record InitializeProtocol : Type 0 where
  pub initializer : Pubkey
  pub protocol_config : Pubkey

-- The account keys of `SetProtocolPause`.
pub record SetProtocolPause : Type 0 where
  pub caller : Pubkey
  pub protocol_config : Pubkey

-- `initialize::dispatch` logs a line and changes nothing.
unfoldable pub dispatch : Ledger → Result Effect
dispatch l = ok (record { ledger = l; events = [] })

-- The checks of `set_pause`.
unfoldable pub check_set_pause : ProtocolConfig → Pubkey → ℕ → Result (Unit {0})
check_set_pause config caller flags = do
  require (bit_and flags (not_u32 known_pause_flags) == 0) invalid_pause_flags
  require (caller == config.admin || caller == config.guardian) unauthorized_protocol_pause
  if caller == config.guardian
      then require (bit_and flags config.pause_flags == config.pause_flags) guardian_cannot_unpause
      else ok tt

module _ (rt : Runtime) where
  unfoldable pub initialize_protocol_account :
      Context → InitializeProtocol → Pubkey → Pubkey → Ledger → Result Effect
  initialize_protocol_account ctx accounts admin guardian l = do
    require_signer rt ctx accounts.initializer
    bump ← init rt protocol_seeds l accounts.protocol_config
    require (admin != default_key && guardian != default_key && admin != guardian)
        invalid_protocol_authority
    let config : ProtocolConfig = record {
      version = initial_schema_version;
      admin = admin;
      guardian = guardian;
      pause_flags = 0;
      bump = bump;
      reserved = replicate 61 0;
    }
    ok (record {
      ledger = store rt accounts.protocol_config (Content.protocol_config config) l;
      events =
          protocol_initialized (record {
            protocol_config = accounts.protocol_config;
            admin = admin;
            guardian = guardian;
            version = initial_schema_version;
          })
          ∷ [];
    })

  unfoldable pub set_pause : Context → SetProtocolPause → ℕ → Ledger → Result Effect
  set_pause ctx accounts flags l = do
    require_signer rt ctx accounts.caller
    config ← load rt read_protocol_config l accounts.protocol_config
    require_seeds rt protocol_seeds config.bump accounts.protocol_config
    check_set_pause config accounts.caller flags
    let previous_flags = config.pause_flags
    ok (record {
      ledger =
          store rt accounts.protocol_config
            (Content.protocol_config (record config { pause_flags = flags })) l;
      events =
          protocol_pause_updated (record {
            version = initial_schema_version;
            protocol_config = accounts.protocol_config;
            caller = accounts.caller;
            previous_flags = previous_flags;
            new_flags = flags;
          })
          ∷ [];
    })
