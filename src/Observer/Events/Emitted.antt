-- ===== src/Observer/Events/Emitted.antt =====
-- What the program emits, as the observer sees it, and what it relies on.
use Prim.Native.String
use iron_vault.Events as Chain
use iron_vault.Borsh.{BorshLaws}
use iron_vault.Borsh.Wire.{event_name, wire}
use iron_vault.Observer.Events.{
  IronVaultEvent, escrow_created, escrow_refunded, escrow_released, protocol_initialized,
  protocol_pause_updated, role_granted, role_revoked, vault_asset_registered,
  vault_authority_updated, vault_created, vault_deposit, vault_limits_updated, vault_pause_updated,
  vault_withdrawal, withdrawal_cancelled, withdrawal_executed, withdrawal_requested,
}
use iron_vault.Observer.Events.Decode.{
  Codec, EventKind, discriminator, kind_escrow_created, kind_escrow_refunded, kind_escrow_released,
  kind_name, kind_protocol_initialized, kind_protocol_pause_updated, kind_role_granted,
  kind_role_revoked, kind_vault_asset_registered, kind_vault_authority_updated, kind_vault_created,
  kind_vault_deposit, kind_vault_limits_updated, kind_vault_pause_updated, kind_vault_withdrawal,
  kind_withdrawal_cancelled, kind_withdrawal_executed, kind_withdrawal_requested, kinds,
}
use iron_vault.Prelude.{List, String, [], inl, inr, length, refl, some, ℕ, ◌++◌, ◌∷◌, ◌≡◌, ◌⊎◌}

-- The structure that the observer names like the program does.
abbrev pub kind_of : Chain.IronVaultEvent → EventKind
kind_of (Chain.protocol_initialized e) = kind_protocol_initialized
kind_of (Chain.protocol_pause_updated e) = kind_protocol_pause_updated
kind_of (Chain.escrow_created e) = kind_escrow_created
kind_of (Chain.escrow_released e) = kind_escrow_released
kind_of (Chain.escrow_refunded e) = kind_escrow_refunded
kind_of (Chain.vault_created e) = kind_vault_created
kind_of (Chain.vault_authority_updated e) = kind_vault_authority_updated
kind_of (Chain.vault_pause_updated e) = kind_vault_pause_updated
kind_of (Chain.vault_asset_registered e) = kind_vault_asset_registered
kind_of (Chain.vault_deposit e) = kind_vault_deposit
kind_of (Chain.vault_withdrawal e) = kind_vault_withdrawal
kind_of (Chain.role_granted e) = kind_role_granted
kind_of (Chain.role_revoked e) = kind_role_revoked
kind_of (Chain.vault_limits_updated e) = kind_vault_limits_updated
kind_of (Chain.withdrawal_requested e) = kind_withdrawal_requested
kind_of (Chain.withdrawal_executed e) = kind_withdrawal_executed
kind_of (Chain.withdrawal_cancelled e) = kind_withdrawal_cancelled

-- The same event, as the observer holds it.
abbrev pub observed : Chain.IronVaultEvent → IronVaultEvent
observed (Chain.protocol_initialized e) = protocol_initialized (record {
  version = e.version;
  protocol_config = e.protocol_config;
  admin = e.admin;
  guardian = e.guardian;
})
observed (Chain.protocol_pause_updated e) = protocol_pause_updated (record {
  version = e.version;
  protocol_config = e.protocol_config;
  caller = e.caller;
  previous_flags = e.previous_flags;
  new_flags = e.new_flags;
})
observed (Chain.escrow_created e) = escrow_created (record {
  version = e.version;
  escrow = e.escrow;
  escrow_token = e.escrow_token;
  maker = e.maker;
  recipient = e.recipient;
  mint = e.mint;
  amount = e.amount;
  created_at = e.created_at;
  expires_at = e.expires_at;
  escrow_id = e.escrow_id;
})
observed (Chain.escrow_released e) = escrow_released (record {
  version = e.version;
  escrow = e.escrow;
  escrow_token = e.escrow_token;
  maker = e.maker;
  recipient = e.recipient;
  recipient_token = e.recipient_token;
  mint = e.mint;
  amount = e.amount;
})
observed (Chain.escrow_refunded e) = escrow_refunded (record {
  version = e.version;
  escrow = e.escrow;
  escrow_token = e.escrow_token;
  caller = e.caller;
  maker = e.maker;
  maker_destination = e.maker_destination;
  mint = e.mint;
  amount = e.amount;
})
observed (Chain.vault_created e) = vault_created (record {
  version = e.version;
  vault = e.vault;
  namespace_authority = e.namespace_authority;
  authority = e.authority;
  guardian = e.guardian;
  vault_id = e.vault_id;
})
observed (Chain.vault_authority_updated e) = vault_authority_updated (record {
  version = e.version;
  vault = e.vault;
  previous_authority = e.previous_authority;
  new_authority = e.new_authority;
})
observed (Chain.vault_pause_updated e) =
    vault_pause_updated
      (record { version = e.version; vault = e.vault; caller = e.caller; paused = e.paused })
observed (Chain.vault_asset_registered e) = vault_asset_registered (record {
  version = e.version;
  vault = e.vault;
  vault_asset = e.vault_asset;
  vault_token = e.vault_token;
  mint = e.mint;
  token_program = e.token_program;
})
observed (Chain.vault_deposit e) = vault_deposit (record {
  version = e.version;
  vault = e.vault;
  vault_asset = e.vault_asset;
  vault_token = e.vault_token;
  depositor = e.depositor;
  source_token = e.source_token;
  mint = e.mint;
  amount = e.amount;
})
observed (Chain.vault_withdrawal e) = vault_withdrawal (record {
  version = e.version;
  vault = e.vault;
  vault_asset = e.vault_asset;
  vault_token = e.vault_token;
  caller = e.caller;
  destination_token = e.destination_token;
  mint = e.mint;
  amount = e.amount;
})
observed (Chain.role_granted e) = role_granted (record {
  version = e.version;
  vault = e.vault;
  principal = e.principal;
  permissions = e.permissions;
})
observed (Chain.role_revoked e) = role_revoked (record {
  version = e.version;
  vault = e.vault;
  principal = e.principal;
  previous_permissions = e.previous_permissions;
})
observed (Chain.vault_limits_updated e) = vault_limits_updated (record {
  version = e.version;
  vault = e.vault;
  vault_asset = e.vault_asset;
  mint = e.mint;
  caller = e.caller;
  max_per_transaction = e.max_per_transaction;
  window_limit = e.window_limit;
  window_seconds = e.window_seconds;
  timelock_threshold = e.timelock_threshold;
  timelock_seconds = e.timelock_seconds;
  request_execution_window_seconds = e.request_execution_window_seconds;
  window_started_at = e.window_started_at;
  window_spent = e.window_spent;
})
observed (Chain.withdrawal_requested e) = withdrawal_requested (record {
  version = e.version;
  vault = e.vault;
  vault_asset = e.vault_asset;
  withdrawal_request = e.withdrawal_request;
  proposer = e.proposer;
  recipient_owner = e.recipient_owner;
  recipient_token_account = e.recipient_token_account;
  mint = e.mint;
  withdrawal_id = e.withdrawal_id;
  amount = e.amount;
  created_at = e.created_at;
  execute_after = e.execute_after;
  expires_at = e.expires_at;
})
observed (Chain.withdrawal_executed e) = withdrawal_executed (record {
  version = e.version;
  vault = e.vault;
  vault_asset = e.vault_asset;
  withdrawal_request = e.withdrawal_request;
  caller = e.caller;
  recipient_token_account = e.recipient_token_account;
  mint = e.mint;
  withdrawal_id = e.withdrawal_id;
  amount = e.amount;
})
observed (Chain.withdrawal_cancelled e) = withdrawal_cancelled (record {
  version = e.version;
  vault = e.vault;
  withdrawal_request = e.withdrawal_request;
  caller = e.caller;
  proposer = e.proposer;
  withdrawal_id = e.withdrawal_id;
})

pub kind_name-kind_of : (e : Chain.IronVaultEvent) → kind_name (kind_of e) ≡ event_name e
kind_name-kind_of (Chain.protocol_initialized e) = refl
kind_name-kind_of (Chain.protocol_pause_updated e) = refl
kind_name-kind_of (Chain.escrow_created e) = refl
kind_name-kind_of (Chain.escrow_released e) = refl
kind_name-kind_of (Chain.escrow_refunded e) = refl
kind_name-kind_of (Chain.vault_created e) = refl
kind_name-kind_of (Chain.vault_authority_updated e) = refl
kind_name-kind_of (Chain.vault_pause_updated e) = refl
kind_name-kind_of (Chain.vault_asset_registered e) = refl
kind_name-kind_of (Chain.vault_deposit e) = refl
kind_name-kind_of (Chain.vault_withdrawal e) = refl
kind_name-kind_of (Chain.role_granted e) = refl
kind_name-kind_of (Chain.role_revoked e) = refl
kind_name-kind_of (Chain.vault_limits_updated e) = refl
kind_name-kind_of (Chain.withdrawal_requested e) = refl
kind_name-kind_of (Chain.withdrawal_executed e) = refl
kind_name-kind_of (Chain.withdrawal_cancelled e) = refl

abbrev pub IsIn : EventKind → List EventKind → Type 0
IsIn kind [] = ⊥
IsIn kind (other ∷ rest) = (kind ≡ other) ⊎ IsIn kind rest

pub IsIn-kinds : (e : Chain.IronVaultEvent) → IsIn (kind_of e) kinds
IsIn-kinds (Chain.protocol_initialized e) = inl refl
IsIn-kinds (Chain.protocol_pause_updated e) = inr (inl refl)
IsIn-kinds (Chain.escrow_created e) = inr (inr (inl refl))
IsIn-kinds (Chain.escrow_released e) = inr (inr (inr (inl refl)))
IsIn-kinds (Chain.escrow_refunded e) = inr (inr (inr (inr (inl refl))))
IsIn-kinds (Chain.vault_created e) = inr (inr (inr (inr (inr (inl refl)))))
IsIn-kinds (Chain.vault_authority_updated e) = inr (inr (inr (inr (inr (inr (inl refl))))))
IsIn-kinds (Chain.vault_pause_updated e) = inr (inr (inr (inr (inr (inr (inr (inl refl)))))))
IsIn-kinds (Chain.vault_asset_registered e) =
    inr (inr (inr (inr (inr (inr (inr (inr (inl refl))))))))
IsIn-kinds (Chain.vault_deposit e) = inr (inr (inr (inr (inr (inr (inr (inr (inr (inl refl)))))))))
IsIn-kinds (Chain.vault_withdrawal e) =
    inr (inr (inr (inr (inr (inr (inr (inr (inr (inr (inl refl))))))))))
IsIn-kinds (Chain.role_granted e) =
    inr (inr (inr (inr (inr (inr (inr (inr (inr (inr (inr (inl refl)))))))))))
IsIn-kinds (Chain.role_revoked e) =
    inr (inr (inr (inr (inr (inr (inr (inr (inr (inr (inr (inr (inl refl))))))))))))
IsIn-kinds (Chain.vault_limits_updated e) =
    inr (inr (inr (inr (inr (inr (inr (inr (inr (inr (inr (inr (inr (inl refl)))))))))))))
IsIn-kinds (Chain.withdrawal_requested e) =
    inr (inr (inr (inr (inr (inr (inr (inr (inr (inr (inr (inr (inr (inr (inl refl))))))))))))))
IsIn-kinds (Chain.withdrawal_executed e) =
    inr
      (inr (inr (inr (inr (inr (inr (inr (inr (inr (inr (inr (inr (inr (inr (inl refl)))))))))))))))
IsIn-kinds (Chain.withdrawal_cancelled e) = inr (
    inr (
      inr (inr (inr (inr (inr (inr (inr (inr (inr (inr (inr (inr (inr (inr (inl refl))))))))))))))))

-- What is documented of the other crates: Borsh's laws; a hash has 32 bytes, and those of the event
-- names differ within the first eight; decoding base64 undoes encoding it.
pub record CodecLaws (codec : Codec) (base64_encode : List ℕ → String) : Type 0 where
  pub borsh_laws : BorshLaws codec.borsh
  pub length_sha256 : (s : String) → length (codec.sha256 s) ≡ 32
  pub discriminators_differ :
      (k j : EventKind)
      → discriminator codec (kind_name k) ≡ discriminator codec (kind_name j)
      → k ≡ j
  pub base64_undoes : (bytes : List ℕ) → codec.base64_decode (base64_encode bytes) ≡ some bytes

-- The log line of `emit!`: the discriminator and the fields, in base64.
abbrev pub emitted : Codec → (List ℕ → String) → Chain.IronVaultEvent → String
emitted codec base64_encode e =
    String.◌++◌ "Program data: "
      (base64_encode (discriminator codec (event_name e) ++ wire codec.borsh e))
