-- ===== src/Protocol/Guardian.antt =====
-- The emergency brake: the guardian can only pull it.
use iron_vault.Constants.{
  pause_escrow_create, pause_escrow_release, pause_vault_config, pause_vault_outflow,
}
use iron_vault.Error.{ok}
use iron_vault.Prelude.{arith, bit_and, true, ℕ, ◌!=◌, ◌%◌, ◌/◌, ◌≡◌, ◌≤◌, ◌⊎◌}
use iron_vault.Prelude.Bits.{bit_and-one, bit_and_eight, bit_and_four, bit_and_two, contains-halves}
use iron_vault.Protocol.{SetProtocolPause, check_set_pause, set_pause}
use iron_vault.Protocol.Outcome.{set_pause-eq_ok}
use iron_vault.Runtime.{Content, Context, Effect, Ledger, Runtime}
use iron_vault.Runtime.Accounts.{HoldsProgram}
use iron_vault.State.{ProtocolConfig, is_paused}

-- The four pause scopes.
pub data Scope : Type 0 where
  escrow_create escrow_release vault_config vault_outflow : Scope

abbrev pub flag_of : Scope → ℕ
flag_of escrow_create = pause_escrow_create
flag_of escrow_release = pause_escrow_release
flag_of vault_config = pause_vault_config
flag_of vault_outflow = pause_vault_outflow

keeps_bits :
    (new old : ℕ)
    → bit_and new old ≡ old
    → (old % 2 ≤ new % 2)
      × (old / 2 % 2 ≤ new / 2 % 2)
      × (old / 2 / 2 % 2 ≤ new / 2 / 2 % 2)
      × (old / 2 / 2 / 2 % 2 ≤ new / 2 / 2 / 2 % 2)
keeps_bits new old h =
    let (h1, p0) = contains-halves new old h in
    let (h2, p1) = contains-halves (new / 2) (old / 2) h1 in
    let (h3, p2) = contains-halves (new / 2 / 2) (old / 2 / 2) h2 in
    let (_, p3) = contains-halves (new / 2 / 2 / 2) (old / 2 / 2 / 2) h3 in (p0, p1, p2, p3)

keeps_scope :
    (scope : Scope) (new old : ℕ)
    → bit_and new old ≡ old
    → (bit_and old (flag_of scope) != 0) ≡ true
    → (bit_and new (flag_of scope) != 0) ≡ true
keeps_scope escrow_create new old h on =
    ground (arith, keeps_bits new old h, bit_and-one new, bit_and-one old)
keeps_scope escrow_release new old h on =
    ground (arith, keeps_bits new old h, bit_and_two new, bit_and_two old)
keeps_scope vault_config new old h on =
    ground (arith, keeps_bits new old h, bit_and_four new, bit_and_four old)
keeps_scope vault_outflow new old h on =
    ground (arith, keeps_bits new old h, bit_and_eight new, bit_and_eight old)

module _ (rt : Runtime) (ctx : Context) (accounts : SetProtocolPause) (flags : ℕ) (l : Ledger) where
  -- A successful call is one of the admin or of the guardian, who signed, and it sets the flags.
  pub set_pause_is_guarded :
      (e : Effect) (before : ProtocolConfig)
      → set_pause rt ctx accounts flags l ≡ ok e
      → HoldsProgram rt l accounts.protocol_config (Content.protocol_config before)
      → (ctx.signers accounts.caller ≡ true)
        × ((accounts.caller ≡ before.admin) ⊎ (accounts.caller ≡ before.guardian))
        × HoldsProgram rt e.ledger accounts.protocol_config
            (Content.protocol_config (record before { pause_flags = flags }))
  unfolding check_set_pause
  set_pause_is_guarded e before h held =
      let (config, signed, at, checked, wrote) = set_pause-eq_ok rt ctx l e accounts flags h in
      let same : config ≡ before = ground arith in (signed, ground arith, ground arith)

  -- A successful call by the guardian leaves every scope paused that was paused before it.
  pub guardian_only_pauses :
      (e : Effect) (before after : ProtocolConfig) (scope : Scope)
      → set_pause rt ctx accounts flags l ≡ ok e
      → HoldsProgram rt l accounts.protocol_config (Content.protocol_config before)
      → HoldsProgram rt e.ledger accounts.protocol_config (Content.protocol_config after)
      → accounts.caller ≡ before.guardian
      → is_paused before (flag_of scope) ≡ true
      → is_paused after (flag_of scope) ≡ true
  unfolding check_set_pause is_paused
  guardian_only_pauses e before after scope h held written by_guardian on =
      let (config, signed, at, checked, wrote) = set_pause-eq_ok rt ctx l e accounts flags h in
      let same : config ≡ before = ground arith in
      let flags_set : after.pause_flags ≡ flags = ground arith in
      rw flags_set (keeps_scope scope flags before.pause_flags (ground arith) on)
