-- ===== src/Observer/Events/RoundTrip.antt =====
-- What the program emits is what the observer reads.
use Prim.Native.String
use iron_vault.Events as Chain
use iron_vault.Borsh.{Borsh, BorshLaws}
use iron_vault.Borsh.Wire.{Fits, event_name, wire}
use iron_vault.Observer.Events.Bytes.{drop-append, eq_bytes_refl, eq_bytes_sound, take-append}
use iron_vault.Observer.Events.Decode.{
  Codec, EventKind, decode, decode_as, decode_program_data, discriminator, eq_bytes, kind_name,
  kinds, try_from_slice,
}
use iron_vault.Observer.Events.Emitted.{
  CodecLaws, IsIn, IsIn-kinds, emitted, kind_name-kind_of, kind_of, observed,
}
use iron_vault.Observer.Fallible.{done, invalid_payload, some_or}
use iron_vault.Observer.Text.{strip_prefix-append}
use iron_vault.Prelude.{
  Bool-cases, List, String, [], ap, arith, drop, inl, inr, length, length-append, length-take, refl,
  some, sym, take, ℕ, ◌++◌, ◌∙◌, ◌∷◌, ◌≡◌, ◌≤◌,
}

module _ (b : Borsh) (laws : BorshLaws b) where
  wire_long : (e : Chain.IronVaultEvent) → 2 ≤ length (wire b e)
  wire_long (Chain.protocol_initialized e) =
      omega (arith, length-append (b.put_u16 e.version) _, laws.length_u16 e.version)
  wire_long (Chain.protocol_pause_updated e) =
      omega (arith, length-append (b.put_u16 e.version) _, laws.length_u16 e.version)
  wire_long (Chain.escrow_created e) =
      omega (arith, length-append (b.put_u16 e.version) _, laws.length_u16 e.version)
  wire_long (Chain.escrow_released e) =
      omega (arith, length-append (b.put_u16 e.version) _, laws.length_u16 e.version)
  wire_long (Chain.escrow_refunded e) =
      omega (arith, length-append (b.put_u16 e.version) _, laws.length_u16 e.version)
  wire_long (Chain.vault_created e) =
      omega (arith, length-append (b.put_u16 e.version) _, laws.length_u16 e.version)
  wire_long (Chain.vault_authority_updated e) =
      omega (arith, length-append (b.put_u16 e.version) _, laws.length_u16 e.version)
  wire_long (Chain.vault_pause_updated e) =
      omega (arith, length-append (b.put_u16 e.version) _, laws.length_u16 e.version)
  wire_long (Chain.vault_asset_registered e) =
      omega (arith, length-append (b.put_u16 e.version) _, laws.length_u16 e.version)
  wire_long (Chain.vault_deposit e) =
      omega (arith, length-append (b.put_u16 e.version) _, laws.length_u16 e.version)
  wire_long (Chain.vault_withdrawal e) =
      omega (arith, length-append (b.put_u16 e.version) _, laws.length_u16 e.version)
  wire_long (Chain.role_granted e) =
      omega (arith, length-append (b.put_u16 e.version) _, laws.length_u16 e.version)
  wire_long (Chain.role_revoked e) =
      omega (arith, length-append (b.put_u16 e.version) _, laws.length_u16 e.version)
  wire_long (Chain.vault_limits_updated e) =
      omega (arith, length-append (b.put_u16 e.version) _, laws.length_u16 e.version)
  wire_long (Chain.withdrawal_requested e) =
      omega (arith, length-append (b.put_u16 e.version) _, laws.length_u16 e.version)
  wire_long (Chain.withdrawal_executed e) =
      omega (arith, length-append (b.put_u16 e.version) _, laws.length_u16 e.version)
  wire_long (Chain.withdrawal_cancelled e) =
      omega (arith, length-append (b.put_u16 e.version) _, laws.length_u16 e.version)

module _ (codec : Codec) (laws : BorshLaws codec.borsh) where
  try_from_slice-wire :
      (e : Chain.IronVaultEvent)
      → Fits e
      → try_from_slice codec (kind_of e) (wire codec.borsh e) ≡ some (observed e)
  unfolding try_from_slice
  try_from_slice-wire (Chain.protocol_initialized e) fits = rw (laws.u16 e.version _ fits.0) (
      rw (laws.key e.protocol_config _ fits.1)
        (rw (laws.key e.admin _ fits.2) (rw (laws.key e.guardian _ fits.3) (refl))))
  try_from_slice-wire (Chain.protocol_pause_updated e) fits = rw (laws.u16 e.version _ fits.0) (
      rw (laws.key e.protocol_config _ fits.1) (
        rw (laws.key e.caller _ fits.2)
          (rw (laws.u32 e.previous_flags _ fits.3) (rw (laws.u32 e.new_flags _ fits.4) (refl)))))
  try_from_slice-wire (Chain.escrow_created e) fits = rw (laws.u16 e.version _ fits.0) (
      rw (laws.key e.escrow _ fits.1) (
        rw (laws.key e.escrow_token _ fits.2) (
          rw (laws.key e.maker _ fits.3) (
            rw (laws.key e.recipient _ fits.4) (
              rw (laws.key e.mint _ fits.5) (
                rw (laws.u64 e.amount _ fits.6) (
                  rw (laws.i64 e.created_at _ fits.7) (
                    rw (laws.i64 e.expires_at _ fits.8)
                      (rw (laws.u64 e.escrow_id _ fits.9) (refl))))))))))
  try_from_slice-wire (Chain.escrow_released e) fits = rw (laws.u16 e.version _ fits.0) (
      rw (laws.key e.escrow _ fits.1) (
        rw (laws.key e.escrow_token _ fits.2) (
          rw (laws.key e.maker _ fits.3) (
            rw (laws.key e.recipient _ fits.4) (
              rw (laws.key e.recipient_token _ fits.5)
                (rw (laws.key e.mint _ fits.6) (rw (laws.u64 e.amount _ fits.7) (refl))))))))
  try_from_slice-wire (Chain.escrow_refunded e) fits = rw (laws.u16 e.version _ fits.0) (
      rw (laws.key e.escrow _ fits.1) (
        rw (laws.key e.escrow_token _ fits.2) (
          rw (laws.key e.caller _ fits.3) (
            rw (laws.key e.maker _ fits.4) (
              rw (laws.key e.maker_destination _ fits.5)
                (rw (laws.key e.mint _ fits.6) (rw (laws.u64 e.amount _ fits.7) (refl))))))))
  try_from_slice-wire (Chain.vault_created e) fits = rw (laws.u16 e.version _ fits.0) (
      rw (laws.key e.vault _ fits.1) (
        rw (laws.key e.namespace_authority _ fits.2) (
          rw (laws.key e.authority _ fits.3)
            (rw (laws.key e.guardian _ fits.4) (rw (laws.u64 e.vault_id _ fits.5) (refl))))))
  try_from_slice-wire (Chain.vault_authority_updated e) fits = rw (laws.u16 e.version _ fits.0) (
      rw (laws.key e.vault _ fits.1) (
        rw (laws.key e.previous_authority _ fits.2)
          (rw (laws.key e.new_authority _ fits.3) (refl))))
  try_from_slice-wire (Chain.vault_pause_updated e) fits = rw (laws.u16 e.version _ fits.0) (
      rw (laws.key e.vault _ fits.1)
        (rw (laws.key e.caller _ fits.2) (rw (laws.bool e.paused _) (refl))))
  try_from_slice-wire (Chain.vault_asset_registered e) fits = rw (laws.u16 e.version _ fits.0) (
      rw (laws.key e.vault _ fits.1) (
        rw (laws.key e.vault_asset _ fits.2) (
          rw (laws.key e.vault_token _ fits.3)
            (rw (laws.key e.mint _ fits.4) (rw (laws.key e.token_program _ fits.5) (refl))))))
  try_from_slice-wire (Chain.vault_deposit e) fits = rw (laws.u16 e.version _ fits.0) (
      rw (laws.key e.vault _ fits.1) (
        rw (laws.key e.vault_asset _ fits.2) (
          rw (laws.key e.vault_token _ fits.3) (
            rw (laws.key e.depositor _ fits.4) (
              rw (laws.key e.source_token _ fits.5)
                (rw (laws.key e.mint _ fits.6) (rw (laws.u64 e.amount _ fits.7) (refl))))))))
  try_from_slice-wire (Chain.vault_withdrawal e) fits = rw (laws.u16 e.version _ fits.0) (
      rw (laws.key e.vault _ fits.1) (
        rw (laws.key e.vault_asset _ fits.2) (
          rw (laws.key e.vault_token _ fits.3) (
            rw (laws.key e.caller _ fits.4) (
              rw (laws.key e.destination_token _ fits.5)
                (rw (laws.key e.mint _ fits.6) (rw (laws.u64 e.amount _ fits.7) (refl))))))))
  try_from_slice-wire (Chain.role_granted e) fits = rw (laws.u16 e.version _ fits.0) (
      rw (laws.key e.vault _ fits.1)
        (rw (laws.key e.principal _ fits.2) (rw (laws.u64 e.permissions _ fits.3) (refl))))
  try_from_slice-wire (Chain.role_revoked e) fits = rw (laws.u16 e.version _ fits.0) (
      rw (laws.key e.vault _ fits.1)
        (rw (laws.key e.principal _ fits.2) (rw (laws.u64 e.previous_permissions _ fits.3) (refl))))
  try_from_slice-wire (Chain.vault_limits_updated e) fits = rw (laws.u16 e.version _ fits.0) (
      rw (laws.key e.vault _ fits.1) (
        rw (laws.key e.vault_asset _ fits.2) (
          rw (laws.key e.mint _ fits.3) (
            rw (laws.key e.caller _ fits.4) (
              rw (laws.u64 e.max_per_transaction _ fits.5) (
                rw (laws.u64 e.window_limit _ fits.6) (
                  rw (laws.i64 e.window_seconds _ fits.7) (
                    rw (laws.u64 e.timelock_threshold _ fits.8) (
                      rw (laws.i64 e.timelock_seconds _ fits.9) (
                        rw (laws.i64 e.request_execution_window_seconds _ fits.10) (
                          rw (laws.i64 e.window_started_at _ fits.11)
                            (rw (laws.u64 e.window_spent _ fits.12) (refl)))))))))))))
  try_from_slice-wire (Chain.withdrawal_requested e) fits = rw (laws.u16 e.version _ fits.0) (
      rw (laws.key e.vault _ fits.1) (
        rw (laws.key e.vault_asset _ fits.2) (
          rw (laws.key e.withdrawal_request _ fits.3) (
            rw (laws.key e.proposer _ fits.4) (
              rw (laws.key e.recipient_owner _ fits.5) (
                rw (laws.key e.recipient_token_account _ fits.6) (
                  rw (laws.key e.mint _ fits.7) (
                    rw (laws.u64 e.withdrawal_id _ fits.8) (
                      rw (laws.u64 e.amount _ fits.9) (
                        rw (laws.i64 e.created_at _ fits.10) (
                          rw (laws.i64 e.execute_after _ fits.11)
                            (rw (laws.i64 e.expires_at _ fits.12) (refl)))))))))))))
  try_from_slice-wire (Chain.withdrawal_executed e) fits = rw (laws.u16 e.version _ fits.0) (
      rw (laws.key e.vault _ fits.1) (
        rw (laws.key e.vault_asset _ fits.2) (
          rw (laws.key e.withdrawal_request _ fits.3) (
            rw (laws.key e.caller _ fits.4) (
              rw (laws.key e.recipient_token_account _ fits.5) (
                rw (laws.key e.mint _ fits.6) (
                  rw (laws.u64 e.withdrawal_id _ fits.7)
                    (rw (laws.u64 e.amount _ fits.8) (refl)))))))))
  try_from_slice-wire (Chain.withdrawal_cancelled e) fits = rw (laws.u16 e.version _ fits.0) (
      rw (laws.key e.vault _ fits.1) (
        rw (laws.key e.withdrawal_request _ fits.2) (
          rw (laws.key e.caller _ fits.3)
            (rw (laws.key e.proposer _ fits.4) (rw (laws.u64 e.withdrawal_id _ fits.5) (refl))))))

module _ (codec : Codec) (base64_encode : List ℕ → String)
    (laws : CodecLaws codec base64_encode) where
  -- The first test that holds is the one of the event's own name.
  decode_as-kind :
      (kind : EventKind) (rest : List EventKind) (bytes : List ℕ)
      → IsIn kind rest
      → take 8 bytes ≡ discriminator codec (kind_name kind)
      → decode_as codec rest bytes
        ≡ some_or (try_from_slice codec kind (drop 8 bytes)) invalid_payload
  unfolding decode_as
  decode_as-kind kind [] bytes never front = absurd never
  decode_as-kind kind (other ∷ rest) bytes member front =
      elim (Bool-cases (eq_bytes (take 8 bytes) (discriminator codec (kind_name other)))) [
        | inl same ↦
            let here : discriminator codec (kind_name kind)
                ≡ discriminator codec (kind_name other) =
              sym front ∙ eq_bytes_sound _ _ same in
            let one : kind ≡ other = laws.discriminators_differ kind other here in
            rw same (rw one refl)
        | inr differs ↦ elim member [
          | inl one ↦ absurd (
              ground (
                arith,
                front,
                ap (λ k. discriminator codec (kind_name k)) one,
                eq_bytes_refl (discriminator codec (kind_name other)),
              ))
          | inr later ↦ rw differs (decode_as-kind kind rest bytes later front)
        ]
      ]

  length-discriminator : (n : String) → length (discriminator codec n) ≡ 8
  unfolding discriminator
  length-discriminator n =
      length-take 8 (codec.sha256 (String.◌++◌ "event:" n))
        (omega (arith, laws.length_sha256 (String.◌++◌ "event:" n)))

  decode-wire :
      (e : Chain.IronVaultEvent)
      → Fits e
      → decode codec (discriminator codec (event_name e) ++ wire codec.borsh e) ≡ done (observed e)
  unfolding decode
  decode-wire e fits =
      let named : discriminator codec (kind_name (kind_of e)) ≡ discriminator codec (event_name e) =
        ap (discriminator codec) (kind_name-kind_of e) in
      let eight = length-discriminator (event_name e) in
      let front = take-append (discriminator codec (event_name e)) (wire codec.borsh e) 8 eight in
      let back = drop-append (discriminator codec (event_name e)) (wire codec.borsh e) 8 eight in
      let long = length-append (discriminator codec (event_name e)) (wire codec.borsh e) in
      let enough = wire_long codec.borsh laws.borsh_laws e in
      ground (
        arith,
        eight,
        back,
        long,
        enough,
        decode_as-kind (kind_of e) kinds _ (IsIn-kinds e) (front ∙ sym named),
        try_from_slice-wire codec laws.borsh_laws e fits,
      )

  -- From the line that the program logs for an event within its types the observer reads the same
  -- event.
  pub decode-emitted :
      (e : Chain.IronVaultEvent)
      → Fits e
      → decode_program_data codec (emitted codec base64_encode e) ≡ done (some (observed e))
  unfolding decode_program_data
  decode-emitted e fits =
      rw
        (strip_prefix-append "Program data: "
          (base64_encode (discriminator codec (event_name e) ++ wire codec.borsh e)))
        (rw (laws.base64_undoes (discriminator codec (event_name e) ++ wire codec.borsh e))
          (rw (decode-wire e fits) refl))
