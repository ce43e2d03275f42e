-- ===== src/Observer/Store/Replay.antt =====
-- An event that has been persisted stays persisted, and persisting it again changes nothing.
use text.Mathlib.TextPositions.{eq_refl}
use iron_vault.Observer.Events.{
  IronVaultEvent, escrow_created, escrow_refunded, escrow_released, protocol_initialized,
  protocol_pause_updated, role_granted, role_revoked, vault_asset_registered,
  vault_authority_updated, vault_created, vault_deposit, vault_limits_updated, vault_pause_updated,
  vault_withdrawal, withdrawal_cancelled, withdrawal_executed, withdrawal_requested,
}
use iron_vault.Observer.Fallible.{>>=-eq_done, done}
use iron_vault.Observer.Store.{
  Checkpoint, EventId, ObservedEvent, Tables, apply_projection, before, check_columns, eq_id,
  has_event, persist, position_of, store_event, update_checkpoint,
}
use iron_vault.Prelude.{
  Bool, Bool-cases, Option, String, arith, false, inl, inr, none, not, some, true, ◌∷◌, ◌≡◌, ◌⊎◌,
}
use iron_vault.State.{Pubkey}

-- The checkpoint is not before the event.
abbrev pub IsReached : ObservedEvent → Option Checkpoint → Type 0
IsReached o none = ⊥
IsReached o (some c) = before c.position (position_of o) ≡ false

-- The tables hold the event, and the checkpoint has reached it.
pub record Stored (o : ObservedEvent) (t : Tables) : Type 0 where
  pub columns : check_columns o ≡ done tt
  pub held : has_event o.id t.protocol_events ≡ true
  pub reached : IsReached o t.sync_checkpoint

eq_id_refl : (i : EventId) → eq_id i i ≡ true
eq_id_refl i = ground (arith, eq_refl i.transaction_signature)

update_checkpoint-IsReached :
    (o : ObservedEvent) (c : Option Checkpoint) → IsReached o (update_checkpoint o c)
unfolding update_checkpoint
update_checkpoint-IsReached o none = ground arith
update_checkpoint-IsReached o (some c) = ground arith

update_checkpoint-keeps :
    (o p : ObservedEvent) (c : Option Checkpoint)
    → IsReached o c
    → IsReached o (update_checkpoint p c)
unfolding update_checkpoint
update_checkpoint-keeps o p none h = absurd h
update_checkpoint-keeps o p (some c) h = ground arith

update_checkpoint-IsReached_same :
    (o : ObservedEvent) (c : Option Checkpoint) → IsReached o c → update_checkpoint o c ≡ c
unfolding update_checkpoint
update_checkpoint-IsReached_same o none h = absurd h
update_checkpoint-IsReached_same o (some c) h = ground arith

module _ (base58 : Pubkey → String) where
  -- A projection writes to the read models only.
  pub apply_projection-keeps :
      (o : ObservedEvent) (t t' : Tables) (event : IronVaultEvent)
      → apply_projection base58 o t event ≡ done t'
      → (t'.protocol_events ≡ t.protocol_events) × (t'.sync_checkpoint ≡ t.sync_checkpoint)
  unfolding apply_projection
  apply_projection-keeps o t t' (protocol_initialized e) h = (ground arith, ground arith)
  apply_projection-keeps o t t' (protocol_pause_updated e) h = (ground arith, ground arith)
  apply_projection-keeps o t t' (escrow_created e) h = (ground arith, ground arith)
  apply_projection-keeps o t t' (escrow_released e) h = (ground arith, ground arith)
  apply_projection-keeps o t t' (escrow_refunded e) h = (ground arith, ground arith)
  apply_projection-keeps o t t' (vault_created e) h = (ground arith, ground arith)
  apply_projection-keeps o t t' (vault_authority_updated e) h = (ground arith, ground arith)
  apply_projection-keeps o t t' (vault_pause_updated e) h = (ground arith, ground arith)
  apply_projection-keeps o t t' (vault_asset_registered e) h = (ground arith, ground arith)
  apply_projection-keeps o t t' (vault_deposit e) h = (ground arith, ground arith)
  apply_projection-keeps o t t' (vault_withdrawal e) h = (ground arith, ground arith)
  apply_projection-keeps o t t' (role_granted e) h = (ground arith, ground arith)
  apply_projection-keeps o t t' (role_revoked e) h = (ground arith, ground arith)
  apply_projection-keeps o t t' (vault_limits_updated e) h = (ground arith, ground arith)
  apply_projection-keeps o t t' (withdrawal_requested e) h = (ground arith, ground arith)
  apply_projection-keeps o t t' (withdrawal_executed e) h = (ground arith, ground arith)
  apply_projection-keeps o t t' (withdrawal_cancelled e) h = (ground arith, ground arith)

  -- A persisted event was there, and then only the checkpoint may move, or it is added.
  pub persist-eq_done :
      (o : ObservedEvent) (t t' : Tables) (inserted : Bool)
      → persist base58 o t ≡ done (t', inserted)
      → (check_columns o ≡ done tt)
        × (((has_event o.id t.protocol_events ≡ true)
              × (inserted ≡ false)
              × (t' ≡ record t { sync_checkpoint = update_checkpoint o t.sync_checkpoint }))
            ⊎ ((has_event o.id t.protocol_events ≡ false)
                × (inserted ≡ true)
                × ((m : Tables) × (apply_projection base58 o
                        (record t { protocol_events = o ∷ t.protocol_events })
                        o.event
                      ≡ done m)
                    × (t' ≡ record m { sync_checkpoint = update_checkpoint o m.sync_checkpoint }))))
  unfolding persist store_event
  persist-eq_done o t t' inserted h =
      let (_, columns, h1) = >>=-eq_done (check_columns o) _ h in
      let (m, applied, h2) =
        >>=-eq_done (store_event base58 (not (has_event o.id t.protocol_events)) o t) _ h1 in
      (
        columns,
        elim (Bool-cases (has_event o.id t.protocol_events)) [
          | inl there ↦ inl (there, ground arith, ground arith)
          | inr new ↦ inr (new, ground arith, (m, ground arith, ground arith))
        ],
      )

  pub persist-Stored :
      (o : ObservedEvent) (t t' : Tables) (inserted : Bool)
      → persist base58 o t ≡ done (t', inserted)
      → Stored o t'
  unfolding has_event
  persist-Stored o t t' inserted h =
      let (columns, cases) = persist-eq_done o t t' inserted h in
      elim cases [
        | inl (there, _, e) ↦ record {
          columns = columns;
          held = ground arith;
          reached = rw e (update_checkpoint-IsReached o t.sync_checkpoint);
        }
        | inr (new, _, (m, applied, e)) ↦
            let (events, _) = apply_projection-keeps o _ m o.event applied in
            record {
              columns = columns;
              held = ground (arith, eq_id_refl o.id);
              reached = rw e (update_checkpoint-IsReached o m.sync_checkpoint);
            }
      ]

  pub persist-keeps_Stored :
      (o p : ObservedEvent) (t t' : Tables) (inserted : Bool)
      → persist base58 p t ≡ done (t', inserted)
      → Stored o t
      → Stored o t'
  unfolding has_event
  persist-keeps_Stored o p t t' inserted h s =
      let (_, cases) = persist-eq_done p t t' inserted h in
      elim cases [
        | inl (there, _, e) ↦ record {
          columns = s.columns;
          held = ground (arith, s.held);
          reached = rw e (update_checkpoint-keeps o p t.sync_checkpoint s.reached);
        }
        | inr (new, _, (m, applied, e)) ↦
            let (events, same) = apply_projection-keeps p _ m p.event applied in
            record {
              columns = s.columns;
              held = ground (arith, s.held, eq_id o.id p.id);
              reached = rw e (update_checkpoint-keeps o p m.sync_checkpoint (rw same s.reached));
            }
      ]

  pub Stored-persist :
      (o : ObservedEvent) (t : Tables) → Stored o t → persist base58 o t ≡ done (t, false)
  unfolding persist store_event
  Stored-persist o t s =
      let still = update_checkpoint-IsReached_same o t.sync_checkpoint s.reached in
      rw s.columns (rw s.held (ground (arith, still)))

  -- Persisting an event again succeeds, reports that it is not new, and changes no table.
  pub persist_again :
      (o : ObservedEvent) (t t' : Tables) (inserted : Bool)
      → persist base58 o t ≡ done (t', inserted)
      → persist base58 o t' ≡ done (t', false)
  persist_again o t t' inserted h = Stored-persist o t' (persist-Stored o t t' inserted h)
