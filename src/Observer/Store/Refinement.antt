-- ===== src/Observer/Store/Refinement.antt =====
-- Which events are stored, and what they make of the read model.
use iron_vault.Observer.Events.{
  IronVaultEvent, escrow_created, escrow_refunded, escrow_released, protocol_initialized,
  protocol_pause_updated, role_granted, role_revoked, vault_asset_registered,
  vault_authority_updated, vault_created, vault_deposit, vault_limits_updated, vault_pause_updated,
  vault_withdrawal, version, withdrawal_cancelled, withdrawal_executed, withdrawal_requested,
}
use iron_vault.Observer.Fallible.{Failure, check_violated, done, ensure, ◌>>◌}
use iron_vault.Observer.Store.{
  ObservedEvent, Position, Tables, apply_projection, check_columns, has_event, persist, store_event,
  update_checkpoint,
}
use iron_vault.Observer.Store.History.{
  IsNew, IsOrdered, IsUpTo, follow, persist_all, persist_all-follows, status_of,
}
use iron_vault.Prelude.{
  Bool, List, Option, String, [], arith, false, ltb, not, refl, true, ℕ, ◌<◌, ◌^◌, ◌∷◌, ◌≡◌,
}
use iron_vault.State.{Pubkey}

-- The amounts that the tables accept.
abbrev pub IsPositive : IronVaultEvent → Type 0
IsPositive (escrow_created e) = 0 < e.amount
IsPositive (withdrawal_requested e) = 0 < e.amount
IsPositive _ = Unit

-- The columns hold the values, and the checks of the tables let them in.
abbrev pub IsStorable : ObservedEvent → Type 0
IsStorable o =
    (o.slot < 2 ^ 63)
    × (o.id.instruction_index < 2 ^ 31)
    × (o.id.event_index < 2 ^ 31)
    × (version o.event < 2 ^ 15)
    × (0 < version o.event)
    × IsPositive o.event

abbrev pub AllStorable : List ObservedEvent → Type 0
AllStorable [] = Unit
AllStorable (o ∷ rest) = IsStorable o × AllStorable rest

passes : (m n : ℕ) → m < n → ltb m n ≡ true
passes m n h = ground arith

check_columns-succeeds : (o : ObservedEvent) → IsStorable o → check_columns o ≡ done tt
unfolding check_columns
check_columns-succeeds o (slot, instruction, event, low, positive, _) = rw (passes _ _ slot) (
    rw (passes _ _ instruction)
      (rw (passes _ _ event) (rw (passes _ _ low) (rw (passes _ _ positive) refl))))

ensure-succeeds :
    {U : Type 0} (test : Bool) (why : Failure) (value : U)
    → test ≡ true
    → (ensure test why >> done value) ≡ done value
ensure-succeeds test why value h = rw h refl

module _ (base58 : Pubkey → String) where
  apply_projection-succeeds :
      (o : ObservedEvent) (t : Tables) (event : IronVaultEvent)
      → IsPositive event
      → (m : Tables) × (apply_projection base58 o t event ≡ done m)
  unfolding apply_projection
  apply_projection-succeeds o t (escrow_created e) h =
      (_, ensure-succeeds (ltb 0 e.amount) check_violated _ (passes 0 e.amount h))
  apply_projection-succeeds o t (withdrawal_requested e) h =
      (_, ensure-succeeds (ltb 0 e.amount) check_violated _ (passes 0 e.amount h))
  apply_projection-succeeds o t (protocol_initialized e) h = (_, refl)
  apply_projection-succeeds o t (protocol_pause_updated e) h = (_, refl)
  apply_projection-succeeds o t (escrow_released e) h = (_, refl)
  apply_projection-succeeds o t (escrow_refunded e) h = (_, refl)
  apply_projection-succeeds o t (vault_created e) h = (_, refl)
  apply_projection-succeeds o t (vault_authority_updated e) h = (_, refl)
  apply_projection-succeeds o t (vault_pause_updated e) h = (_, refl)
  apply_projection-succeeds o t (vault_asset_registered e) h = (_, refl)
  apply_projection-succeeds o t (vault_deposit e) h = (_, refl)
  apply_projection-succeeds o t (vault_withdrawal e) h = (_, refl)
  apply_projection-succeeds o t (role_granted e) h = (_, refl)
  apply_projection-succeeds o t (role_revoked e) h = (_, refl)
  apply_projection-succeeds o t (vault_limits_updated e) h = (_, refl)
  apply_projection-succeeds o t (withdrawal_executed e) h = (_, refl)
  apply_projection-succeeds o t (withdrawal_cancelled e) h = (_, refl)

  store_event-succeeds :
      (new : Bool) (o : ObservedEvent) (t : Tables)
      → IsPositive o.event
      → (m : Tables) × (store_event base58 new o t ≡ done m)
  unfolding store_event
  store_event-succeeds true o t h = apply_projection-succeeds o _ o.event h
  store_event-succeeds false o t h = (t, refl)

  pub persist-succeeds :
      (o : ObservedEvent) (t : Tables)
      → IsStorable o
      → (t' : Tables) × (inserted : Bool) × (persist base58 o t ≡ done (t', inserted))
  unfolding persist
  persist-succeeds o t h =
      let (m, stored) = store_event-succeeds (not (has_event o.id t.protocol_events)) o t h.5 in
      (
        record m { sync_checkpoint = update_checkpoint o m.sync_checkpoint },
        not (has_event o.id t.protocol_events),
        rw (check_columns-succeeds o h) (rw stored refl),
      )

  pub persist_all-succeeds :
      (os : List ObservedEvent) (t : Tables)
      → AllStorable os
      → (t' : Tables) × (persist_all base58 os t ≡ done t')
  unfolding persist_all
  persist_all-succeeds [] t h = (t, refl)
  persist_all-succeeds (o ∷ rest) t (first, later) =
      let (m, inserted, stored) = persist-succeeds o t first in
      let (t', all) = persist_all-succeeds rest m later in (t', rw stored all)

  -- New events that the tables accept are all stored, and where they come in the order of their
  -- positions, after all that the row has seen, the escrow with key `k` then has the status that
  -- follows from those of them that speak of it.
  pub persist_all-refines :
      (k : String) (p : Option Position) (os : List ObservedEvent) (t : Tables)
      → AllStorable os
      → IsOrdered p os
      → IsNew t.protocol_events os
      → IsUpTo p (t.escrows k)
      → (t' : Tables) × (persist_all base58 os t ≡ done t')
        × (status_of (t'.escrows k) ≡ follow base58 k os (status_of (t.escrows k)))
  persist_all-refines k p os t storable ordered new upto =
      let (t', stored) = persist_all-succeeds os t storable in
      (t', stored, persist_all-follows base58 k p os t t' stored ordered new upto)
