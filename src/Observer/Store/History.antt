-- ===== src/Observer/Store/History.antt =====
-- The read model against the history: persisted in their order, the events of an escrow give its
-- status.
use iron_vault.Observer.Events.{
  EscrowCreated, EscrowRefunded, EscrowReleased, IronVaultEvent, escrow_created, escrow_refunded,
  escrow_released, protocol_initialized, protocol_pause_updated, role_granted, role_revoked,
  vault_asset_registered, vault_authority_updated, vault_created, vault_deposit,
  vault_limits_updated, vault_pause_updated, vault_withdrawal, withdrawal_cancelled,
  withdrawal_executed, withdrawal_requested,
}
use iron_vault.Observer.Fallible.{
  >>=-eq_done, Fallible, check_violated, done, done-injective, ensure, ◌>>=◌,
}
use iron_vault.Observer.Store.{
  EscrowRow, ObservedEvent, Position, Tables, apply_projection, before, eq_text, has_event,
  insert_row, persist, position_of, update_row,
}
use iron_vault.Observer.Store.Replay.{apply_projection-keeps, persist-eq_done}
use iron_vault.Prelude.{
  Bool, Bool-cases, List, Option, String, [], ap, arith, false, if◌then◌else◌, inl, inr, ltb, none,
  refl, some, sym, true, ◌∙◌, ◌∷◌, ◌≡◌,
}
use iron_vault.State.{Pubkey}

-- Persisting a run of events, the oldest first.
unfoldable pub persist_all : (Pubkey → String) → List ObservedEvent → Tables → Fallible Tables
persist_all base58 [] t = done t
persist_all base58 (o ∷ rest) t = do (t', _) ← persist base58 o t; persist_all base58 rest t'

-- What one event makes of the status of the escrow with the key `k`, if there is such an escrow yet.
abbrev pub next_status : (Pubkey → String) → String → IronVaultEvent → Option String → Option String
next_status base58 k (escrow_created e) none =
    if eq_text (base58 e.escrow) k then some "funded" else none
next_status base58 k (escrow_released e) (some s) =
    if eq_text (base58 e.escrow) k then some "released" else some s
next_status base58 k (escrow_refunded e) (some s) =
    if eq_text (base58 e.escrow) k then some "refunded" else some s
next_status base58 k _ s = s

-- The status after a run of events.
abbrev pub follow : (Pubkey → String) → String → List ObservedEvent → Option String → Option String
follow base58 k [] s = s
follow base58 k (o ∷ rest) s = follow base58 k rest (next_status base58 k o.event s)

abbrev pub status_of : Option EscrowRow → Option String
status_of none = none
status_of (some row) = some row.status

abbrev pub IsAfter : Option Position → Position → Type 0
IsAfter none q = Unit
IsAfter (some p) q = before p q ≡ true

-- Each event comes after the one before it.
abbrev pub IsOrdered : Option Position → List ObservedEvent → Type 0
IsOrdered p [] = Unit
IsOrdered p (o ∷ rest) = IsAfter p (position_of o) × IsOrdered (some (position_of o)) rest

-- The identities are new, and differ.
abbrev pub IsNew : List ObservedEvent → List ObservedEvent → Type 0
IsNew seen [] = Unit
IsNew seen (o ∷ rest) = (has_event o.id seen ≡ false) × IsNew (o ∷ seen) rest

-- The row has been written at `p` at the latest.
abbrev pub IsUpTo : Option Position → Option EscrowRow → Type 0
IsUpTo p none = Unit
IsUpTo none (some row) = ⊥
IsUpTo (some p) (some row) = before p row.last ≡ false

IsUpTo-after :
    (p : Option Position) (q : Position) (row : EscrowRow)
    → IsUpTo p (some row)
    → IsAfter p q
    → before row.last q ≡ true
IsUpTo-after none q row never after = absurd never
IsUpTo-after (some p) q row upto after = ground arith

abbrev IsBehind : Position → Option EscrowRow → Type 0
IsBehind q none = Unit
IsBehind q (some row) = before row.last q ≡ true

IsUpTo-IsBehind :
    (p : Option Position) (q : Position) (row : Option EscrowRow)
    → IsUpTo p row
    → IsAfter p q
    → IsBehind q row
IsUpTo-IsBehind p q none upto after = tt
IsUpTo-IsBehind p q (some row) upto after = IsUpTo-after p q row upto after

IsBehind-IsUpTo : (q : Position) (row : Option EscrowRow) → IsBehind q row → IsUpTo (some q) row
IsBehind-IsUpTo q none h = tt
IsBehind-IsUpTo q (some row) h = ground arith

-- The row with the key `k` has become the right one, and has been written at `q` at the latest.
abbrev IsNext :
    (Pubkey → String)
    → String
    → Position
    → IronVaultEvent
    → Option EscrowRow
    → Option EscrowRow
    → Type 0
IsNext base58 k q event old new =
    (status_of new ≡ next_status base58 k event (status_of old)) × IsUpTo (some q) new

module _ (base58 : Pubkey → String) (k : String) where
  created_row :
      (e : EscrowCreated) (row : EscrowRow) (old : Option EscrowRow)
      → row.status ≡ "funded"
      → IsBehind row.last old
      → IsNext base58 k row.last
          (escrow_created e)
          old
          (insert_row (eq_text (base58 e.escrow) k) row old)
  created_row e row none is_new h = elim (Bool-cases (eq_text (base58 e.escrow) k)) [
    | inl hit ↦ (rw hit (ap some is_new), rw hit (ground arith))
    | inr missed ↦ (rw missed refl, rw missed tt)
  ]
  created_row e row (some r) is_new h = (refl, ground arith)

  -- The update of `update_escrow_status`.
  released_row :
      (e : EscrowReleased) (signature : String) (q : Position) (old : Option EscrowRow)
      → IsBehind q old
      → IsNext base58 k q (escrow_released e) old (
          update_row
            (eq_text (base58 e.escrow) k)
            (λ (r : EscrowRow). r.last)
            q
            (λ (r : EscrowRow). record r {
              status = "released";
              last = q;
              last_signature = signature;
            })
            old)
  released_row e signature q none h = (refl, tt)
  released_row e signature q (some r) h = elim (Bool-cases (eq_text (base58 e.escrow) k)) [
    | inl hit ↦ (rw hit (rw h refl), rw hit (rw h (ground arith)))
    | inr missed ↦ (rw missed refl, rw missed (ground arith))
  ]

  refunded_row :
      (e : EscrowRefunded) (signature : String) (q : Position) (old : Option EscrowRow)
      → IsBehind q old
      → IsNext base58 k q (escrow_refunded e) old (
          update_row
            (eq_text (base58 e.escrow) k)
            (λ (r : EscrowRow). r.last)
            q
            (λ (r : EscrowRow). record r {
              status = "refunded";
              last = q;
              last_signature = signature;
            })
            old)
  refunded_row e signature q none h = (refl, tt)
  refunded_row e signature q (some r) h = elim (Bool-cases (eq_text (base58 e.escrow) k)) [
    | inl hit ↦ (rw hit (rw h refl), rw hit (rw h (ground arith)))
    | inr missed ↦ (rw missed refl, rw missed (ground arith))
  ]

  -- Any other event leaves the row.
  kept_row :
      (q : Position) (event : IronVaultEvent) (old new : Option EscrowRow)
      → IsBehind q old
      → next_status base58 k event (status_of old) ≡ status_of old
      → new ≡ old
      → IsNext base58 k q event old new
  kept_row q event old new h other same =
      (ap status_of same ∙ sym other, rw same (IsBehind-IsUpTo q old h))

  projected_row :
      (o : ObservedEvent) (t m : Tables) (event : IronVaultEvent)
      → apply_projection base58 o t event ≡ done m
      → IsBehind (position_of o) (t.escrows k)
      → IsNext base58 k (position_of o) event (t.escrows k) (m.escrows k)
  unfolding apply_projection
  projected_row o t m (escrow_created e) h behind =
      let (_, _, h1) = >>=-eq_done (ensure (ltb 0 e.amount) check_violated) _ h in
      rw (← done-injective h1) (created_row e _ (t.escrows k) refl behind)
  projected_row o t m (escrow_released e) h behind =
      rw (← done-injective h)
        (released_row e o.id.transaction_signature (position_of o) (t.escrows k) behind)
  projected_row o t m (escrow_refunded e) h behind =
      rw (← done-injective h)
        (refunded_row e o.id.transaction_signature (position_of o) (t.escrows k) behind)
  projected_row o t m (protocol_initialized e) h behind =
      kept_row (position_of o) (protocol_initialized e) (t.escrows k) (m.escrows k) behind refl
        (ap (λ (x : Tables). x.escrows k) (sym (done-injective h)))
  projected_row o t m (protocol_pause_updated e) h behind =
      kept_row (position_of o) (protocol_pause_updated e) (t.escrows k) (m.escrows k) behind refl
        (ap (λ (x : Tables). x.escrows k) (sym (done-injective h)))
  projected_row o t m (vault_created e) h behind =
      kept_row (position_of o) (vault_created e) (t.escrows k) (m.escrows k) behind refl
        (ap (λ (x : Tables). x.escrows k) (sym (done-injective h)))
  projected_row o t m (vault_authority_updated e) h behind =
      kept_row (position_of o) (vault_authority_updated e) (t.escrows k) (m.escrows k) behind refl
        (ap (λ (x : Tables). x.escrows k) (sym (done-injective h)))
  projected_row o t m (vault_pause_updated e) h behind =
      kept_row (position_of o) (vault_pause_updated e) (t.escrows k) (m.escrows k) behind refl
        (ap (λ (x : Tables). x.escrows k) (sym (done-injective h)))
  projected_row o t m (vault_asset_registered e) h behind =
      kept_row (position_of o) (vault_asset_registered e) (t.escrows k) (m.escrows k) behind refl
        (ap (λ (x : Tables). x.escrows k) (sym (done-injective h)))
  projected_row o t m (vault_deposit e) h behind =
      kept_row (position_of o) (vault_deposit e) (t.escrows k) (m.escrows k) behind refl
        (ap (λ (x : Tables). x.escrows k) (sym (done-injective h)))
  projected_row o t m (vault_withdrawal e) h behind =
      kept_row (position_of o) (vault_withdrawal e) (t.escrows k) (m.escrows k) behind refl
        (ap (λ (x : Tables). x.escrows k) (sym (done-injective h)))
  projected_row o t m (role_granted e) h behind =
      kept_row (position_of o) (role_granted e) (t.escrows k) (m.escrows k) behind refl
        (ap (λ (x : Tables). x.escrows k) (sym (done-injective h)))
  projected_row o t m (role_revoked e) h behind =
      kept_row (position_of o) (role_revoked e) (t.escrows k) (m.escrows k) behind refl
        (ap (λ (x : Tables). x.escrows k) (sym (done-injective h)))
  projected_row o t m (vault_limits_updated e) h behind =
      kept_row (position_of o) (vault_limits_updated e) (t.escrows k) (m.escrows k) behind refl
        (ap (λ (x : Tables). x.escrows k) (sym (done-injective h)))
  projected_row o t m (withdrawal_requested e) h behind =
      let (_, _, h1) = >>=-eq_done (ensure (ltb 0 e.amount) check_violated) _ h in
      kept_row (position_of o) (withdrawal_requested e) (t.escrows k) (m.escrows k) behind refl
        (ap (λ (x : Tables). x.escrows k) (sym (done-injective h1)))
  projected_row o t m (withdrawal_executed e) h behind =
      kept_row (position_of o) (withdrawal_executed e) (t.escrows k) (m.escrows k) behind refl
        (ap (λ (x : Tables). x.escrows k) (sym (done-injective h)))
  projected_row o t m (withdrawal_cancelled e) h behind =
      kept_row (position_of o) (withdrawal_cancelled e) (t.escrows k) (m.escrows k) behind refl
        (ap (λ (x : Tables). x.escrows k) (sym (done-injective h)))

  -- The same for the row after an event that was new.
  persisted_row :
      (o : ObservedEvent) (t t' : Tables) (inserted : Bool)
      → persist base58 o t ≡ done (t', inserted)
      → has_event o.id t.protocol_events ≡ false
      → IsBehind (position_of o) (t.escrows k)
      → IsNext base58 k (position_of o) o.event (t.escrows k) (t'.escrows k)
        × (t'.protocol_events ≡ o ∷ t.protocol_events)
  persisted_row o t t' inserted h new behind =
      let (_, cases) = persist-eq_done base58 o t t' inserted h in
      elim cases [
        | inl (there, _, _) ↦ absurd (ground arith)
        | inr (_, _, (m, applied, e)) ↦
            let (events, _) = apply_projection-keeps base58 o _ m o.event applied in
            (rw e (projected_row o _ m o.event applied behind), rw e events)
      ]

  -- Persisted in their order, new events give the escrow with key `k` the status that follows from
  -- them.
  pub persist_all-follows :
      (p : Option Position) (os : List ObservedEvent) (t t' : Tables)
      → persist_all base58 os t ≡ done t'
      → IsOrdered p os
      → IsNew t.protocol_events os
      → IsUpTo p (t.escrows k)
      → status_of (t'.escrows k) ≡ follow base58 k os (status_of (t.escrows k))
  unfolding persist_all
  persist_all-follows p [] t t' h ordered new upto =
      ap (λ (x : Tables). status_of (x.escrows k)) (sym (done-injective h))
  persist_all-follows p (o ∷ rest) t t' h (after, later) (fresh, others) upto =
      let ((m, inserted), stored, h1) = >>=-eq_done (persist base58 o t) _ h in
      let ((status, written), events) =
        persisted_row o t m inserted stored fresh
          (IsUpTo-IsBehind p (position_of o) (t.escrows k) upto after) in
      rw (← status)
        (persist_all-follows (some (position_of o)) rest m t' h1 later (rw events others) written)
