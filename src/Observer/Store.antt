-- ===== src/Observer/Store.antt =====
-- observer/src/database.rs, with the tables and the checks of observer/migrations/0001_observer.sql.
-- A table with a primary key is a function from the key; a statement is the function that it is in
-- SQL, and a transaction that fails leaves the tables as they were.
pub mod Replay
pub mod History
pub mod Refinement
use Prim.Native.String.{compare}
use text.Mathlib.Text.{is_eq}
use iron_vault.Observer.Events.{
  IronVaultEvent, escrow_created, escrow_refunded, escrow_released, vault_authority_updated,
  vault_created, vault_pause_updated, version, withdrawal_cancelled, withdrawal_executed,
  withdrawal_requested,
}
use iron_vault.Observer.Fallible.{Fallible, check_violated, done, ensure, out_of_range, ◌>>=◌, ◌>>◌}
use iron_vault.Prelude.{
  Bool, List, Option, String, [], false, if◌then◌else◌, ltb, none, not, some, true, ℕ, ◌&&◌, ◌==◌,
  ◌^◌, ◌||◌, ◌∷◌,
}
use iron_vault.Prelude.Int.{ℤ}
use iron_vault.State.{Pubkey}
use iron_vault.Withdrawal.Request.{request}

pub record EventId : Type 0 where
  pub transaction_signature : String
  pub instruction_index : ℕ
  pub event_index : ℕ

pub record ObservedEvent : Type 0 where
  pub id : EventId
  pub slot : ℕ
  pub block_time : Option ℤ
  pub event : IronVaultEvent

-- The columns by which rows and the checkpoint are ordered.
pub record Position : Type 0 where
  pub slot : ℕ
  pub instruction_index : ℕ
  pub event_index : ℕ

-- `<` on row values: the first columns that differ decide.
abbrev pub before : Position → Position → Bool
before p q =
    ltb p.slot q.slot
    || (p.slot == q.slot
        && (ltb p.instruction_index q.instruction_index
            || (p.instruction_index == q.instruction_index && ltb p.event_index q.event_index)))

-- A row of `escrows`, without its key.
pub record EscrowRow : Type 0 where
  pub escrow_token : String
  pub maker : String
  pub recipient : String
  pub mint : String
  pub amount : ℕ
  pub escrow_id : ℕ
  pub created_at : ℤ
  pub expires_at : ℤ
  pub status : String
  pub last : Position
  pub last_signature : String

-- A row of `vaults`.
pub record VaultRow : Type 0 where
  pub namespace_authority : String
  pub authority : String
  pub guardian : String
  pub vault_id : ℕ
  pub paused : Bool
  pub last : Position
  pub last_signature : String

-- A row of `withdrawal_requests`.
pub record RequestRow : Type 0 where
  pub vault : String
  pub vault_asset : String
  pub proposer : String
  pub recipient_owner : String
  pub recipient_token_account : String
  pub mint : String
  pub withdrawal_id : ℕ
  pub amount : ℕ
  pub created_at : ℤ
  pub execute_after : ℤ
  pub expires_at : ℤ
  pub status : String
  pub last : Position
  pub last_signature : String

-- The row of `sync_checkpoint`.
pub record Checkpoint : Type 0 where
  pub position : Position
  pub transaction_signature : String

-- The tables. The event table keeps its events newest first.
pub record Tables : Type 0 where
  pub protocol_events : List ObservedEvent
  pub escrows : String → Option EscrowRow
  pub vaults : String → Option VaultRow
  pub withdrawal_requests : String → Option RequestRow
  pub sync_checkpoint : Option Checkpoint

abbrev pub eq_text : String → String → Bool
eq_text s t = is_eq (compare s t)

abbrev pub eq_id : EventId → EventId → Bool
eq_id i j =
    eq_text i.transaction_signature j.transaction_signature
    && (i.instruction_index == j.instruction_index && i.event_index == j.event_index)

-- The primary key is taken.
unfoldable pub has_event : EventId → List ObservedEvent → Bool
has_event i [] = false
has_event i (o ∷ rest) = eq_id o.id i || has_event i rest

module _ {ℓ} {R : Type ℓ} where
  -- The row of one key after an insertion, by whether it is the key of the statement.
  abbrev pub insert_row : Bool → R → Option R → Option R
  insert_row hit row (some old) = some old
  insert_row hit row none = if hit then some row else none

  -- `INSERT ... ON CONFLICT (key) DO NOTHING`
  abbrev pub insert_new : String → R → (String → Option R) → String → Option R
  insert_new key row table k = insert_row (eq_text key k) row (table k)

  abbrev pub update_row : Bool → (R → Position) → Position → (R → R) → Option R → Option R
  update_row hit last_of position change none = none
  update_row hit last_of position change (some row) =
      if hit && before (last_of row) position then some (change row) else some row

  -- `UPDATE ... WHERE key = ... AND (last_slot, ...) < (...)`
  abbrev pub update_after :
      String → (R → Position) → Position → (R → R) → (String → Option R) → String → Option R
  update_after key last_of position change table k =
      update_row (eq_text key k) last_of position change (table k)

abbrev pub position_of : ObservedEvent → Position
position_of o = record {
  slot = o.slot;
  instruction_index = o.id.instruction_index;
  event_index = o.id.event_index;
}

-- `update_checkpoint`: the first row, or a move forward.
unfoldable pub update_checkpoint : ObservedEvent → Option Checkpoint → Option Checkpoint
update_checkpoint o none =
    some (record { position = position_of o; transaction_signature = o.id.transaction_signature })
update_checkpoint o (some c) =
    if before c.position (position_of o)
    then some
        (record { position = position_of o; transaction_signature = o.id.transaction_signature })
    else some c

-- `update_escrow_status`
abbrev pub update_escrow_status : String → String → ObservedEvent → Tables → Tables
update_escrow_status escrow status o t = record t {
  escrows =
      update_after escrow (λ (r : EscrowRow). r.last) (position_of o)
        (λ (r : EscrowRow). record r {
          status = status;
          last = position_of o;
          last_signature = o.id.transaction_signature;
        })
        t.escrows;
}

-- `update_withdrawal_status`
abbrev pub update_withdrawal_status : String → String → ObservedEvent → Tables → Tables
update_withdrawal_status request status o t = record t {
  withdrawal_requests =
      update_after request (λ (r : RequestRow). r.last) (position_of o)
        (λ (r : RequestRow). record r {
          status = status;
          last = position_of o;
          last_signature = o.id.transaction_signature;
        })
        t.withdrawal_requests;
}

-- The conversions to the columns' types, and the check on the version.
unfoldable pub check_columns : ObservedEvent → Fallible (Unit {0})
check_columns o = do
  ensure (ltb o.slot (2 ^ 63)) out_of_range
  ensure (ltb o.id.instruction_index (2 ^ 31)) out_of_range
  ensure (ltb o.id.event_index (2 ^ 31)) out_of_range
  ensure (ltb (version o.event) (2 ^ 15)) out_of_range
  ensure (ltb 0 (version o.event)) check_violated

-- `base58` is the text of a key, of another crate.
module _ (base58 : Pubkey → String) where
  -- `apply_projection`, with the checks of the tables that it inserts into.
  unfoldable pub apply_projection : ObservedEvent → Tables → IronVaultEvent → Fallible Tables
  apply_projection o t (escrow_created event) = do
    ensure (ltb 0 event.amount) check_violated
    done (record t {
      escrows =
          insert_new (base58 event.escrow)
            (record {
              escrow_token = base58 event.escrow_token;
              maker = base58 event.maker;
              recipient = base58 event.recipient;
              mint = base58 event.mint;
              amount = event.amount;
              escrow_id = event.escrow_id;
              created_at = event.created_at;
              expires_at = event.expires_at;
              status = "funded";
              last = position_of o;
              last_signature = o.id.transaction_signature;
            })
            t.escrows;
    })
  apply_projection o t (escrow_released event) =
      done (update_escrow_status (base58 event.escrow) "released" o t)
  apply_projection o t (escrow_refunded event) =
      done (update_escrow_status (base58 event.escrow) "refunded" o t)
  apply_projection o t (vault_created event) = done (record t {
    vaults =
        insert_new (base58 event.vault)
          (record {
            namespace_authority = base58 event.namespace_authority;
            authority = base58 event.authority;
            guardian = base58 event.guardian;
            vault_id = event.vault_id;
            paused = false;
            last = position_of o;
            last_signature = o.id.transaction_signature;
          })
          t.vaults;
  })
  apply_projection o t (vault_authority_updated event) = done (record t {
    vaults =
        update_after (base58 event.vault) (λ (r : VaultRow). r.last) (position_of o)
          (λ (r : VaultRow). record r {
            authority = base58 event.new_authority;
            last = position_of o;
            last_signature = o.id.transaction_signature;
          })
          t.vaults;
  })
  apply_projection o t (vault_pause_updated event) = done (record t {
    vaults =
        update_after (base58 event.vault) (λ (r : VaultRow). r.last) (position_of o)
          (λ (r : VaultRow). record r {
            paused = event.paused;
            last = position_of o;
            last_signature = o.id.transaction_signature;
          })
          t.vaults;
  })
  apply_projection o t (withdrawal_requested event) = do
    ensure (ltb 0 event.amount) check_violated
    done (record t {
      withdrawal_requests =
          insert_new (base58 event.withdrawal_request)
            (record {
              vault = base58 event.vault;
              vault_asset = base58 event.vault_asset;
              proposer = base58 event.proposer;
              recipient_owner = base58 event.recipient_owner;
              recipient_token_account = base58 event.recipient_token_account;
              mint = base58 event.mint;
              withdrawal_id = event.withdrawal_id;
              amount = event.amount;
              created_at = event.created_at;
              execute_after = event.execute_after;
              expires_at = event.expires_at;
              status = "pending";
              last = position_of o;
              last_signature = o.id.transaction_signature;
            })
            t.withdrawal_requests;
    })
  apply_projection o t (withdrawal_executed event) =
      done (update_withdrawal_status (base58 event.withdrawal_request) "executed" o t)
  apply_projection o t (withdrawal_cancelled event) =
      done (update_withdrawal_status (base58 event.withdrawal_request) "cancelled" o t)
  apply_projection o t _ = done t

  -- The insertion, and the projection of an event that was new.
  unfoldable pub store_event : Bool → ObservedEvent → Tables → Fallible Tables
  store_event true o t =
      apply_projection o (record t { protocol_events = o ∷ t.protocol_events }) o.event
  store_event false o t = done t

  -- `Database::persist`: the tables after the commit, and whether the event was new.
  unfoldable pub persist : ObservedEvent → Tables → Fallible (Tables × Bool)
  persist o t = do
    check_columns o
    let inserted = not (has_event o.id t.protocol_events)
    t' ← store_event inserted o t
    done (record t' { sync_checkpoint = update_checkpoint o t'.sync_checkpoint }, inserted)
