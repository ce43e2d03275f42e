-- ===== src/Observer/Reconcile.antt =====
-- observer/src/rpc.rs: `reconcile`, which pages back through the program's history as far as the
-- checkpoint and replays it, and `reconcile_to_finalized_slot`. The node that answers is a
-- parameter. The loop over the pages runs on fuel, and `none` says that it ran out.
pub mod Paging
use Prim.Native.String
use mathlib.Core.Option
use iron_vault.Error.{err}
use iron_vault.Observer.Events.Decode.{Codec}
use iron_vault.Observer.Fallible.{Fallible, done, failed, ◌>>=◌}
use iron_vault.Observer.Process.{World, and_then, process_logs}
use iron_vault.Observer.Store.{Checkpoint, Tables, before, eq_text}
use iron_vault.Prelude.{
  Bool, List, Option, String, [], false, if◌then◌else◌, length, ltb, none, some, suc, true, zero, ℕ,
  ◌++◌, ◌||◌, ◌∷◌,
}
use iron_vault.Prelude.Int.{ℤ}
use iron_vault.State.{Pubkey}

pub record SignatureInfo : Type 0 where
  pub signature : String
  pub err : Option String

pub record TransactionMeta : Type 0 where
  pub err : Option String
  pub log_messages : Option (List String)

pub record TransactionResult : Type 0 where
  pub slot : ℕ
  pub block_time : Option ℤ
  pub meta : Option TransactionMeta

-- The answers of the node: `getSignaturesForAddress` with a limit and `before`, `getTransaction`
-- and `getSlot`.
pub record Rpc : Type 0 where
  pub get_signatures : ℕ → Option String → Fallible (List SignatureInfo)
  pub get_transaction : String → Fallible (Option TransactionResult)
  pub get_slot : Fallible ℕ

abbrev pub is_none {ℓ} : {A : Type ℓ} → Option A → Bool
is_none none = true
is_none (some value) = false

-- `filter(|entry| entry.err.is_none())`
abbrev pub succeeded : List SignatureInfo → List SignatureInfo
succeeded [] = []
succeeded (entry ∷ rest) = if is_none entry.err then entry ∷ succeeded rest else succeeded rest

abbrev pub has_signature : String → List SignatureInfo → Bool
has_signature signature [] = false
has_signature signature (entry ∷ rest) =
    eq_text entry.signature signature || has_signature signature rest

-- `page.last()`
abbrev pub last_signature : List SignatureInfo → Option String
last_signature [] = none
last_signature (entry ∷ []) = some entry.signature
last_signature (entry ∷ next_entry ∷ rest) = last_signature (next_entry ∷ rest)

abbrev pub reaches : Option String → List SignatureInfo → Bool
reaches none page = false
reaches (some signature) page = has_signature signature page

-- The end of the loop's body: it leaves the loop, or goes on before the last entry of the page.
abbrev pub after_page :
    ℕ
    → Option String
    → Fallible (List SignatureInfo)
    → (Option String → Option (Fallible (List SignatureInfo)))
    → Option (Fallible (List SignatureInfo))
after_page limit checkpoint (failed why) rest = some (failed why)
after_page limit checkpoint (done page) rest =
    if reaches checkpoint page || ltb (length page) limit
    then some (done (succeeded page))
    else Option.map (λ found. found >>= λ entries. done (succeeded page ++ entries))
        (rest (last_signature page))

-- The loop of `reconcile`: the entries, newest first.
unfoldable pub fetch_signatures :
    Rpc → ℕ → Option String → ℕ → Option String → Option (Fallible (List SignatureInfo))
fetch_signatures rpc limit checkpoint zero before = none
fetch_signatures rpc limit checkpoint (suc fuel) before =
    after_page limit checkpoint (rpc.get_signatures limit before)
      (λ before'. fetch_signatures rpc limit checkpoint fuel before')

abbrev pub checkpoint_signature : Tables → Option String
checkpoint_signature t = Option.map (λ (c : Checkpoint). c.transaction_signature) t.sync_checkpoint

abbrev pub reverse {ℓ} : {A : Type ℓ} → List A → List A
reverse [] = []
reverse (x ∷ xs) = reverse xs ++ (x ∷ [])

module _ (base58 : Pubkey → String) (large_withdrawal_threshold : ℕ) (codec : Codec)
    (program_id : String) where
  replay_logs : String → ℕ → Option ℤ → Option TransactionMeta → World → World × Fallible (Unit {0})
  replay_logs signature slot block_time none w = (w, done tt)
  replay_logs signature slot block_time (some meta) w = logged meta.err meta.log_messages
    where
      logged : Option String → Option (List String) → World × Fallible (Unit {0})
      logged (some why) logs = (w, done tt)
      logged none none = (w, done tt)
      logged none (some logs) =
          process_logs base58 large_withdrawal_threshold codec program_id signature slot block_time
            logs w

  -- What is done with one answer of `getTransaction`.
  unfoldable pub replay_transaction :
      String → Fallible (Option TransactionResult) → World → World × Fallible (Unit {0})
  unfolding replay_logs
  replay_transaction signature (failed why) w = (w, failed why)
  replay_transaction signature (done none) w = (w, done tt)
  replay_transaction signature (done (some transaction)) w =
      replay_logs signature transaction.slot transaction.block_time transaction.meta w

  unfoldable pub replay : Rpc → List SignatureInfo → World → World × Fallible (Unit {0})
  replay rpc [] w = (w, done tt)
  replay rpc (info ∷ rest) w =
      and_then (replay_transaction info.signature (rpc.get_transaction info.signature) w)
        (λ w'. replay rpc rest w')

  replay_found : Rpc → World → Fallible (List SignatureInfo) → World × Fallible (Unit {0})
  replay_found rpc w (failed why) = (w, failed why)
  replay_found rpc w (done entries) = replay rpc (reverse entries) w

  -- `Observer::reconcile`
  unfoldable pub reconcile : Rpc → ℕ → World → Option (World × Fallible (Unit {0}))
  unfolding replay_found
  reconcile rpc fuel w =
      Option.map (replay_found rpc w)
        (fetch_signatures rpc 1000 (checkpoint_signature w.tables) fuel none)
