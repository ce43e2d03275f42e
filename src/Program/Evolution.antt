-- ===== src/Program/Evolution.antt =====
-- How the state accounts may change: every instruction writes each of them along the edges below.
pub mod Configuration
pub mod Movement
use iron_vault.Constants.{known_permissions, not_u64}
use iron_vault.Prelude.{
  ap, arith, bit_and, false, inl, inr, none, refl, replicate, sym, true, ℕ_discrete, ◌∙◌, ◌≡◌, ◌≢◌,
  ◌≤◌, ◌⊎◌,
}
use iron_vault.Runtime.{Account, Content, Ledger, Runtime, store, update}
use iron_vault.Runtime.Accounts.{HoldsProgram}
use iron_vault.Runtime.Frame.{IsState, Keeps}
use iron_vault.Seeds.{role_seeds}
use iron_vault.State.{EscrowStatus, Pubkey, RoleAssignment, WithdrawalStatus, funded, pending}

-- Funded is left at most once, and for a terminal status.
abbrev pub EscrowMoves : EscrowStatus → EscrowStatus → Type 0
EscrowMoves s t = (t ≡ s) ⊎ ((s ≡ funded) × (t ≢ funded))

abbrev pub RequestMoves : WithdrawalStatus → WithdrawalStatus → Type 0
RequestMoves s t = (t ≡ s) ⊎ ((s ≡ pending) × (t ≢ pending))

-- A role stays as it is, or an active one is revoked, or it is granted anew: the vault, the principal
-- and the bump are never touched, and a revoked role has no permission.
abbrev pub RoleMoves : RoleAssignment → RoleAssignment → Type 0
RoleMoves r q =
    (q ≡ r)
    ⊎ (((r.active ≡ true) × (q ≡ record r { permissions = 0; active = false }))
        ⊎ ((bit_and q.permissions (not_u64 known_permissions) ≡ 0)
            × (q ≡ record r {
              permissions = q.permissions;
              active = true;
              reserved = replicate 54 0;
            })))

-- What is written at `k`, whatever was there: a grant writes all of a role, which is canonical at its
-- address.
abbrev pub RoleWrites : Runtime → Pubkey → RoleAssignment → RoleAssignment → Type 0
RoleWrites rt k r q =
    (q ≡ r)
    ⊎ (((r.active ≡ true) × (q ≡ record r { permissions = 0; active = false }))
        ⊎ ((bit_and q.permissions (not_u64 known_permissions) ≡ 0)
            × (rt.find_program_address (role_seeds q.vault q.principal) ≡ (k, q.bump))
            × (q.active ≡ true)
            × (q.reserved ≡ replicate 54 0)))

-- An account keeps its kind. Of a configuration only the pause flags change; of an escrow and a
-- request only the status; of a vault the authority, the local pause and the next identifier, which
-- does not fall, and a new authority is not the guardian; of an asset the policy and the window; of a
-- role what `Roles` says.
abbrev pub Evolves : (RoleAssignment → RoleAssignment → Type 0) → Content → Content → Type 0
Evolves Roles (Content.protocol_config c) (Content.protocol_config d) =
    d ≡ record c { pause_flags = d.pause_flags }
Evolves Roles (Content.escrow e) (Content.escrow f) =
    (f ≡ record e { status = f.status }) × EscrowMoves e.status f.status
Evolves Roles (Content.vault v) (Content.vault w) =
    (w ≡ record v {
      authority = w.authority;
      paused = w.paused;
      next_withdrawal_id = w.next_withdrawal_id;
    })
    × (v.next_withdrawal_id ≤ w.next_withdrawal_id)
    × ((w.authority ≡ v.authority) ⊎ (w.authority ≢ v.guardian))
Evolves Roles (Content.vault_asset a) (Content.vault_asset b) = b ≡ record a {
  max_per_transaction = b.max_per_transaction;
  window_limit = b.window_limit;
  window_seconds = b.window_seconds;
  window_started_at = b.window_started_at;
  window_spent = b.window_spent;
  timelock_threshold = b.timelock_threshold;
  timelock_seconds = b.timelock_seconds;
  request_execution_window_seconds = b.request_execution_window_seconds;
}
Evolves Roles (Content.role_assignment r) (Content.role_assignment q) = Roles r q
Evolves Roles (Content.withdrawal_request r) (Content.withdrawal_request q) =
    (q ≡ record r { status = q.status }) × RequestMoves r.status q.status
Evolves _ _ _ = ⊥

-- The state that `l'` holds where `l` holds `c`.
pub record EvolvedAt (rt : Runtime) (l' : Ledger) (k : Pubkey) (c : Content) : Type 0 where
  pub content : Content
  pub held : HoldsProgram rt l' k content
  pub evolves : Evolves (RoleWrites rt k) c content

abbrev pub Evolution : Runtime → Ledger → Ledger → Type 0
Evolution rt l l' =
    (k : Pubkey) (c : Content) → IsState c → HoldsProgram rt l k c → EvolvedAt rt l' k c

pub Evolves-refl :
    (rt : Runtime) (k : Pubkey) (c : Content) → IsState c → Evolves (RoleWrites rt k) c c
Evolves-refl rt k (Content.protocol_config c) s = refl
Evolves-refl rt k (Content.escrow e) s = (refl, inl refl)
Evolves-refl rt k (Content.vault v) s = (refl, omega arith, inl refl)
Evolves-refl rt k (Content.vault_asset a) s = refl
Evolves-refl rt k (Content.role_assignment r) s = inl refl
Evolves-refl rt k (Content.withdrawal_request r) s = (refl, inl refl)
Evolves-refl rt k (Content.mint m) s = s
Evolves-refl rt k (Content.token t) s = s
Evolves-refl rt k Content.other s = s

module _ (rt : Runtime) (l : Ledger) where
  pub Keeps-Evolution : (l' : Ledger) → Keeps rt l l' → Evolution rt l l'
  Keeps-Evolution l' keeps k c s at = record {
    content = c;
    held = keeps k c s at;
    evolves = Evolves-refl rt k c s;
  }

  -- Writing back an account that was loaded and has evolved.
  pub store-Evolution :
      (m : Ledger) (w : Pubkey) (c d : Content)
      → HoldsProgram rt l w c
      → Evolves (RoleWrites rt w) c d
      → Evolution rt l m
      → Evolution rt l (store rt w d m)
  store-Evolution m w c d held ev base k b s at = elim (ℕ_discrete k w) [
    | yes e ↦
        let same : l k ≡ l w = ap l e in
        let content : b ≡ c = ground arith in
        record { content = d; held = ground arith; evolves = rw e (rw content ev) }
    | no n ↦
        let rest = base k b s at in
        record { content = rest.content; held = ground (arith, rest.held); evolves = rest.evolves }
  ]

  -- Writing an account where there was none.
  pub init-Evolution :
      (m : Ledger) (w : Pubkey) (d : Account)
      → l w ≡ none
      → Evolution rt l m
      → Evolution rt l (update m w d)
  init-Evolution m w d absent base k b s at = elim (ℕ_discrete k w) [
    | yes e ↦ let same : l k ≡ l w = ap l e in absurd (ground arith)
    | no n ↦
        let rest = base k b s at in
        record { content = rest.content; held = ground (arith, rest.held); evolves = rest.evolves }
  ]

-- Where a role is at home: at the canonical address of its vault and principal, which is the address
-- of no other role. Of other contents nothing is said.
abbrev pub IsPlaced : Runtime → Pubkey → Content → Type 0
IsPlaced rt k (Content.role_assignment r) =
    (rt.find_program_address (role_seeds r.vault r.principal) ≡ (k, r.bump))
    × ((vault principal : Pubkey)
        → (rt.find_program_address (role_seeds vault principal)).0 ≡ k
        → (vault ≡ r.vault) × (principal ≡ r.principal))
IsPlaced rt k _ = Unit

RoleWrites-RoleMoves :
    (rt : Runtime) (k : Pubkey) (r q : RoleAssignment)
    → IsPlaced rt k (Content.role_assignment r)
    → RoleWrites rt k r q
    → RoleMoves r q
RoleWrites-RoleMoves rt k r q placed (inl same) = inl same
RoleWrites-RoleMoves rt k r q placed (inr (inl revoked)) = inr (inl revoked)
RoleWrites-RoleMoves rt k r q (canonical, alone) (inr (inr (known, at, active, reserved))) =
    let (same_vault, same_principal) = alone q.vault q.principal (ap (λ p. p.0) at) in
    let at_r : rt.find_program_address (role_seeds r.vault r.principal) ≡ (k, q.bump) =
      rw (← same_vault) (rw (← same_principal) at) in
    let same_bump : q.bump ≡ r.bump = ap (λ p. p.1) (sym at_r ∙ canonical) in inr (inr (known, cc))

-- Of a role at home only what a revocation and a grant may change does change.
pub placed-Evolves :
    (rt : Runtime) (k : Pubkey) (c d : Content)
    → IsPlaced rt k c
    → Evolves (RoleWrites rt k) c d
    → Evolves RoleMoves c d
placed-Evolves rt k (Content.protocol_config _) d placed h = h
placed-Evolves rt k (Content.escrow _) d placed h = h
placed-Evolves rt k (Content.vault _) d placed h = h
placed-Evolves rt k (Content.vault_asset _) d placed h = h
placed-Evolves rt k (Content.role_assignment r) (Content.role_assignment q) placed h =
    RoleWrites-RoleMoves rt k r q placed h
placed-Evolves rt k (Content.role_assignment r) (Content.protocol_config _) placed h = absurd h
placed-Evolves rt k (Content.role_assignment r) (Content.escrow _) placed h = absurd h
placed-Evolves rt k (Content.role_assignment r) (Content.vault _) placed h = absurd h
placed-Evolves rt k (Content.role_assignment r) (Content.vault_asset _) placed h = absurd h
placed-Evolves rt k (Content.role_assignment r) (Content.withdrawal_request _) placed h = absurd h
placed-Evolves rt k (Content.role_assignment r) (Content.mint _) placed h = absurd h
placed-Evolves rt k (Content.role_assignment r) (Content.token _) placed h = absurd h
placed-Evolves rt k (Content.role_assignment r) Content.other placed h = absurd h
placed-Evolves rt k (Content.withdrawal_request _) d placed h = h
placed-Evolves rt k (Content.mint _) d placed h = h
placed-Evolves rt k (Content.token _) d placed h = h
placed-Evolves rt k Content.other d placed h = h
