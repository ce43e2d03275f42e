-- ===== src/Program/History.antt =====
-- What may happen to a ledger, and what therefore holds of every account of the program for ever.
use iron_vault.Error.{ok, ok-injective}
use iron_vault.Prelude.{ap, arith, inl, refl, sym, ◌≡◌, ◌≢◌, ◌≤◌, ◌⊎◌}
use iron_vault.Program.{
  Instruction, cancel_withdrawal, create_escrow, create_vault, deposit, execute_withdrawal,
  grant_role, initialize, initialize_protocol, pause_vault, process, refund_escrow, register_asset,
  release_escrow, request_withdrawal, revoke_role, set_protocol_pause, set_vault_authority,
  unpause_vault, update_limits, withdraw,
}
use iron_vault.Program.Evolution.{
  EscrowMoves, Evolution, Evolves, IsPlaced, Keeps-Evolution, RequestMoves, RoleMoves, RoleWrites,
  placed-Evolves,
}
use iron_vault.Program.Evolution.Configuration.{
  along, create_vault-Evolution, grant-Evolution, initialize_protocol-Evolution, pause-Evolution,
  register-Evolution, revoke-Evolution, set_authority-Evolution, set_pause-Evolution,
  unpause-Evolution, update_policy-Evolution,
}
use iron_vault.Program.Evolution.Movement.{
  cancel-Evolution, create-Evolution, deposit-Evolution, execute-Evolution, refund-Evolution,
  release-Evolution, request-Evolution, withdraw-Evolution,
}
use iron_vault.Protocol.{dispatch}
use iron_vault.Runtime.{Content, Context, Effect, Ledger, Runtime}
use iron_vault.Runtime.Accounts.{HoldsProgram}
use iron_vault.Runtime.Frame.{IsState, Keeps, TokenProgram}
use iron_vault.State.{Escrow, Pubkey, Vault, WithdrawalRequest}

-- One step: an instruction of the program that succeeds, or anything that other programs do, which
-- cannot write to this program's accounts.
pub data Happens (rt : Runtime) (l : Ledger) : Ledger → Type 0 where
  runs :
      (ctx : Context) (i : Instruction) (e : Effect) (m : Ledger)
      → process rt ctx i l ≡ ok e
      → m ≡ e.ledger
      → Happens rt l m
  elsewhere : (m : Ledger) → Keeps rt l m → Happens rt l m

pub data Reach (rt : Runtime) (l : Ledger) : Ledger → Type 0 where
  here : Reach rt l l
  next : {m n : Ledger} → Reach rt l m → Happens rt m n → Reach rt l n

-- What `e` has become on a later ledger.
abbrev pub EscrowLater : Runtime → Ledger → Pubkey → Escrow → Type 0
EscrowLater rt l k e =
    (f : Escrow) × HoldsProgram rt l k (Content.escrow f)
    × (f ≡ record e { status = f.status })
    × EscrowMoves e.status f.status

escrow_step :
    (rt : Runtime) (l : Ledger) (k : Pubkey) (e f : Escrow)
    → f ≡ record e { status = f.status }
    → EscrowMoves e.status f.status
    → (c : Content) → HoldsProgram rt l k c
    → Evolves (RoleWrites rt k) (Content.escrow f) c
    → EscrowLater rt l k e
escrow_step rt l k e f terms moves (Content.protocol_config x) at never = absurd never
escrow_step rt l k e f terms moves (Content.escrow g) at (same, onwards) =
    (g, at, ground arith, ground arith)
escrow_step rt l k e f terms moves (Content.vault x) at never = absurd never
escrow_step rt l k e f terms moves (Content.vault_asset x) at never = absurd never
escrow_step rt l k e f terms moves (Content.role_assignment x) at never = absurd never
escrow_step rt l k e f terms moves (Content.withdrawal_request x) at never = absurd never
escrow_step rt l k e f terms moves (Content.mint x) at never = absurd never
escrow_step rt l k e f terms moves (Content.token x) at never = absurd never
escrow_step rt l k e f terms moves Content.other at never = absurd never

-- What `e` has become on a later ledger.
abbrev pub RequestLater : Runtime → Ledger → Pubkey → WithdrawalRequest → Type 0
RequestLater rt l k e =
    (f : WithdrawalRequest) × HoldsProgram rt l k (Content.withdrawal_request f)
    × (f ≡ record e { status = f.status })
    × RequestMoves e.status f.status

request_step :
    (rt : Runtime) (l : Ledger) (k : Pubkey) (e f : WithdrawalRequest)
    → f ≡ record e { status = f.status }
    → RequestMoves e.status f.status
    → (c : Content) → HoldsProgram rt l k c
    → Evolves (RoleWrites rt k) (Content.withdrawal_request f) c
    → RequestLater rt l k e
request_step rt l k e f terms moves (Content.protocol_config x) at never = absurd never
request_step rt l k e f terms moves (Content.escrow x) at never = absurd never
request_step rt l k e f terms moves (Content.vault x) at never = absurd never
request_step rt l k e f terms moves (Content.vault_asset x) at never = absurd never
request_step rt l k e f terms moves (Content.role_assignment x) at never = absurd never
request_step rt l k e f terms moves (Content.withdrawal_request g) at (same, onwards) =
    (g, at, ground arith, ground arith)
request_step rt l k e f terms moves (Content.mint x) at never = absurd never
request_step rt l k e f terms moves (Content.token x) at never = absurd never
request_step rt l k e f terms moves Content.other at never = absurd never

-- What vault `v` has become on a later ledger.
abbrev pub VaultLater : Runtime → Ledger → Pubkey → Vault → Type 0
VaultLater rt l k v =
    (w : Vault) × HoldsProgram rt l k (Content.vault w)
    × (w.namespace_authority ≡ v.namespace_authority)
    × (w.guardian ≡ v.guardian)
    × (w.vault_id ≡ v.vault_id)
    × (v.next_withdrawal_id ≤ w.next_withdrawal_id)
    × ((w.authority ≡ v.authority) ⊎ (w.authority ≢ v.guardian))

vault_step :
    (rt : Runtime) (l : Ledger) (k : Pubkey) (v w : Vault)
    → w.namespace_authority ≡ v.namespace_authority
    → w.guardian ≡ v.guardian
    → w.vault_id ≡ v.vault_id
    → v.next_withdrawal_id ≤ w.next_withdrawal_id
    → (w.authority ≡ v.authority) ⊎ (w.authority ≢ v.guardian)
    → (c : Content) → HoldsProgram rt l k c
    → Evolves (RoleWrites rt k) (Content.vault w) c
    → VaultLater rt l k v
vault_step rt l k v w n g i le apart (Content.protocol_config x) at never = absurd never
vault_step rt l k v w n g i le apart (Content.escrow x) at never = absurd never
vault_step rt l k v w n g i le apart (Content.vault u) at (same, onwards, moved) =
    (u, at, ground arith, ground arith, ground arith, ground arith, ground arith)
vault_step rt l k v w n g i le apart (Content.vault_asset x) at never = absurd never
vault_step rt l k v w n g i le apart (Content.role_assignment x) at never = absurd never
vault_step rt l k v w n g i le apart (Content.withdrawal_request x) at never = absurd never
vault_step rt l k v w n g i le apart (Content.mint x) at never = absurd never
vault_step rt l k v w n g i le apart (Content.token x) at never = absurd never
vault_step rt l k v w n g i le apart Content.other at never = absurd never

module _ (rt : Runtime) (tp : TokenProgram rt) where
  process-Evolution :
      (ctx : Context) (l : Ledger) (e : Effect) (i : Instruction)
      → process rt ctx i l ≡ ok e
      → Evolution rt l e.ledger
  unfolding process dispatch
  process-Evolution ctx l e initialize h =
      along rt l l e.ledger (ap (λ (x : Effect). x.ledger) (sym (ok-injective h)))
        (Keeps-Evolution rt l l (λ k c s at. at))
  process-Evolution ctx l e (initialize_protocol a x y) h =
      initialize_protocol-Evolution rt ctx l e a x y h
  process-Evolution ctx l e (set_protocol_pause a flags) h =
      set_pause-Evolution rt ctx l e a flags h
  process-Evolution ctx l e (create_escrow a i r x t) h = create-Evolution rt tp ctx l e a i r x t h
  process-Evolution ctx l e (release_escrow a) h = release-Evolution rt tp ctx l e a h
  process-Evolution ctx l e (refund_escrow a) h = refund-Evolution rt tp ctx l e a h
  process-Evolution ctx l e (create_vault a i g) h = create_vault-Evolution rt ctx l e a i g h
  process-Evolution ctx l e (set_vault_authority a n) h = set_authority-Evolution rt ctx l e a n h
  process-Evolution ctx l e (pause_vault a) h = pause-Evolution rt ctx l e a h
  process-Evolution ctx l e (unpause_vault a) h = unpause-Evolution rt ctx l e a h
  process-Evolution ctx l e (register_asset a) h = register-Evolution rt ctx l e a h
  process-Evolution ctx l e (deposit a x) h = deposit-Evolution rt tp ctx l e a x h
  process-Evolution ctx l e (withdraw a x) h = withdraw-Evolution rt tp ctx l e a x h
  process-Evolution ctx l e (grant_role a p x) h = grant-Evolution rt ctx l e a p x h
  process-Evolution ctx l e (revoke_role a p) h = revoke-Evolution rt ctx l e a p h
  process-Evolution ctx l e (update_limits a p) h = update_policy-Evolution rt ctx l e a p h
  process-Evolution ctx l e (request_withdrawal a x) h = request-Evolution rt tp ctx l e a x h
  process-Evolution ctx l e (execute_withdrawal a) h = execute-Evolution rt tp ctx l e a h
  process-Evolution ctx l e (cancel_withdrawal a) h = cancel-Evolution rt tp ctx l e a h

  -- Where the ledger holds a state account, after any instruction that succeeds it holds one of the
  -- same kind there. Of the configuration only the pause flags have changed; of an escrow and a
  -- request only the status, out of funded and pending; of a vault only the authority, the pause and
  -- the next identifier, which has not fallen; of an asset only the policy and the window; and of a
  -- role, provided that it is at the canonical address of its vault and principal and that no other
  -- role's address is that one, neither its vault, nor its principal, nor its bump: it has stayed, or
  -- been revoked, with no permission left, or been granted known permissions.
  pub process-Evolves :
      (ctx : Context) (l : Ledger) (e : Effect) (i : Instruction) (k : Pubkey) (c : Content)
      → process rt ctx i l ≡ ok e
      → IsState c
      → IsPlaced rt k c
      → HoldsProgram rt l k c
      → (d : Content) × HoldsProgram rt e.ledger k d × Evolves RoleMoves c d
  process-Evolves ctx l e i k c h state placed held =
      let v = process-Evolution ctx l e i h k c state held in
      (v.content, v.held, placed-Evolves rt k c v.content placed v.evolves)

  Happens-Evolution : (l m : Ledger) → Happens rt l m → Evolution rt l m
  Happens-Evolution l m (runs ctx i e _ done same) =
      along rt l e.ledger m same (process-Evolution ctx l e i done)
  Happens-Evolution l m (elsewhere _ keeps) = Keeps-Evolution rt l m keeps

  -- From whatever point, the terms of an escrow never change, and its status is the one that it has
  -- or, if that is funded, a terminal one.
  pub escrow_for_ever :
      {l m : Ledger} (k : Pubkey) (e : Escrow)
      → HoldsProgram rt l k (Content.escrow e)
      → Reach rt l m
      → EscrowLater rt m k e
  escrow_for_ever k e at here = (e, at, refl, inl refl)
  escrow_for_ever k e at (next {m = m} {n = n} r step) =
      let (f, held, terms, moves) = escrow_for_ever k e at r in
      let v = Happens-Evolution m n step k (Content.escrow f) tt held in
      escrow_step rt n k e f terms moves v.content v.held v.evolves

  -- The same of a withdrawal request.
  pub request_for_ever :
      {l m : Ledger} (k : Pubkey) (q : WithdrawalRequest)
      → HoldsProgram rt l k (Content.withdrawal_request q)
      → Reach rt l m
      → RequestLater rt m k q
  request_for_ever k q at here = (q, at, refl, inl refl)
  request_for_ever k q at (next {m = m} {n = n} r step) =
      let (f, held, terms, moves) = request_for_ever k q at r in
      let v = Happens-Evolution m n step k (Content.withdrawal_request f) tt held in
      request_step rt n k q f terms moves v.content v.held v.evolves

  -- A vault keeps its namespace, its guardian and its identifier for ever, and its next request
  -- identifier never falls; its authority is the one that it has or one that is not the guardian.
  pub vault_for_ever :
      {l m : Ledger} (k : Pubkey) (v : Vault)
      → HoldsProgram rt l k (Content.vault v)
      → Reach rt l m
      → VaultLater rt m k v
  vault_for_ever k v at here = (v, at, refl, refl, refl, omega arith, inl refl)
  vault_for_ever k v at (next {m = m} {n = n} r step) =
      let (w, held, namespace, guardian, id, grows, apart) = vault_for_ever k v at r in
      let u = Happens-Evolution m n step k (Content.vault w) tt held in
      vault_step rt n k v w namespace guardian id grows apart u.content u.held u.evolves
