-- ===== src/Escrow/Deadline.antt =====
-- The deadline of an escrow divides the two ways to settle it.
use iron_vault.Error.{ok}
use iron_vault.Escrow.Refund.{RefundEscrow, refund}
use iron_vault.Escrow.Release.{ReleaseEscrow, release}
use iron_vault.Escrow.Settlement.{refund_settles, release_settles}
use iron_vault.Prelude.{ap, arith, ◌≡◌, ◌≢◌}
use iron_vault.Prelude.Int.{◌<ℤ◌, ◌≤ℤ◌}
use iron_vault.Runtime.{Content, Context, Effect, Ledger, Runtime}
use iron_vault.Runtime.Accounts.{HoldsProgram}
use iron_vault.State.{Escrow}

module _ (rt : Runtime) (l : Ledger) (e : Effect) where
  -- On one ledger and at one time, where a release of an escrow succeeds no refund of it does.
  pub deadline_excludes :
      (ctx later : Context) (a : ReleaseEscrow) (b : RefundEscrow) (x : Effect)
      → release rt ctx a l ≡ ok e
      → a.escrow ≡ b.escrow
      → later.unix_timestamp ≡ ctx.unix_timestamp
      → refund rt later b l ≢ ok x
  deadline_excludes ctx later a b x h same now g =
      let (f, _, _, _, _, _, early, _, settles, _) = release_settles rt ctx a l e h in
      let (f', _, late, _, settles', _) = refund_settles rt later b l x g in
      let one : l a.escrow ≡ l b.escrow = ap l same in
      one_escrow f f' (rw (← one) settles.held) settles'.held early (rw (← now) late)
    where
      one_escrow :
          (f g : Escrow)
          → HoldsProgram rt l b.escrow (Content.escrow f)
          → HoldsProgram rt l b.escrow (Content.escrow g)
          → ctx.unix_timestamp <ℤ f.expires_at
          → g.expires_at ≤ℤ ctx.unix_timestamp
          → ⊥
      one_escrow f g at also early late = ground arith
