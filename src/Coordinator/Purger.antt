-- ===== src/Coordinator/Purger.antt =====
-- When the pool is purged (coordinator/purger.go). Block and batch numbers and delays are not negative;
-- the deletions in the L2 database are left to it.
pub mod Laws
use han_hermez_node.Prelude.{ℕ, ◌+◌, Bool, true, false, leb, if◌then◌else◌}

-- `PurgerCfg` and `Purger`
pub record PurgerCfg : Type 0 where
  pub purge_batch_delay : ℕ
  pub invalidate_batch_delay : ℕ
  pub purge_block_delay : ℕ
  pub invalidate_block_delay : ℕ

pub record Purger : Type 0 where
  pub cfg : PurgerCfg
  pub last_purge_block : ℕ
  pub last_purge_batch : ℕ
  pub last_invalidate_block : ℕ
  pub last_invalidate_batch : ℕ

-- `CanPurge` and `CanInvalidate`
unfoldable pub can_purge : Purger → ℕ → ℕ → Bool
can_purge p block batch =
    if leb (p.last_purge_block + p.cfg.purge_block_delay) block
    then true
    else leb (p.last_purge_batch + p.cfg.purge_batch_delay) batch

unfoldable pub can_invalidate : Purger → ℕ → ℕ → Bool
can_invalidate p block batch =
    if leb (p.last_invalidate_block + p.cfg.invalidate_block_delay) block
    then true
    else leb (p.last_invalidate_batch + p.cfg.invalidate_batch_delay) batch

-- `PurgeMaybe` and `InvalidateMaybe`, with whether they act and the purger after them.
unfoldable pub purge_maybe : Purger → ℕ → ℕ → Bool × Purger
purge_maybe p block batch =
    if can_purge p block batch
    then (true, record p { last_purge_block = block; last_purge_batch = batch })
    else (false, p)

unfoldable pub invalidate_maybe : Purger → ℕ → ℕ → Bool × Purger
invalidate_maybe p block batch =
    if can_invalidate p block batch
    then (true, record p { last_invalidate_block = block; last_invalidate_batch = batch })
    else (false, p)
