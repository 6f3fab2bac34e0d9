-- ===== src/Coordinator/Purger/Laws.antt =====
-- A purge and an invalidation put off the next of their kind, and not the other.
use han_hermez_node.Coordinator.Purger.{
  Purger, can_purge, can_invalidate, purge_maybe, invalidate_maybe,
}
use han_hermez_node.Prelude.{ℕ, ◌+◌, ◌≤◌, ◌≡◌, ◌↔◌, ◌⊎◌, true, arith}

-- Where `PurgeMaybe` purges: afterwards `CanPurge` holds just from the delay in blocks or the delay in
-- batches on, counted from the block and the batch of the purge, and `CanInvalidate` is as before.
purge_maybe-waits :
    (p : Purger) (block batch later_block later_batch : ℕ)
    → (purge_maybe p block batch).0 ≡ true
    → ((can_purge (purge_maybe p block batch).1 later_block later_batch ≡ true) ↔ (
        (block + p.cfg.purge_block_delay ≤ later_block)
        ⊎ (batch + p.cfg.purge_batch_delay ≤ later_batch)))
      × (can_invalidate (purge_maybe p block batch).1 later_block later_batch
          ≡ can_invalidate p later_block later_batch)
unfolding can_purge can_invalidate purge_maybe
purge_maybe-waits p block batch later_block later_batch may =
    ((λ h. ground (arith, h, may), λ h. ground (arith, h, may)), ground arith)

-- Where `InvalidateMaybe` invalidates: afterwards `CanInvalidate` holds just from the delay in blocks
-- or the delay in batches on, counted from the block and the batch of the invalidation, and `CanPurge`
-- is as before.
invalidate_maybe-waits :
    (p : Purger) (block batch later_block later_batch : ℕ)
    → (invalidate_maybe p block batch).0 ≡ true
    → ((can_invalidate (invalidate_maybe p block batch).1 later_block later_batch ≡ true) ↔ (
        (block + p.cfg.invalidate_block_delay ≤ later_block)
        ⊎ (batch + p.cfg.invalidate_batch_delay ≤ later_batch)))
      × (can_purge (invalidate_maybe p block batch).1 later_block later_batch
          ≡ can_purge p later_block later_batch)
unfolding can_purge can_invalidate invalidate_maybe
invalidate_maybe-waits p block batch later_block later_batch may =
    ((λ h. ground (arith, h, may), λ h. ground (arith, h, may)), ground arith)
