-- ===== src/Tests/Coordinator.antt =====
-- The coordinator's decisions and queue at concrete numbers.
use han_hermez_node.Coordinator.Slots.{
  AuctionConstants, Slot, slot_num, relative_block, at_least, in_slot, can_forge_in, can_forge,
}
use han_hermez_node.Coordinator.Slots.Laws.{Within, can_forge_iff}
use han_hermez_node.Coordinator.Queue.{Queue, next, remove, get_elem?}
use han_hermez_node.Coordinator.Queue.Laws.{IsValid, after, next-reaches}
use han_hermez_node.Coordinator.Purger.{
  Purger, can_purge, can_invalidate, purge_maybe, invalidate_maybe,
}
use han_hermez_node.Prelude.{
  ◌-◌, ◌%◌, ℕ, ◌≤◌, ◌<◌, ◌≡◌, refl, ◌↔◌, ◌⊎◌, inl, true, false, some, [], ◌∷◌, arith,
}

abbrev auction : AuctionConstants
auction = record { blocks_per_slot = 40; genesis_block_num = 100 }

-- Block 185 is the sixth of slot 2.
sixth : (slot_num auction 185 ≡ (false, 2)) × (relative_block auction 185 ≡ (false, 5))
unfolding slot_num relative_block
sixth = (refl, refl)

abbrev second : Slot
second = record { start_block = 180; end_block = 219; forger_commitment = false; forger = 7 }

abbrev third : Slot
third = record { start_block = 220; end_block = 259; forger_commitment = false; forger = 8 }

-- Another coordinator may forge from the deadline on.
runs :
    (can_forge auction (record { slot_deadline = 20 }) second third 9 199 true ≡ false)
    × (can_forge auction (record { slot_deadline = 20 }) second third 9 200 true ≡ true)
unfolding can_forge can_forge_in in_slot relative_block slot_num at_least
runs = (refl, refl)

can_forge_iff_example :
    (can_forge auction (record { slot_deadline = 20 }) second third 9 200 true ≡ true) ↔ (
      (100 ≤ 200)
      × ((slot : Slot) × (((slot ≡ second) ⊎ ((slot ≡ third) × (¬ Within 200 second)))
            × (Within 200 slot
                × ((slot.forger ≡ 9)
                    ⊎ ((true ≡ true)
                        × ((slot.forger_commitment ≡ false) × (20 ≤ (200 - 100) % 40))))))))
can_forge_iff_example =
    can_forge_iff auction (record { slot_deadline = 20 }) second third 9 200 true

abbrev batches : Queue ℕ
batches = record { list = 5 ∷ 6 ∷ 7 ∷ []; next = 1 }

valid : IsValid batches
unfolding IsValid
valid = inl (omega arith)

next-reaches_example :
    (n : ℕ) × ((n < 3) × ((next (after n batches)).0 ≡ (0, get_elem? (5 ∷ 6 ∷ 7 ∷ []) 0)))
next-reaches_example = next-reaches batches 0 valid (omega arith)

abbrev purger : Purger
purger = record {
  cfg = record {
    purge_batch_delay = 10;
    invalidate_batch_delay = 20;
    purge_block_delay = 10;
    invalidate_block_delay = 20;
  };
  last_purge_block = 0;
  last_purge_batch = 0;
  last_invalidate_block = 0;
  last_invalidate_batch = 0;
}

purges : (purge_maybe purger 12 3).0 ≡ true
unfolding purge_maybe can_purge
purges = refl

invalidates : (invalidate_maybe purger 25 3).0 ≡ true
unfolding invalidate_maybe can_invalidate
invalidates = refl

abbrev fewer : Queue ℕ
fewer = record { list = 5 ∷ 6 ∷ []; next = 0 }

removed : remove batches 2 ≡ some fewer
unfolding remove
removed = refl
