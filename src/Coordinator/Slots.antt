-- ===== src/Coordinator/Slots.antt =====
-- The slots of the auction (common/ethauction.go and common/bid.go) and the decision to forge in one
-- (`canForge` of coordinator/coordinator.go). Block numbers and slot numbers are not negative; a
-- difference that may be negative is a sign and a magnitude.
pub mod Laws
use han_hermez_node.Prelude.{
  ℕ, ◌+◌, ◌-◌, ◌*◌, ◌/◌, Bool, true, false, not, ◌&&◌, ◌||◌, ltb, leb, ◌==◌, if◌then◌else◌,
}

-- The fields of `AuctionConstants`, `AuctionVariables` and `Slot` that the decision reads.
pub record AuctionConstants : Type 0 where
  pub blocks_per_slot : ℕ
  pub genesis_block_num : ℕ

pub record AuctionVariables : Type 0 where
  pub slot_deadline : ℕ

pub record Slot : Type 0 where
  pub start_block : ℕ
  pub end_block : ℕ
  pub forger_commitment : Bool
  pub forger : ℕ

-- Whether a number is negative, and its magnitude.
abbrev pub Signed : Type 0
Signed = Bool × ℕ

-- `SlotNum`; Go's division of a negative number truncates.
unfoldable pub slot_num : AuctionConstants → ℕ → Signed
slot_num k block =
    if leb k.genesis_block_num block
    then (false, (block - k.genesis_block_num) / k.blocks_per_slot)
    else (true, (k.genesis_block_num - block) / k.blocks_per_slot)

-- `SlotBlocks`
unfoldable pub slot_blocks : AuctionConstants → ℕ → ℕ × ℕ
slot_blocks k slot =
    let start = k.genesis_block_num + slot * k.blocks_per_slot in
    (start, start + k.blocks_per_slot - 1)

-- `RelativeBlock`: what is left of the distance to the genesis block.
unfoldable pub relative_block : AuctionConstants → ℕ → Signed
relative_block k block =
    let (negative, slot) = slot_num k block in
    if negative
    then (true, k.genesis_block_num - block - slot * k.blocks_per_slot)
    else (false, block - (k.genesis_block_num + slot * k.blocks_per_slot))

-- `relative >= n` for an `n` that is not negative; a negative zero is zero.
unfoldable pub at_least : Signed → ℕ → Bool
at_least (false, m) n = leb n m
at_least (true, m) n = m == 0 && n == 0

unfoldable pub in_slot : ℕ → Slot → Bool
in_slot block slot = leb slot.start_block block && leb block slot.end_block

-- The end of `canForge`, with the slot of the block.
unfoldable pub can_forge_in : AuctionConstants → AuctionVariables → Slot → ℕ → ℕ → Bool → Bool
can_forge_in k vars slot addr block must_forge_at_deadline =
    let anyone_forge =
      not slot.forger_commitment && at_least (relative_block k block) vars.slot_deadline in
    slot.forger == addr || (anyone_forge && must_forge_at_deadline)

-- `canForge`
unfoldable pub can_forge : AuctionConstants → AuctionVariables → Slot → Slot → ℕ → ℕ → Bool → Bool
can_forge k vars current_slot next_slot addr block must_forge_at_deadline =
    if ltb block k.genesis_block_num
    then false
    else if in_slot block current_slot
    then can_forge_in k vars current_slot addr block must_forge_at_deadline
    else if in_slot block next_slot
    then can_forge_in k vars next_slot addr block must_forge_at_deadline
    else false
