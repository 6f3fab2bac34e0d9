-- ===== src/Coordinator/Slots/Laws.antt =====
-- The slots cut the blocks from the genesis block on, and the forger is decided by the slot alone.
use native.Mathlib.Nat.{mod-lt, div-add-mod, div-eq_of_lt-le}
use han_hermez_node.Coordinator.Slots.{
  AuctionConstants, AuctionVariables, Slot, slot_num, slot_blocks, relative_block, at_least,
  in_slot, can_forge_in, can_forge,
}
use han_hermez_node.Prelude.{
  ℕ, ◌+◌, ◌-◌, ◌*◌, ◌/◌, ◌%◌, ◌≤◌, ◌<◌, ◌≡◌, refl, subst, ◌↔◌, ◌⊎◌, inl, inr, Bool, true, false,
  arith, ltb, ◌==◌, Bool-cases,
}

div-split : (n m : ℕ) → n / m * m + n % m ≡ n
div-split n m = omega (arith, div-add-mod n m)

module _ (k : AuctionConstants) (some_block : 0 < k.blocks_per_slot) where
  -- Where a slot has a block: a block is one of a slot's blocks just where it is not before the
  -- genesis block and has the slot's number.
  slot_num-slot_blocks :
      (block slot : ℕ)
      → let (first, last) = slot_blocks k slot in
        ((first ≤ block) × (block ≤ last))
        ↔ ((k.genesis_block_num ≤ block) × (slot_num k block ≡ (false, slot)))
  unfolding slot_blocks slot_num
  slot_num-slot_blocks block slot =
      let n = k.blocks_per_slot in
      let distance = block - k.genesis_block_num in
      (
        λ h. (
          omega (arith, h.0),
          let is : distance / n ≡ slot =
                div-eq_of_lt-le {k = slot} n (omega (arith, h.0)) (omega (arith, h.0, h.1)) in
              ground (arith, h.0, is),
        ),
        λ h.
            let late = h.0 in
            let is : distance / n ≡ slot = ground (arith, late, h.1) in
            let split : slot * n + distance % n ≡ distance =
              subst (λ x. x * n + distance % n ≡ distance) is (div-split distance n) in
            (omega (arith, late, split), omega (arith, late, split, mod-lt distance some_block)),
      )

  -- Where a slot has a block: a block from the genesis block on is the relative block's distance
  -- behind the first block of its slot, and that distance is less than the slot's length.
  relative_block-slot_blocks :
      (block : ℕ)
      → k.genesis_block_num ≤ block
      → (relative : ℕ) × ((relative_block k block ≡ (false, relative))
          × ((relative < k.blocks_per_slot)
              × ((slot_blocks k (slot_num k block).1).0 + relative ≡ block)))
  unfolding slot_blocks slot_num relative_block
  relative_block-slot_blocks block late =
      let distance = block - k.genesis_block_num in
      let split = div-split distance k.blocks_per_slot in
      (
        distance % k.blocks_per_slot,
        (ground (arith, late, split), (mod-lt distance some_block, ground (arith, late, split))),
      )

can_forge_in_iff :
    (k : AuctionConstants) (vars : AuctionVariables) (slot : Slot) (addr block : ℕ)
    (at_deadline : Bool)
    → (can_forge_in k vars slot addr block at_deadline ≡ true) ↔ (
        (slot.forger ≡ addr)
        ⊎ ((at_deadline ≡ true)
            × ((slot.forger_commitment ≡ false)
                × (at_least (relative_block k block) vars.slot_deadline ≡ true))))
unfolding can_forge_in
can_forge_in_iff k vars slot addr block at_deadline = (
  λ h. elim (Bool-cases (slot.forger == addr)) [
    | inl e ↦ inl (ground (arith, e))
    | inr n ↦ inr (ground (arith, h, n), (ground (arith, h, n), ground (arith, h, n)))
  ],
  λ h. elim h [ inl e ↦ ground (arith, e) | inr (d, (f, r)) ↦ ground (arith, d, f, r) ],
)

can_forge_slot :
    (k : AuctionConstants) (vars : AuctionVariables) (current_slot next_slot : Slot)
    (addr block : ℕ) (at_deadline : Bool)
    → (can_forge k vars current_slot next_slot addr block at_deadline ≡ true) ↔ (
        (k.genesis_block_num ≤ block)
        × ((slot : Slot) × (((slot ≡ current_slot)
                ⊎ ((slot ≡ next_slot) × (in_slot block current_slot ≡ false)))
              × ((in_slot block slot ≡ true)
                  × ((slot.forger ≡ addr)
                      ⊎ ((at_deadline ≡ true)
                          × ((slot.forger_commitment ≡ false)
                              × (at_least (relative_block k block) vars.slot_deadline ≡ true))))))))
unfolding can_forge
can_forge_slot k vars current_slot next_slot addr block at_deadline = (
  λ h. elim (Bool-cases (ltb block k.genesis_block_num)) [
    | inl early ↦ ground (arith, h, early)
    | inr late ↦ (
      ground (arith, late),
      elim (Bool-cases (in_slot block current_slot)) [
        | inl now ↦ (
          current_slot,
          (
            inl refl,
            (
              now,
              (can_forge_in_iff k vars current_slot addr block at_deadline).0
                  (ground (arith, h, late, now)),
            ),
          ),
        )
        | inr later ↦ elim (Bool-cases (in_slot block next_slot)) [
          | inl soon ↦ (
            next_slot,
            (
              inr (refl, later),
              (
                soon,
                (can_forge_in_iff k vars next_slot addr block at_deadline).0
                    (ground (arith, h, late, later, soon)),
              ),
            ),
          )
          | inr never ↦ ground (arith, h, late, later, never)
        ]
      ],
    )
  ],
  λ h.
      let (late, (slot, (which, (here, allowed)))) = h in
      let may = (can_forge_in_iff k vars slot addr block at_deadline).1 allowed in
      elim which [
        | inl e ↦
            let now : in_slot block current_slot ≡ true =
              subst (λ x. in_slot block x ≡ true) e here in
            let goes = subst (λ x. can_forge_in k vars x addr block at_deadline ≡ true) e may in
            ground (arith, late, now, goes)
        | inr (e, later) ↦
            let soon : in_slot block next_slot ≡ true =
              subst (λ x. in_slot block x ≡ true) e here in
            let goes = subst (λ x. can_forge_in k vars x addr block at_deadline ≡ true) e may in
            ground (arith, late, later, soon, goes)
      ],
)

-- The block is one of a slot's.
abbrev pub Within : ℕ → Slot → Type 0
Within block slot = (slot.start_block ≤ block) × (block ≤ slot.end_block)

in_slot_iff : (block : ℕ) (slot : Slot) → (in_slot block slot ≡ true) ↔ Within block slot
unfolding in_slot
in_slot_iff block slot = (λ e. ground (arith, e), λ h. ground (arith, h))

not_in_slot_iff : (block : ℕ) (slot : Slot) → (in_slot block slot ≡ false) ↔ (¬ Within block slot)
unfolding in_slot
not_in_slot_iff block slot = (λ e h. ground (arith, e, h), λ no. ground (arith, no))

-- The relative block is what the length of a slot leaves of the distance to the genesis block.
at_least_iff :
    (k : AuctionConstants) (block n : ℕ)
    → k.genesis_block_num ≤ block
    → (at_least (relative_block k block) n ≡ true)
      ↔ (n ≤ (block - k.genesis_block_num) % k.blocks_per_slot)
unfolding at_least relative_block slot_num
at_least_iff k block n late =
    let split = div-split (block - k.genesis_block_num) k.blocks_per_slot in
    (λ e. ground (arith, e, late, split), λ h. ground (arith, h, late, split))

-- `canForge` is true just where the block is not before the genesis block, and lies in the current slot,
-- or in the next and not in the current one, from the slot's start to its end, both included; and in that
-- slot either the address is the forger's, or the coordinator is to forge at the deadline, the slot has no
-- batch, and the block is at least the deadline behind the start of its slot, as the slots of a fixed
-- length are counted from the genesis block.
pub can_forge_iff :
    (k : AuctionConstants) (vars : AuctionVariables) (current_slot next_slot : Slot)
    (addr block : ℕ) (at_deadline : Bool)
    → (can_forge k vars current_slot next_slot addr block at_deadline ≡ true) ↔ (
        (k.genesis_block_num ≤ block)
        × ((slot : Slot) × (((slot ≡ current_slot)
                ⊎ ((slot ≡ next_slot) × (¬ Within block current_slot)))
              × (Within block slot
                  × ((slot.forger ≡ addr)
                      ⊎ ((at_deadline ≡ true)
                          × ((slot.forger_commitment ≡ false)
                              × (vars.slot_deadline
                                  ≤ (block - k.genesis_block_num) % k.blocks_per_slot))))))))
can_forge_iff k vars current_slot next_slot addr block at_deadline =
    let cases = can_forge_slot k vars current_slot next_slot addr block at_deadline in
    (
      λ h.
          let (late, (slot, (which, (here, allowed)))) = cases.0 h in
          (
            late,
            (
              slot,
              (
                elim which [
                  | inl e ↦ inl e
                  | inr (e, away) ↦ inr (e, (not_in_slot_iff block current_slot).0 away)
                ],
                (
                  (in_slot_iff block slot).0 here,
                  elim allowed [
                    | inl e ↦ inl e
                    | inr (d, (f, r)) ↦
                        inr (d, (f, (at_least_iff k block vars.slot_deadline late).0 r))
                  ],
                ),
              ),
            ),
          ),
      λ h.
          let (late, (slot, (which, (here, allowed)))) = h in
          cases.1 (
            late,
            (
              slot,
              (
                elim which [
                  | inl e ↦ inl e
                  | inr (e, away) ↦ inr (e, (not_in_slot_iff block current_slot).1 away)
                ],
                (
                  (in_slot_iff block slot).1 here,
                  elim allowed [
                    | inl e ↦ inl e
                    | inr (d, (f, r)) ↦
                        inr (d, (f, (at_least_iff k block vars.slot_deadline late).1 r))
                  ],
                ),
              ),
            ),
          ),
    )
