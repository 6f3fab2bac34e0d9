-- ===== src/TxSelector/Selection/Keeps.antt =====
-- What the selection loop of `getL1L2TxSelection` keeps, and how it ends.
use han_hermez_node.Common.Tx.{PoolL2Tx}
use han_hermez_node.TxProcessor.State.{TxProcessor, Config}
use han_hermez_node.TxSelector.State.{FailedAtomicGroup, empty_atomic_group_id}
use han_hermez_node.TxSelector.Pick.{Flow, next, skip, group_failed, stop}
use han_hermez_node.TxSelector.Groups.Failed.{of_group}
use han_hermez_node.TxSelector.Step.Loop.{BlamesOne}
use han_hermez_node.TxSelector.Step.Partition.{ids}
use han_hermez_node.TxSelector.Groups.Together.{members, together}
use han_hermez_node.TxSelector.Selection.{Chosen}
use han_hermez_node.Prelude.{
  ℕ, ◌+◌, ◌≤◌, ◌<◌, ◌≡◌, sym, ◌∙◌, ◌≢◌, ◌⊎◌, inl, inr, Bool, true, Option, none, some, List, [],
  ◌∷◌, arith, length, count_if,
}

-- Nothing of the atomic group is selected, what is left of it stands together, and not both some is
-- left and some discarded; or all of it is selected.
unfoldable pub GoesWhole : ℕ → Chosen → List PoolL2Tx → Type 0
GoesWhole a ch txs =
    (((members a ch.selected ≡ 0) × (together a txs ≡ true))
      × ((members a txs ≡ 0) ⊎ (members a ch.discarded ≡ 0)))
    ⊎ ((members a txs ≡ 0) × (members a ch.discarded ≡ 0))

-- The batch within its limits, and each of the transactions that `total` counts either selected,
-- discarded or in the list of those that are left.
pub record Keeps (config : Config) (n_user : ℕ) (total : (ℕ → ℕ → Bool) → ℕ) (ch : Chosen)
    (txs : List PoolL2Tx) : Type 0 where
  pub all_txs : n_user + length ch.l1_coordinator_txs + length ch.selected ≤ config.max_tx
  pub l1_txs : n_user + length ch.l1_coordinator_txs ≤ config.max_l1_tx
  pub auths : length ch.acc_auths ≡ length ch.l1_coordinator_txs
  pub counts :
      (test : ℕ → ℕ → Bool)
      → count_if (ids test) ch.selected + count_if (ids test) ch.discarded + count_if (ids test) txs
        ≡ total test
  pub groups : (a : ℕ) → a ≢ empty_atomic_group_id → GoesWhole a ch txs

-- A group with an identifier has a transaction in the list.
pub record Found (txs : List PoolL2Tx) (g : FailedAtomicGroup) : Type 0 where
  pub atomic : g.id ≢ empty_atomic_group_id
  pub count : 0 < count_if (ids (of_group g)) txs

pub BlamesOne-Found : (txs : List PoolL2Tx) (g : FailedAtomicGroup) → BlamesOne txs g → Found txs g
unfolding BlamesOne count_if
BlamesOne-Found [] g b = elim b [ ]
BlamesOne-Found (tx ∷ rest) g (inl b) = record {
  atomic = λ e. b.atomic (sym b.id ∙ e);
  count = ground (arith, b.id);
}
BlamesOne-Found (tx ∷ rest) g (inr b) =
    let h = BlamesOne-Found rest g b in
    record { atomic = h.atomic; count = ground (arith, h.count) }

module _ (config : Config) (n_user : ℕ) (total : (ℕ → ℕ → Bool) → ℕ) (txs : List PoolL2Tx) where
  -- How the selection loop ends: with the invariant and no transaction left, with a group of one of
  -- its transactions that failed, or with an error.
  unfoldable pub Ends : Option (Flow Chosen × TxProcessor) → Type 0
  Ends none = ⊥
  Ends (some (next ch, p)) = Keeps config n_user total ch []
  Ends (some (skip, p)) = ⊥
  Ends (some (group_failed g, p)) = Found txs g
  Ends (some (stop e, p)) = Unit

module _ (config : Config) (n_user : ℕ) (total : (ℕ → ℕ → Bool) → ℕ) where
  pub Ends-weaken :
      (txs rest : List PoolL2Tx) (r : Option (Flow Chosen × TxProcessor))
      → ((test : ℕ → ℕ → Bool) → count_if (ids test) rest ≤ count_if (ids test) txs)
      → Ends config n_user total rest r
      → Ends config n_user total txs r
  unfolding Ends
  Ends-weaken txs rest none le h = h
  Ends-weaken txs rest (some (next ch, p)) le h = h
  Ends-weaken txs rest (some (skip, p)) le h = h
  Ends-weaken txs rest (some (group_failed g, p)) le h = record {
    atomic = h.atomic;
    count = omega (arith, h.count, le (of_group g));
  }
  Ends-weaken txs rest (some (stop e, p)) le h = tt
