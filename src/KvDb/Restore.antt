-- ===== src/KvDb/Restore.antt =====
-- A checkpoint that was made can be gone back to (`MakeCheckpoint`, `Reset` of db/kvdb/kvdb.go).
use han_hermez_node.KvDb.{KvDb}
use han_hermez_node.Prelude.{ℕ, ◌≤◌, ◌<◌, List, [], ◌∷◌, arith}

module _ {D : Type 0} where
  -- The checkpoints are in the order of their numbers, all above a bound.
  unfoldable pub SortedFrom : ℕ → List (ℕ × D) → Type 0
  SortedFrom n [] = Unit
  SortedFrom n ((m, e) ∷ l) = (n < m) × SortedFrom m l

  SortedFrom-weaken : (k n : ℕ) (l : List (ℕ × D)) → k ≤ n → SortedFrom n l → SortedFrom k l
  unfolding SortedFrom
  SortedFrom-weaken k n [] le s = tt
  SortedFrom-weaken k n ((m, e) ∷ l) le (lt, s) = (omega arith, s)
