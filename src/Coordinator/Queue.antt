-- ===== src/Coordinator/Queue.antt =====
-- The queue of batches of the transaction manager (`Queue` of coordinator/txmanager.go), over any
-- batches.
pub mod Laws
use han_hermez_node.Prelude.{
  ℕ, zero, suc, ◌+◌, ◌%◌, Option, none, some, List, [], ◌∷◌, ◌++◌, ltb, leb, ◌==◌, if◌then◌else◌,
  length, take, drop,
}

module _ {ℓ} (A : Type ℓ) where
  -- `Queue`
  pub record Queue : Type ℓ where
    pub list : List A
    pub next : ℕ

module _ {ℓ} {A : Type ℓ} where
  -- `NewQueue`
  unfoldable pub new_queue : Queue A
  new_queue = record { list = []; next = 0 }

  -- Go's index, in or out of range.
  unfoldable pub get_elem? : List A → ℕ → Option A
  get_elem? [] i = none
  get_elem? (x ∷ xs) zero = some x
  get_elem? (x ∷ xs) (suc i) = get_elem? xs i

  -- `At`; nil is none.
  unfoldable pub at : Queue A → ℕ → Option A
  at q position = if leb (length q.list) position then none else get_elem? q.list position

  -- `Next`: the position, the batch, and the queue after the deferred step.
  unfoldable pub next : Queue A → (ℕ × Option A) × Queue A
  next q =
      if length q.list == 0
      then ((0, none), q)
      else ((q.next, get_elem? q.list q.next), record q { next = (q.next + 1) % length q.list })

  -- `Remove`; none is the panic of a position out of range.
  unfoldable pub remove : Queue A → ℕ → Option (Queue A)
  remove q position =
      if ltb position (length q.list)
      then (let list = take position q.list ++ drop (position + 1) q.list in
          some (
            if length list == 0
            then record { list = list; next = 0 }
            else record { list = list; next = position % length list }))
      else none

  -- `Push`
  unfoldable pub push : Queue A → A → Queue A
  push q x = record q { list = q.list ++ x ∷ [] }
