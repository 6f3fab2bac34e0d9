-- ===== src/TxSelector/Pick.antt =====
-- The body of the loop of `processL2Txs` (txselector/txselector.go): a step goes on, skips the rest
-- of the body (`continue`), fails the transaction's atomic group, or returns an error.
pub mod Leads
pub mod Passes
use han_hermez_node.Common.Tx.{PoolL2Tx}
use han_hermez_node.TxProcessor.State.{TxProcessor}
use han_hermez_node.Exec.{Exec}
use han_hermez_node.TxSelector.State.{Selection, FailedAtomicGroup, empty_atomic_group_id}
use han_hermez_node.Prelude.{
  ℕ, ◌+◌, ◌-◌, ◌≡◌, refl, ◌⊎◌, inl, inr, Bool, [], ◌∷◌, ◌++◌, ◌==◌, if◌then◌else◌, Error, Result,
  ok, err,
}

pub data Flow (A : Type 0) : Type 0 where
  next : A → Flow A
  skip : Flow A
  group_failed : FailedAtomicGroup → Flow A
  stop : Error → Flow A

pub Flow-cases :
    (r : Flow (Unit {0}))
    → (r ≡ next tt)
      ⊎ ((r ≡ skip)
          ⊎ (((g : FailedAtomicGroup) × (r ≡ group_failed g)) ⊎ ((e : Error) × (r ≡ stop e))))
Flow-cases (next a) = inl refl
Flow-cases skip = inr (inl refl)
Flow-cases (group_failed g) = inr (inr (inl (g, refl)))
Flow-cases (stop e) = inr (inr (inr (e, refl)))

abbrev pub Pick : Type 0 → Type 0
Pick A = Selection → Flow A × Selection

-- The rest of a body after a step's flow.
unfoldable pub resume : {A B : Type 0} → (A → Pick B) → Flow A → Selection → Flow B × Selection
resume f (next a) s = f a s
resume f skip s = (skip, s)
resume f (group_failed g) s = (group_failed g, s)
resume f (stop e) s = (stop e, s)

infixl 5 ◌>>=◌ ◌>>◌
unfoldable pub ◌>>=◌ : {A B : Type 0} → Pick A → (A → Pick B) → Pick B
◌>>=◌ m f s = resume f (m s).0 (m s).1

unfoldable pub ◌>>◌ : {A B : Type 0} → Pick A → Pick B → Pick B
m >> n = m >>= λ _. n

module _ {A : Type 0} where
  unfoldable pub pure : A → Pick A
  pure a s = (next a, s)

  unfoldable pub lift : Result A → Pick A
  lift (ok a) s = (next a, s)
  lift (err e) s = (stop e, s)

  unfoldable pub gets : (Selection → A) → Pick A
  gets f s = (next (f s), s)

unfoldable pub modify : (Selection → Selection) → Pick (Unit {0})
modify f s = (next tt, f s)

-- A step of the processor that must not fail.
unfoldable pub process : {A : Type 0} → Exec TxProcessor A → Pick A
process m s = let (r, p) = m s.tp in lift r (record s { tp = p })

-- The end of an iteration: after a `continue` the loop goes on.
unfoldable pub end_iteration : Flow (Unit {0}) → Flow (Unit {0})
end_iteration (next a) = next a
end_iteration skip = next tt
end_iteration (group_failed g) = group_failed g
end_iteration (stop e) = stop e

unfoldable pub iteration : Pick (Unit {0}) → Pick (Unit {0})
iteration m s = (end_iteration (m s).0, (m s).1)

abbrev pub add_non_selected : PoolL2Tx → Selection → Selection
add_non_selected tx s = record s { non_selected = s.non_selected ++ tx ∷ [] }

abbrev pub add_unforjable : PoolL2Tx → Selection → Selection
add_unforjable tx s = record s { unforjable = s.unforjable ++ tx ∷ [] }

-- A rejection, which every test of the body ends in: the atomic group fails, or the transaction is
-- marked and put into one of the arrays.
unfoldable pub discard : {A : Type 0} → (PoolL2Tx → Selection → Selection) → ℕ → PoolL2Tx → Pick A
discard put code tx s =
    if tx.atomic_group_id == empty_atomic_group_id
    then (skip, put (record tx { error_code = code }) s)
    else (
      group_failed (record { id = tx.atomic_group_id; failed_tx_id = tx.tx_id; reason = code }),
      s,
    )

-- `if !test { discard }`
unfoldable pub require : (PoolL2Tx → Selection → Selection) → ℕ → PoolL2Tx → Bool → Pick (Unit {0})
require put code tx test = if test then pure tt else discard put code tx
