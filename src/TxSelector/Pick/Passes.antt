-- ===== src/TxSelector/Pick/Passes.antt =====
-- What a body that goes on to its end tells of its parts.
use han_hermez_node.Common.Tx.{PoolL2Tx}
use han_hermez_node.TxSelector.State.{Selection, empty_atomic_group_id}
use han_hermez_node.TxSelector.Pick.{
  Flow, next, skip, group_failed, stop, Pick, ◌>>=◌, ◌>>◌, resume, pure, lift, gets, discard,
  require,
}
use han_hermez_node.Prelude.{
  ℕ, ◌≡◌, refl, inl, inr, Bool, true, false, arith, ◌==◌, Bool-cases, Result, ok, err,
}

module _ {A B : Type 0} {b : B} {s' : Selection} where
  resume-Passes :
      (f : A → Pick B) (r : Flow A) (s : Selection)
      → resume f r s ≡ (next b, s')
      → (a : A) × ((r ≡ next a) × (f a s ≡ (next b, s')))
  unfolding resume
  resume-Passes f (next a) s done = (a, (refl, done))
  resume-Passes f skip s done = ground (arith, done)
  resume-Passes f (group_failed g) s done = ground (arith, done)
  resume-Passes f (stop e) s done = ground (arith, done)

  pub >>=-Passes :
      (m : Pick A) (f : A → Pick B) (s : Selection)
      → (m >>= f) s ≡ (next b, s')
      → (a : A) × (((m s).0 ≡ next a) × (f a (m s).1 ≡ (next b, s')))
  unfolding ◌>>=◌
  >>=-Passes m f s done = resume-Passes f (m s).0 (m s).1 done

  pub gets-Passes :
      (g : Selection → A) (f : A → Pick B) (s : Selection)
      → (gets g >>= f) s ≡ (next b, s')
      → f (g s) s ≡ (next b, s')
  unfolding ◌>>=◌ gets resume
  gets-Passes g f s done = done

  pub lift-Passes :
      (r : Result A) (f : A → Pick B) (s : Selection)
      → (lift r >>= f) s ≡ (next b, s')
      → (a : A) × ((r ≡ ok a) × (f a s ≡ (next b, s')))
  unfolding ◌>>=◌ lift resume
  lift-Passes (ok a) f s done = (a, (refl, done))
  lift-Passes (err e) f s done = ground (arith, done)

module _ {B : Type 0} {b : B} {s' : Selection} where
  pub require-Passes :
      (put : PoolL2Tx → Selection → Selection) (code : ℕ) (tx : PoolL2Tx) (test : Bool) (n : Pick B)
      (s : Selection)
      → (require put code tx test >> n) s ≡ (next b, s')
      → (test ≡ true) × (n s ≡ (next b, s'))
  unfolding ◌>>◌ ◌>>=◌ require discard resume pure
  require-Passes put code tx true n s done = (refl, done)
  require-Passes put code tx false n s done =
      elim (Bool-cases (tx.atomic_group_id == empty_atomic_group_id)) [
        | inl e ↦ ground (arith, done, e)
        | inr e ↦ ground (arith, done, e)
      ]
