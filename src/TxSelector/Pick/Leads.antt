-- ===== src/TxSelector/Pick/Leads.antt =====
-- What a part of the loop's body leads to: one postcondition for each way that it can end, and one
-- rule for each way to build a part.
use han_hermez_node.Common.Tx.{PoolL2Tx}
use han_hermez_node.TxProcessor.State.{TxProcessor}
use han_hermez_node.Exec.{Exec}
use han_hermez_node.TxSelector.State.{Selection, FailedAtomicGroup, empty_atomic_group_id}
use han_hermez_node.TxSelector.Pick.{
  Flow, next, skip, group_failed, stop, Pick, ◌>>=◌, ◌>>◌, resume, pure, lift, gets, modify,
  process, iteration, end_iteration, discard, require,
}
use han_hermez_node.Prelude.{
  ℕ, ◌≡◌, refl, ◌≢◌, inl, inr, Bool, true, false, arith, ◌==◌, Bool-cases, Result, ok, err,
}

-- `Q` where the body goes on, `R` after a `continue`, `G` of a group that failed. An error ends the
-- whole selection.
unfoldable pub After :
    {A : Type 0} (Q : A → Selection → Type 0) (R : Selection → Type 0)
    (G : FailedAtomicGroup → Type 0)
    → Flow A
    → Selection
    → Type 0
After Q R G (next a) s = Q a s
After Q R G skip s = R s
After Q R G (group_failed g) s = G g
After Q R G (stop e) s = Unit

pub record Leads {A : Type 0} (P : Selection → Type 0) (Q : A → Selection → Type 0)
    (R : Selection → Type 0) (G : FailedAtomicGroup → Type 0) (m : Pick A) : Type 0 where
  pub at : (s : Selection) → P s → After Q R G (m s).0 (m s).1

module _ (R : Selection → Type 0) (G : FailedAtomicGroup → Type 0) where
  After-end :
      (R' : Selection → Type 0) (r : Flow (Unit {0})) (s : Selection)
      → After (λ _. R) R G r s
      → After (λ _. R) R' G (end_iteration r) s
  unfolding After end_iteration
  After-end R' (next a) s h = h
  After-end R' skip s h = h
  After-end R' (group_failed g) s h = h
  After-end R' (stop e) s h = tt

  After-lift :
      {A : Type 0} (Q : A → Selection → Type 0) (r : Result A) (s : Selection)
      → ((a : A) → r ≡ ok a → Q a s)
      → After Q R G (lift r s).0 (lift r s).1
  unfolding After lift
  After-lift Q (ok a) s k = k a refl
  After-lift Q (err e) s k = tt

  After-weaken :
      {A : Type 0} (Q : A → Selection → Type 0) {G' : FailedAtomicGroup → Type 0} (f : Flow A)
      (s : Selection)
      → ((g : FailedAtomicGroup) → G g → G' g)
      → After Q R G f s
      → After Q R G' f s
  unfolding After
  After-weaken Q (next a) s k h = h
  After-weaken Q skip s k h = h
  After-weaken Q (group_failed g) s k h = k g h
  After-weaken Q (stop e) s k h = tt

module _ {R : Selection → Type 0} {G : FailedAtomicGroup → Type 0} where
  After-resume :
      {A B : Type 0} (Q : A → Selection → Type 0) {Q' : B → Selection → Type 0} (f : A → Pick B)
      (r : Flow A) (s : Selection)
      → After Q R G r s
      → ((a : A) → Leads (Q a) Q' R G (f a))
      → After Q' R G (resume f r s).0 (resume f r s).1
  unfolding After resume
  After-resume Q f (next a) s h k = (k a).at s h
  After-resume Q f skip s h k = h
  After-resume Q f (group_failed g) s h k = h
  After-resume Q f (stop e) s h k = tt
  -- What holds for sure holds wherever the body goes on.

module _ {P R : Selection → Type 0} {G : FailedAtomicGroup → Type 0} where
  pub Leads->>= :
      {A B : Type 0} {Q : A → Selection → Type 0} {Q' : B → Selection → Type 0} (m : Pick A)
      (f : A → Pick B)
      → Leads P Q R G m
      → ((a : A) → Leads (Q a) Q' R G (f a))
      → Leads P Q' R G (m >>= f)
  unfolding ◌>>=◌
  Leads->>= {Q} m f km kf = record { at = λ s h. After-resume Q f (m s).0 (m s).1 (km.at s h) kf }

  pub Leads-iteration :
      {R' : Selection → Type 0} (m : Pick (Unit {0}))
      → Leads P (λ _. R) R G m
      → Leads P (λ _. R) R' G (iteration m)
  unfolding iteration
  Leads-iteration {R'} m km = record { at = λ s h. After-end R G R' (m s).0 (m s).1 (km.at s h) }

module _ {A : Type 0} {P R : Selection → Type 0} {Q : A → Selection → Type 0}
    {G : FailedAtomicGroup → Type 0} where
  pub Leads-pure : (a : A) → ((s : Selection) → P s → Q a s) → Leads P Q R G (pure a)
  unfolding After pure
  Leads-pure a k = record { at = k }

  pub Leads-gets :
      (f : Selection → A) → ((s : Selection) → P s → Q (f s) s) → Leads P Q R G (gets f)
  unfolding After gets
  Leads-gets f k = record { at = k }

  pub Leads-lift :
      (r : Result A) → ((a : A) (s : Selection) → r ≡ ok a → P s → Q a s) → Leads P Q R G (lift r)
  Leads-lift r k = record { at = λ s h. After-lift R G Q r s (λ a e. k a s e h) }

  pub Leads-process :
      (m : Exec TxProcessor A)
      → ((a : A) (s : Selection) → P s → Q a (record s { tp = (m s.tp).1 }))
      → Leads P Q R G (process m)
  unfolding process
  Leads-process m k = record {
    at = λ s h. After-lift R G Q (m s.tp).0 (record s { tp = (m s.tp).1 }) (λ a e. k a s h);
  }

  pub Leads-weaken :
      {G' : FailedAtomicGroup → Type 0} (m : Pick A)
      → ((g : FailedAtomicGroup) → G g → G' g)
      → Leads P Q R G m
      → Leads P Q R G' m
  Leads-weaken m k h = record { at = λ s p. After-weaken R G Q (m s).0 (m s).1 k (h.at s p) }

  -- A fact that is not about the state.
  pub Leads-given : {E : Type 0} {m : Pick A} → (E → Leads P Q R G m) → Leads (λ s. P s × E) Q R G m
  Leads-given k = record { at = λ s h. (k h.1).at s h.0 }

  -- A rejection: the group of an atomic transaction fails, another is put into an array.
  pub Leads-discard :
      (put : PoolL2Tx → Selection → Selection) (code : ℕ) (tx : PoolL2Tx)
      → (tx.atomic_group_id ≡ empty_atomic_group_id
          → (s : Selection) → P s
          → R (put (record tx { error_code = code }) s))
      → (tx.atomic_group_id ≢ empty_atomic_group_id
          → G (record { id = tx.atomic_group_id; failed_tx_id = tx.tx_id; reason = code }))
      → Leads P Q R G (discard put code tx)
  unfolding After discard
  Leads-discard put code tx r g = record {
    at = λ s h. elim (Bool-cases (tx.atomic_group_id == empty_atomic_group_id)) [
      | inl e ↦ rw e (r (ground (arith, e)) s h)
      | inr e ↦ rw e (g (ground (arith, e)))
    ];
  }

module _ {P R : Selection → Type 0} {Q : Unit {0} → Selection → Type 0}
    {G : FailedAtomicGroup → Type 0} where
  pub Leads-modify :
      (f : Selection → Selection) → ((s : Selection) → P s → Q tt (f s)) → Leads P Q R G (modify f)
  unfolding After modify
  Leads-modify f k = record { at = k }

  pub Leads-require :
      (put : PoolL2Tx → Selection → Selection) (code : ℕ) (tx : PoolL2Tx) (test : Bool)
      → (test ≡ true → (s : Selection) → P s → Q tt s)
      → (tx.atomic_group_id ≡ empty_atomic_group_id
          → (s : Selection) → P s
          → R (put (record tx { error_code = code }) s))
      → (tx.atomic_group_id ≢ empty_atomic_group_id
          → G (record { id = tx.atomic_group_id; failed_tx_id = tx.tx_id; reason = code }))
      → Leads P Q R G (require put code tx test)
  unfolding After require pure
  Leads-require put code tx true q r g = record { at = q refl }
  Leads-require put code tx false q r g = Leads-discard put code tx r g

module _ {A B : Type 0} {P Q : Selection → Type 0} {Q' : B → Selection → Type 0}
    {R : Selection → Type 0} {G : FailedAtomicGroup → Type 0} where
  -- Where the rest needs nothing of the value.
  pub Leads->> :
      (m : Pick A) (n : Pick B)
      → Leads P (λ _. Q) R G m
      → Leads Q Q' R G n
      → Leads P Q' R G (m >> n)
  unfolding ◌>>◌
  Leads->> m n km kn = Leads->>= m (λ _. n) km (λ _. kn)
