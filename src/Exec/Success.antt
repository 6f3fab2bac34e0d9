-- ===== src/Exec/Success.antt =====
-- What a chain of methods that returns without an error tells of its links.
use han_hermez_node.Exec.{Exec, ensure, ◌>>=◌}
use han_hermez_node.Prelude.{◌≡◌, refl, inl, inr, Bool, true, false, arith, Error, ok, Result-cases}

module _ {S A B : Type 0} where
  -- The first method's result, and the run of the rest from the state that it left.
  pub record Succeeds (m : Exec S A) (f : A → Exec S B) (s : S) (b : B) : Type 0 where
    pub value : A
    pub first : (m s).0 ≡ ok value
    pub rest : (f value (m s).1).0 ≡ ok b
    pub state : ((m >>= f) s).1 ≡ (f value (m s).1).1

  pub >>=-Succeeds :
      (m : Exec S A) (f : A → Exec S B) (s : S) {b : B} → ((m >>= f) s).0 ≡ ok b → Succeeds m f s b
  >>=-Succeeds m f s {b} done = elim (Result-cases (m s).0) [
    | inl (a, e) ↦ record {
      value = a;
      first = e;
      rest = ground (arith, e);
      state = ground (arith, e);
    }
    | inr (x, e) ↦ ground (arith, e)
  ]

pub ensure_ok :
    {S : Type 0} (test : Bool) (x : Error) (s : S)
    → (ensure test x s).0 ≡ ok tt
    → (test ≡ true) × ((ensure test x s).1 ≡ s)
ensure_ok true x s done = (refl, refl)
ensure_ok false x s done = ground arith
