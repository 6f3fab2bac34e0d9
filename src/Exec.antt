-- ===== src/Exec.antt =====
-- Methods that change a state and may return an error. What was written before the error stays
-- written, so the state comes back beside it.
pub mod Success
pub mod Ensures
use han_hermez_node.Prelude.{Result, ok, err, Error, Bool, true, false}

abbrev pub Exec : Type 0 → Type 0 → Type 0
Exec S A = S → Result A × S

module _ {S A : Type 0} where
  abbrev pub pure : A → Exec S A
  pure a s = (ok a, s)

  abbrev pub raise : Error → Exec S A
  raise e s = (err e, s)

  abbrev pub lift : Result A → Exec S A
  lift r s = (r, s)

  -- A read that may fail.
  abbrev pub reads : (S → Result A) → Exec S A
  reads f s = (f s, s)

  -- A read that cannot.
  abbrev pub gets : (S → A) → Exec S A
  gets f s = (ok (f s), s)

abbrev pub modify : {S : Type 0} → (S → S) → Exec S (Unit {0})
modify f s = (ok tt, f s)

abbrev pub ensure : {S : Type 0} → Bool → Error → Exec S (Unit {0})
ensure true e s = (ok tt, s)
ensure false e s = (err e, s)

infixl 5 ◌>>=◌ ◌>>◌
abbrev pub ◌>>=◌ : {S A B : Type 0} → Exec S A → (A → Exec S B) → Exec S B
◌>>=◌ m f s = let (r, s') = m s in elim r [ ok a ↦ f a s' | err e ↦ (err e, s') ]

abbrev pub ◌>>◌ : {S A B : Type 0} → Exec S A → Exec S B → Exec S B
m >> n = m >>= λ _. n

-- An action on a part of the state.
abbrev pub zoom : {S T A : Type 0} → (S → T) → (T → S → S) → Exec T A → Exec S A
zoom view put m s = let (r, t) = m (view s) in (r, put t s)
