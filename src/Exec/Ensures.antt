-- ===== src/Exec/Ensures.antt =====
-- What a method establishes, one rule for each way to build a method.
use han_hermez_node.Exec.{Exec, pure, gets, modify, ensure, zoom, ◌>>=◌}
use han_hermez_node.Prelude.{◌≡◌, refl, Bool, true, false, Result, ok, err, Error, if◌then◌else◌}

module _ {S A : Type 0} where
  -- After a result, and after an error
  abbrev pub Outcome : (A → S → Type 0) → (S → Type 0) → Result A × S → Type 0
  Outcome Q E (ok a, s) = Q a s
  Outcome Q E (err x, s) = E s

  -- From a state with `P` the method returns a result with `Q`, or an error with `E`.
  pub record Ensures (P : S → Type 0) (m : Exec S A) (Q : A → S → Type 0) (E : S → Type 0)
      : Type 0 where
    pub at : (s : S) → P s → Outcome Q E (m s)

module _ {S A : Type 0} {P E : S → Type 0} where
  pub Ensures-pure : {Q : A → S → Type 0} (a : A) → ((s : S) → P s → Q a s) → Ensures P (pure a) Q E
  Ensures-pure a h = record { at = h }

  pub Ensures-gets :
      {Q : A → S → Type 0} (f : S → A) → ((s : S) → P s → Q (f s) s) → Ensures P (gets f) Q E
  Ensures-gets f h = record { at = h }

  pub Ensures-if :
      {Q : A → S → Type 0} (b : Bool) (m n : Exec S A)
      → (b ≡ true → Ensures P m Q E)
      → (b ≡ false → Ensures P n Q E)
      → Ensures P (if b then m else n) Q E
  Ensures-if true m n km kn = km refl
  Ensures-if false m n km kn = kn refl

  -- A weaker condition after it
  pub Ensures-after :
      {Q R : A → S → Type 0} {m : Exec S A}
      → Ensures P m Q E
      → ((a : A) (s : S) → Q a s → R a s)
      → Ensures P m R E
  Ensures-after {Q} {R} {m} h k = record { at = λ s p. go (m s) (h.at s p) }
    where
      go : (r : Result A × S) → Outcome Q E r → Outcome R E r
      go (ok a, s) q = k a s q
      go (err x, s) q = q

-- A call on a part of the state that no condition reads
pub Ensures-zoom :
    {S T A : Type 0} {P : S → Type 0} (view : S → T) (put : T → S → S) (m : Exec T A)
    → ((s : S) (t : T) → P s → P (put t s))
    → Ensures P (zoom view put m) (λ _. P) P
Ensures-zoom {S} {T} {A} {P} view put m keep = record { at = λ s p. go (m (view s)) s p }
  where
    go : (r : Result A × T) (s : S) → P s → Outcome {A = A} (λ _. P) P (r.0, put r.1 s)
    go (ok a, t) s p = keep s t p
    go (err x, t) s p = keep s t p

module _ {S : Type 0} {P E : S → Type 0} where
  pub Ensures-modify :
      {Q : S → Type 0} (f : S → S) → ((s : S) → P s → Q (f s)) → Ensures P (modify f) (λ _. Q) E
  Ensures-modify f h = record { at = h }

pub Ensures-ensure :
    {S : Type 0} {P : S → Type 0} (b : Bool) (x : Error)
    → Ensures P (ensure b x) (λ _ s. P s × (b ≡ true)) P
Ensures-ensure true x = record { at = λ s p. (p, refl) }
Ensures-ensure false x = record { at = λ s p. p }

module _ {S A B : Type 0} {P E : S → Type 0} {Q : A → S → Type 0} {R : B → S → Type 0} where
  pub Ensures-bind :
      (m : Exec S A) (f : A → Exec S B)
      → Ensures P m Q E
      → ((a : A) → Ensures (Q a) (f a) R E)
      → Ensures P (m >>= f) R E
  Ensures-bind m f km kf = record { at = λ s p. go (m s) (km.at s p) }
    where
      go :
          (r : Result A × S)
          → Outcome Q E r
          → Outcome R E (elim (r.0) [ ok a ↦ f a r.1 | err x ↦ (err x, r.1) ])
      go (ok a, s) q = (kf a).at s q
      go (err x, s) q = q

module _ {S A : Type 0} {P E : S → Type 0} {Q : A → S → Type 0} {m : Exec S A} where
  -- A fact that the state has no part in
  pub Ensures-given : {C : Type 0} → (C → Ensures P m Q E) → Ensures (λ s. P s × C) m Q E
  Ensures-given h = record { at = λ s p. (h p.1).at s p.0 }

  -- A weaker condition after an error
  pub Ensures-error :
      {E' : S → Type 0} → ((s : S) → E s → E' s) → Ensures P m Q E → Ensures P m Q E'
  Ensures-error {E'} k h = record { at = λ s p. go (m s) (h.at s p) }
    where
      go : (r : Result A × S) → Outcome Q E r → Outcome Q E' r
      go (ok a, s) q = q
      go (err x, s) q = k s q
