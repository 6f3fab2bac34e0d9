-- ===== src/Prelude/Results.antt =====
-- Go's `(value, error)` pair. The errors are those that the modelled code returns; a wrapped error
-- (`tracerr.Wrap`) is the error itself, and the text of a message is left out.
use mathlib.Core.Path.{◌≡◌, refl}
use mathlib.Core.Logic.{◌⊎◌, inl, inr}
use mathlib.Core.Bool.{Bool, true, false}
use native.Mathlib.Omega.{arith}
use mathlib.Core.Option.{Option, none, some}

pub data Error : Type 0 where
  idx_overflow nonce_overflow num_overflow : Error
  float40_overflow float40_e31 float40_not_enough_precission : Error
  bad_length not_in_ff poseidon_error : Error
  invalid_to_idx invalid_from_idx malformed_transaction : Error
  not_found account_already_exists merkle_tree_error nil_dereference : Error
  idx_not_found get_idx_no_case eth_addr_not_found : Error
  fee_overflow not_enough_balance : Error
  coord_idx_not_in_tree to_idx_zero checkpoint_gap checkpoint_missing no_last : Error
  too_many_coord_idxs too_many_txs too_many_l1_txs : Error
  created_in_future no_creation_auth creation_auth_mismatch no_slots_for_l1 : Error
  txs_not_atomic invalid_rq_offset : Error
  out_of_range user_tx coordinator_tx wrong_signer missing_num : Error
  last_l1_batch_not_synced skip_batch_by_policy : Error

pub data Result {ℓ} (A : Type ℓ) : Type ℓ where
  ok : A → Result A
  err : Error → Result A

infixl 5 ◌>>=◌ ◌>>◌
abbrev pub ◌>>=◌ {ℓ κ} : {A : Type ℓ} {B : Type κ} → Result A → (A → Result B) → Result B
ok a >>= f = f a
err e >>= f = err e

abbrev pub ◌>>◌ {ℓ κ} : {A : Type ℓ} {B : Type κ} → Result A → Result B → Result B
m >> k = m >>= λ _. k

-- `if !test { return err }`
abbrev pub check : Bool → Error → Result (Unit {0})
check true e = ok tt
check false e = err e

abbrev pub ok_or {ℓ} : {A : Type ℓ} → Option A → Error → Result A
ok_or none e = err e
ok_or (some a) e = ok a

pub Result-cases {ℓ} :
    {A : Type ℓ} (r : Result A) → ((a : A) × (r ≡ ok a)) ⊎ ((e : Error) × (r ≡ err e))
Result-cases (ok a) = inl (a, refl)
Result-cases (err e) = inr (e, refl)

-- Whether there is a value, and the value.
abbrev pub is_ok {ℓ} : {A : Type ℓ} → Result A → Bool
is_ok (ok a) = true
is_ok (err e) = false

pub is_ok_value {ℓ} : {A : Type ℓ} (r : Result A) → is_ok r ≡ true → (a : A) × (r ≡ ok a)
is_ok_value (ok a) e = (a, refl)
is_ok_value (err x) e = ground arith

module _ {ℓ κ} {A : Type ℓ} {B : Type κ} {v : B} where
  -- A chain gives a value only through a value of its first part.
  pub chain_value :
      (r : Result A) (next : A → Result B)
      → (r >>= next) ≡ ok v
      → (first : A) × (r ≡ ok first) × (next first ≡ ok v)
  chain_value (ok first) next e = (first, refl, e)
  chain_value (err x) next e = cc
