-- ===== src/Tests/Instance.antt =====
-- A concrete stand-in for the cryptographic libraries, which has the laws that the node relies on:
-- the point compression keeps the sign in bit 255, and the hash is an injective code of a list of
-- field elements.
use han_hermez_node.Crypto.{Crypto, CryptoLaws}
use han_hermez_node.Prelude.{
  ℕ, ◌+◌, ◌*◌, ◌%◌, ◌^◌, ◌≡◌, refl, sym, ap, ◌∙◌, inl, inr, true, Option, none, some, List, [], ◌∷◌,
  arith, ltb, leb, if◌then◌else◌, Option-cases, All,
}

abbrev pub field_size : ℕ
field_size = 2 ^ 254

unfoldable pub toy_poseidon : List ℕ → Option ℕ
toy_poseidon [] = some 0
toy_poseidon (x ∷ xs) =
    let rest = toy_poseidon xs in
    if ltb x field_size
    then elim rest [ none ↦ none | some h ↦ some ((1 + x) + field_size * h) ]
    else none

abbrev pub toy_crypto : Crypto
toy_crypto = record {
  unpack_sign_y = λ bjj. (leb (2 ^ 255) bjj, bjj % 2 ^ 255);
  pack_sign_y = λ sign y. if sign then 2 ^ 255 + y else y;
  in_field = λ x. ltb x field_size;
  poseidon = toy_poseidon;
  mt_accepts_add = λ _ _ _. true;
  mt_accepts_update = λ _ _ _. true;
}

toy_poseidon-InField :
    (xs : List ℕ) (h : ℕ) → toy_poseidon xs ≡ some h → All (λ x. ltb x field_size ≡ true) xs
unfolding toy_poseidon
toy_poseidon-InField [] h e = tt
toy_poseidon-InField (x ∷ xs) h e = elim (Option-cases (toy_poseidon xs)) [
  | inl gone ↦ ground (arith, gone)
  | inr (k, found) ↦ (ground (arith, found), toy_poseidon-InField xs k found)
]

toy_poseidon_injective :
    (xs ys : List ℕ) (h : ℕ) → toy_poseidon xs ≡ some h → toy_poseidon ys ≡ some h → xs ≡ ys
unfolding toy_poseidon
toy_poseidon_injective [] [] h e e' = refl
toy_poseidon_injective [] (y ∷ ys) h e e' = ground (arith, Option-cases (toy_poseidon ys))
toy_poseidon_injective (x ∷ xs) [] h e e' = ground (arith, Option-cases (toy_poseidon xs))
toy_poseidon_injective (x ∷ xs) (y ∷ ys) h e e' = elim (Option-cases (toy_poseidon xs)) [
  | inl gone ↦ ground (arith, gone)
  | inr (k, found) ↦ elim (Option-cases (toy_poseidon ys)) [
    | inl gone ↦ ground (arith, gone)
    | inr (k', found') ↦
        let head : x ≡ y = ground (arith, found, found') in
        let code : k ≡ k' = ground (arith, found, found') in
        let tail = toy_poseidon_injective xs ys k found (found' ∙ ap some (sym code)) in cc
  ]
]

pub toy_laws : CryptoLaws toy_crypto
toy_laws = record {
  unpack-lt = λ bjj. omega arith;
  pack-unpack = λ bjj h. ground arith;
  poseidon-InField = toy_poseidon-InField;
  poseidon-injective = toy_poseidon_injective;
}
