-- ===== src/Crypto.antt =====
-- The libraries that the node calls and this repository does not contain, as a parameter:
-- BabyJubJub point compression and Poseidon (go-iden3-crypto), and the Merkle tree
-- (go-merkletree). A compressed public key is the number of its 32 bytes.
use han_hermez_node.Prelude.{ℕ, ◌^◌, ◌<◌, ◌≡◌, Bool, true, Option, some, List, All}

pub record Crypto : Type 0 where
  -- `babyjub.UnpackSignY` and `babyjub.PackSignY`
  pub unpack_sign_y : ℕ → Bool × ℕ
  pub pack_sign_y : Bool → ℕ → ℕ
  -- `cryptoUtils.CheckBigIntInField`
  pub in_field : ℕ → Bool
  -- `poseidon.Hash`: none is its error
  pub poseidon : List ℕ → Option ℕ
  -- Whether the tree whose leaves were written in this order, the last write first, accepts
  -- `AddAndGetCircomProof` or `Update` of a leaf.
  pub mt_accepts_add : List (ℕ × ℕ) → ℕ → ℕ → Bool
  pub mt_accepts_update : List (ℕ × ℕ) → ℕ → ℕ → Bool

-- What the node relies on: a key survives compression, Poseidon refuses what is outside the field,
-- and no two inputs that occur have one hash (collision resistance).
pub record CryptoLaws (c : Crypto) : Type 0 where
  pub unpack-lt : (bjj : ℕ) → (c.unpack_sign_y bjj).1 < 2 ^ 255
  pub pack-unpack :
      (bjj : ℕ)
      → bjj < 2 ^ 256
      → c.pack_sign_y (c.unpack_sign_y bjj).0 (c.unpack_sign_y bjj).1 ≡ bjj
  pub poseidon-InField :
      (xs : List ℕ) (h : ℕ) → c.poseidon xs ≡ some h → All (λ x. c.in_field x ≡ true) xs
  pub poseidon-injective :
      (xs ys : List ℕ) (h : ℕ) → c.poseidon xs ≡ some h → c.poseidon ys ≡ some h → xs ≡ ys
