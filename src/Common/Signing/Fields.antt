-- ===== src/Common/Signing/Fields.antt =====
-- Reading the fields of a transaction back from the numbers that are signed or hashed
-- (common/pooll2tx.go).
use han_hermez_node.Bytes.{be, of_be, of_be-be_of_lt, be-of_be}
use han_hermez_node.Common.Ids.{idx_bytes, nonce_bytes, token_id_bytes}
use han_hermez_node.Common.Codec.{amount_bytes, amount_from_bytes}
use han_hermez_node.Common.Codec.Parts.{amount_from_bytes-amount_bytes, amount_bytes-word}
use han_hermez_node.Common.Signing.{byte_of, compressed_layout}
use han_hermez_node.Prelude.{
  ℕ, ◌^◌, ◌<◌, ◌≡◌, refl, sym, ap, ◌∙◌, Bool, true, false, List, ◌∷◌, ◌++◌, arith, length, drop,
  get_or, All, slice, ok,
}

pub idx_bytes-Fits :
    (n : ℕ) {b : List ℕ}
    → idx_bytes n ≡ ok b
    → (b ≡ drop 2 (be 8 n)) × (of_be (drop 2 (be 8 n)) ≡ n)
unfolding idx_bytes be of_be
idx_bytes-Fits n e = ground (arith, of_be-be_of_lt 6 n)

pub nonce_bytes-Fits :
    (n : ℕ) {b : List ℕ}
    → nonce_bytes n ≡ ok b
    → (b ≡ drop 3 (be 8 n)) × (of_be (drop 3 (be 8 n)) ≡ n)
unfolding nonce_bytes be of_be
nonce_bytes-Fits n e = ground (arith, of_be-be_of_lt 5 n)

-- An amount as a function of its five bytes.
pub amount_bytes-Fits :
    (f : ℕ) {b : List ℕ}
    → amount_bytes f ≡ ok b
    → (x : ℕ) × (b ≡ drop 3 (be 8 x)) × (amount_from_bytes (drop 3 (be 8 x)) ≡ ok f)
amount_bytes-Fits f e =
    let (x, same) = amount_bytes-word f e in
    (x, same, ap amount_from_bytes (sym same) ∙ (amount_from_bytes-amount_bytes f e).0)

byte_of-injective : (s t : Bool) → byte_of s ≡ byte_of t → s ≡ t
byte_of-injective s t e = ground (arith, e)

-- Bytes that stand for one number are the same.
pub of_be-injective :
    (xs ys : List ℕ) (n : ℕ)
    → length xs ≡ n
    → length ys ≡ n
    → All (λ b. b < 256) xs
    → All (λ b. b < 256) ys
    → of_be xs ≡ of_be ys
    → xs ≡ ys
of_be-injective xs ys n lx ly hx hy e =
    sym (be-of_be xs hx)
    ∙ ap (λ (k : ℕ). be k (of_be xs)) (lx ∙ sym ly)
    ∙ ap (be (length ys)) e
    ∙ be-of_be ys hy

-- The 29 bytes of the compressed data.
abbrev pub bytes29 : Bool → (fee nonce token to from chain : ℕ) → List ℕ
bytes29 s fee nonce token to from chain =
    byte_of s
    ∷ fee
    ∷ compressed_layout (drop 3 (be 8 nonce)) (token_id_bytes token) (drop 2 (be 8 to))
        (drop 2 (be 8 from)) (be 2 chain)

bytes29-IsByte :
    (s : Bool) (fee nonce token to from chain : ℕ)
    → fee < 256
    → All (λ b. b < 256) (bytes29 s fee nonce token to from chain)
unfolding be token_id_bytes
bytes29-IsByte true fee nonce token to from chain small = omega (arith, small)
bytes29-IsByte false fee nonce token to from chain small = omega (arith, small)

module _ (s t : Bool) (fee nonce token to from chain fee' nonce' token' to' from' chain' : ℕ)
    (small : fee < 256) (small' : fee' < 256) where
  -- Compressed data that are the same number are the same in each part.
  pub bytes29-binds :
      of_be (bytes29 s fee nonce token to from chain)
        ≡ of_be (bytes29 t fee' nonce' token' to' from' chain')
      → (s ≡ t)
        × (fee ≡ fee')
        × (drop 3 (be 8 nonce) ≡ drop 3 (be 8 nonce'))
        × (be 4 token ≡ be 4 token')
        × (drop 2 (be 8 to) ≡ drop 2 (be 8 to'))
        × (drop 2 (be 8 from) ≡ drop 2 (be 8 from'))
        × (be 2 chain ≡ be 2 chain')
  unfolding be token_id_bytes
  bytes29-binds e =
      let same : bytes29 s fee nonce token to from chain
          ≡ bytes29 t fee' nonce' token' to' from' chain' =
        of_be-injective (bytes29 s fee nonce token to from chain)
          (bytes29 t fee' nonce' token' to' from' chain') 29 refl refl
          (bytes29-IsByte s fee nonce token to from chain small)
          (bytes29-IsByte t fee' nonce' token' to' from' chain' small') e in
      (
        byte_of-injective s t (ap (λ (b : List ℕ). get_or b 0 0) same),
        ap (λ (b : List ℕ). get_or b 1 0) same,
        ap (λ (b : List ℕ). slice b 2 7) same,
        ap (λ (b : List ℕ). slice b 7 11) same,
        ap (λ (b : List ℕ). slice b 11 17) same,
        ap (λ (b : List ℕ). slice b 17 23) same,
        ap (λ (b : List ℕ). slice b 23 25) same,
      )

-- The 28 bytes of the second version, with the word of the amount.
abbrev pub bytes28 : Bool → (fee nonce token word to from : ℕ) → List ℕ
bytes28 s fee nonce token word to from =
    byte_of s
    ∷ fee
    ∷ (drop 3 (be 8 nonce)
        ++ (token_id_bytes token
            ++ (drop 3 (be 8 word) ++ (drop 2 (be 8 to) ++ drop 2 (be 8 from)))))

bytes28-IsByte :
    (s : Bool) (fee nonce token word to from : ℕ)
    → fee < 256
    → All (λ b. b < 256) (bytes28 s fee nonce token word to from)
unfolding be token_id_bytes
bytes28-IsByte true fee nonce token word to from small = omega (arith, small)
bytes28-IsByte false fee nonce token word to from small = omega (arith, small)

module _ (s t : Bool) (fee nonce token word to from fee' nonce' token' word' to' from' : ℕ)
    (small : fee < 256) (small' : fee' < 256) where
  pub bytes28-binds :
      of_be (bytes28 s fee nonce token word to from)
        ≡ of_be (bytes28 t fee' nonce' token' word' to' from')
      → (s ≡ t)
        × (fee ≡ fee')
        × (drop 3 (be 8 nonce) ≡ drop 3 (be 8 nonce'))
        × (be 4 token ≡ be 4 token')
        × (drop 3 (be 8 word) ≡ drop 3 (be 8 word'))
        × (drop 2 (be 8 to) ≡ drop 2 (be 8 to'))
        × (drop 2 (be 8 from) ≡ drop 2 (be 8 from'))
  unfolding be token_id_bytes
  bytes28-binds e =
      let same : bytes28 s fee nonce token word to from
          ≡ bytes28 t fee' nonce' token' word' to' from' =
        of_be-injective (bytes28 s fee nonce token word to from)
          (bytes28 t fee' nonce' token' word' to' from') 28 refl refl
          (bytes28-IsByte s fee nonce token word to from small)
          (bytes28-IsByte t fee' nonce' token' word' to' from' small') e in
      (
        byte_of-injective s t (ap (λ (b : List ℕ). get_or b 0 0) same),
        ap (λ (b : List ℕ). get_or b 1 0) same,
        ap (λ (b : List ℕ). slice b 2 7) same,
        ap (λ (b : List ℕ). slice b 7 11) same,
        ap (λ (b : List ℕ). slice b 11 16) same,
        ap (λ (b : List ℕ). slice b 16 22) same,
        ap (λ (b : List ℕ). slice b 22 28) same,
      )

-- The 29 bytes of the element with the amount.
abbrev pub bytes_e1 : (batches word addr : ℕ) → List ℕ
bytes_e1 batches word addr = be 4 batches ++ (drop 3 (be 8 word) ++ be 20 addr)

bytes_e1-IsByte : (batches word addr : ℕ) → All (λ b. b < 256) (bytes_e1 batches word addr)
unfolding be
bytes_e1-IsByte batches word addr = omega arith

pub bytes_e1-binds :
    (batches word addr batches' word' addr' : ℕ)
    → of_be (bytes_e1 batches word addr) ≡ of_be (bytes_e1 batches' word' addr')
    → (be 4 batches ≡ be 4 batches')
      × (drop 3 (be 8 word) ≡ drop 3 (be 8 word'))
      × (be 20 addr ≡ be 20 addr')
unfolding be
bytes_e1-binds batches word addr batches' word' addr' e =
    let same : bytes_e1 batches word addr ≡ bytes_e1 batches' word' addr' =
      of_be-injective (bytes_e1 batches word addr) (bytes_e1 batches' word' addr') 29 refl refl
        (bytes_e1-IsByte batches word addr) (bytes_e1-IsByte batches' word' addr') e in
    (
      ap (λ (b : List ℕ). slice b 0 4) same,
      ap (λ (b : List ℕ). slice b 4 9) same,
      ap (λ (b : List ℕ). slice b 9 29) same,
    )

-- The bytes of a number in range determine it.
pub be-injective : (w n m : ℕ) → n < 256 ^ w → m < 256 ^ w → be w n ≡ be w m → n ≡ m
be-injective w n m hn hm e = sym (of_be-be_of_lt w n hn) ∙ ap of_be e ∙ of_be-be_of_lt w m hm
