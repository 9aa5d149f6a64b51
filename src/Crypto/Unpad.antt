-- ===== src/Crypto/Unpad.antt =====
-- `pkcs7_unpad` of src/vault/crypto.rs, against what padding is.
use vaultwarden_operator.Prelude.{
  ℕ, zero, suc, ◌-◌, ◌%◌, ◌≤◌, ◌≡◌, refl, sym, ap, ◌∙◌, ◌≢◌, ◌↔◌, inl, inr, true, not, ◌||◌, Option,
  none, some, [], ◌∷◌, ◌++◌, arith, ltb, ◌==◌, if◌then◌else◌, Option-cases, length, take, drop,
  replicate, is_empty, last?, all, length-append, take-append-drop, length-drop, length-replicate,
  take_append, drop_append, Result, ok, err, panic, Bytes,
}
use vaultwarden_operator.Crypto.{
  CryptoError, pkcs7, empty_data, not_block_aligned, invalid_padding_bytes, invalid_padding_length,
}

-- the last byte, and the tests on it
unpad_by : Bytes → ℕ → Option ℕ → Result CryptoError Bytes
unpad_by contents block_size none = panic
unpad_by contents block_size (some pad_len) =
    if pad_len == 0 || ltb block_size pad_len
    then err (pkcs7 (invalid_padding_length pad_len))
    else let pad_start = length contents - pad_len in
      if not (all (λ b. b == pad_len) (drop pad_start contents))
      then err (pkcs7 invalid_padding_bytes)
      else ok (take pad_start contents)

unfoldable pub pkcs7_unpad : Bytes → ℕ → Result CryptoError Bytes
unfolding unpad_by
pkcs7_unpad contents block_size =
    if is_empty contents
    then err (pkcs7 empty_data)
    else if not (length contents % block_size == 0)
    then err (pkcs7 not_block_aligned)
    else unpad_by contents block_size (last? contents)

all-replicate : (n v : ℕ) → all (λ b. b == v) (replicate n v) ≡ true
all-replicate zero v = refl
all-replicate (suc n) v = ground (arith, all-replicate n v)

eq-replicate_of_all :
    (xs : Bytes) (v : ℕ) → all (λ b. b == v) xs ≡ true → xs ≡ replicate (length xs) v
eq-replicate_of_all [] v h = refl
eq-replicate_of_all (x ∷ xs) v h = ground (arith, eq-replicate_of_all xs v)

last?-replicate : (n v : ℕ) → last? (replicate (suc n) v) ≡ some v
last?-replicate zero v = refl
last?-replicate (suc n) v = last?-replicate n v

last?-append : (xs : Bytes) (y : ℕ) (ys : Bytes) → last? (xs ++ y ∷ ys) ≡ last? (y ∷ ys)
last?-append [] y ys = refl
last?-append (x ∷ []) y ys = refl
last?-append (x ∷ z ∷ xs) y ys = last?-append (z ∷ xs) y ys

last?-none : (xs : Bytes) → last? xs ≡ none → xs ≡ []
last?-none [] h = refl
last?-none (x ∷ []) h = absurd (ground arith)
last?-none (x ∷ y ∷ xs) h = absurd (ground (arith, last?-none (y ∷ xs) h))

-- PKCS#7: `p` bytes of the value `p` behind the plaintext, up to a whole number of blocks
pub record IsPadded (contents out : Bytes) (block_size : ℕ) : Type 0 where
  pub pad : ℕ
  pub at_least : 1 ≤ pad
  pub at_most : pad ≤ block_size
  pub aligned : length contents % block_size ≡ 0
  pub spelled : contents ≡ out ++ replicate pad pad

block_size-le-length :
    (contents : Bytes) (block_size : ℕ)
    → contents ≢ []
    → length contents % block_size ≡ 0
    → block_size ≤ length contents
block_size-le-length [] block_size ne aligned = absurd (ne refl)
block_size-le-length (b ∷ bs) block_size ne aligned = grind arith

unpad_by_sound :
    (contents out : Bytes) (block_size p : ℕ)
    → contents ≢ []
    → length contents % block_size ≡ 0
    → unpad_by contents block_size (some p) ≡ ok out
    → IsPadded contents out block_size
unfolding unpad_by
unpad_by_sound contents out block_size p ne aligned e =
    let k = length contents - p in
    let pos : 1 ≤ p = ground arith in
    let small : p ≤ block_size = ground arith in
    let same : all (λ b. b == p) (drop k contents) ≡ true = ground arith in
    let front : take k contents ≡ out = ground arith in
    let size : length (drop k contents) ≡ p =
      omega (arith, length-drop k contents, block_size-le-length contents block_size ne aligned) in
    record {
      pad = p;
      at_least = pos;
      at_most = small;
      aligned = aligned;
      spelled =
          sym (take-append-drop k contents)
          ∙ ap (λ t. t ++ drop k contents) front
          ∙ ap (λ t. out ++ t)
              (eq-replicate_of_all (drop k contents) p same ∙ ap (λ n. replicate n p) size);
    }

pub pkcs7_unpad_sound :
    (contents out : Bytes) (block_size : ℕ)
    → pkcs7_unpad contents block_size ≡ ok out
    → IsPadded contents out block_size
unfolding pkcs7_unpad
pkcs7_unpad_sound [] out block_size e = absurd (ground arith)
pkcs7_unpad_sound (b ∷ bs) out block_size e = elim (Option-cases (last? (b ∷ bs))) [
  | inl missing ↦ absurd (ground (arith, last?-none (b ∷ bs) missing))
  | inr (p, last) ↦ unpad_by_sound (b ∷ bs) out block_size p (cc) (ground arith) (ground arith)
]

unpad_by_complete :
    (contents out : Bytes) (block_size p : ℕ)
    → 1 ≤ p
    → p ≤ block_size
    → contents ≡ out ++ replicate p p
    → unpad_by contents block_size (some p) ≡ ok out
unfolding unpad_by
unpad_by_complete contents out block_size p pos small e =
    let k : length contents - p ≡ length out =
      omega (arith, ap length e, length-append out (replicate p p), length-replicate p p) in
    let behind : drop (length contents - p) contents ≡ replicate p p =
      cc (k, e, drop_append out (replicate p p)) in
    let front : take (length contents - p) contents ≡ out =
      cc (k, e, take_append out (replicate p p)) in
    ground (arith, behind, front, all-replicate p p)

last?-padded : (out : Bytes) (p : ℕ) → 1 ≤ p → last? (out ++ replicate p p) ≡ some p
last?-padded out zero pos = absurd (omega arith)
last?-padded out (suc n) pos =
    last?-append out (suc n) (replicate n (suc n)) ∙ last?-replicate n (suc n)

pub pkcs7_unpad_complete :
    (contents out : Bytes) (block_size : ℕ)
    → IsPadded contents out block_size
    → pkcs7_unpad contents block_size ≡ ok out
unfolding pkcs7_unpad
pkcs7_unpad_complete [] out block_size h = absurd (
    omega (
      arith,
      ap length h.spelled,
      length-append out (replicate h.pad h.pad),
      length-replicate h.pad h.pad,
      h.at_least,
    ))
pkcs7_unpad_complete (b ∷ bs) out block_size h =
    let last : last? (b ∷ bs) ≡ some h.pad =
      ap last? h.spelled ∙ last?-padded out h.pad h.at_least in
    ground (
      arith,
      last,
      h.aligned,
      unpad_by_complete (b ∷ bs) out block_size h.pad h.at_least h.at_most h.spelled,
    )

-- `pkcs7_unpad` returns `out` exactly if the contents are whole blocks and are `out` with PKCS#7
-- padding behind it.
pub pkcs7_unpad_iff :
    (contents out : Bytes) (block_size : ℕ)
    → (pkcs7_unpad contents block_size ≡ ok out) ↔ IsPadded contents out block_size
pkcs7_unpad_iff contents out block_size =
    (pkcs7_unpad_sound contents out block_size, pkcs7_unpad_complete contents out block_size)
