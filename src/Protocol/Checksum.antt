-- ===== src/Protocol/Checksum.antt =====
-- What `calculate_checksum` promises: it fits 32 bits, and one changed byte changes it.
use qode.Base.{
  ℕ, zero, suc, ◌+◌, ◌*◌, ◌%◌, ◌^◌, ◌<◌, ◌≡◌, ◌≢◌, List, [], ◌∷◌, length, set, get_or, bit_xor,
  arith,
}
use qode.Protocol.{calculate_checksum, checksum_words, checksum_tail}
use qode.Protocol.Bytes.{from_le, IsBytes, from_le-lt}
use qode.Protocol.Xor.{xor_cancel_left, xor_cancel_right, bit_xor-lt}

-- A byte moved to its place in a 32-bit word stays inside the word, and can be read back.
place : ℕ → ℕ → ℕ
place b r = b * 2 ^ (r * 8)

place-lt : (b r : ℕ) → b < 256 → r < 4 → place b r < 2 ^ 32
unfolding place
place-lt b zero h k = omega arith
place-lt b (suc zero) h k = omega arith
place-lt b (suc (suc zero)) h k = omega arith
place-lt b (suc (suc (suc zero))) h k = omega arith
place-lt b (suc (suc (suc (suc r)))) h k = absurd (omega arith)

place_injective : (a b r : ℕ) → r < 4 → place a r ≡ place b r → a ≡ b
unfolding place
place_injective a b zero k e = omega arith
place_injective a b (suc zero) k e = omega arith
place_injective a b (suc (suc zero)) k e = omega arith
place_injective a b (suc (suc (suc zero))) k e = omega arith
place_injective a b (suc (suc (suc (suc r)))) k e = absurd (omega arith)

checksum_tail-lt :
    (acc i : ℕ) (bs : List ℕ) → acc < 2 ^ 32 → IsBytes bs → checksum_tail acc i bs < 2 ^ 32
unfolding checksum_tail place
checksum_tail-lt acc i [] h v = h
checksum_tail-lt acc i (b ∷ bs) h v =
    checksum_tail-lt (bit_xor acc (b * 2 ^ (i % 4 * 8))) (i + 1) bs
      (bit_xor-lt 32 acc _ h (place-lt b (i % 4) v.0 (omega arith))) v.1

checksum_words-lt :
    (acc i : ℕ) (bs : List ℕ) → acc < 2 ^ 32 → IsBytes bs → checksum_words acc i bs < 2 ^ 32
unfolding checksum_words
checksum_words-lt acc i (a ∷ b ∷ c ∷ d ∷ bs) h v =
    checksum_words-lt (bit_xor acc (from_le (a ∷ b ∷ c ∷ d ∷ []))) (i + 4) bs
      (bit_xor-lt 32 acc _ h
        (from_le-lt (a ∷ b ∷ c ∷ d ∷ []) (v.0, (v.1.0, (v.1.1.0, (v.1.1.1.0, tt))))))
      v.1.1.1.1
checksum_words-lt acc i [] h v = checksum_tail-lt acc i [] h v
checksum_words-lt acc i (a ∷ []) h v = checksum_tail-lt acc i (a ∷ []) h v
checksum_words-lt acc i (a ∷ b ∷ []) h v = checksum_tail-lt acc i (a ∷ b ∷ []) h v
checksum_words-lt acc i (a ∷ b ∷ c ∷ []) h v = checksum_tail-lt acc i (a ∷ b ∷ c ∷ []) h v

-- The checksum of bytes fits the `uint32_t` that it is returned in.
pub calculate_checksum-lt : (bs : List ℕ) → IsBytes bs → calculate_checksum bs < 2 ^ 32
unfolding calculate_checksum
calculate_checksum-lt bs v = checksum_words-lt 0 0 bs (omega arith) v

-- The loops are injective in the checksum that they start from.
checksum_tail_injective :
    (acc acc' i : ℕ) (bs : List ℕ) → checksum_tail acc i bs ≡ checksum_tail acc' i bs → acc ≡ acc'
unfolding checksum_tail
checksum_tail_injective acc acc' i [] e = e
checksum_tail_injective acc acc' i (b ∷ bs) e =
    let w : ℕ = b * 2 ^ (i % 4 * 8) in
    xor_cancel_right acc acc' w
      (checksum_tail_injective (bit_xor acc w) (bit_xor acc' w) (i + 1) bs e)

checksum_words_injective :
    (acc acc' i : ℕ) (bs : List ℕ) → checksum_words acc i bs ≡ checksum_words acc' i bs → acc ≡ acc'
unfolding checksum_words
checksum_words_injective acc acc' i (a ∷ b ∷ c ∷ d ∷ bs) e =
    let w : ℕ = from_le (a ∷ b ∷ c ∷ d ∷ []) in
    xor_cancel_right acc acc' w
      (checksum_words_injective (bit_xor acc w) (bit_xor acc' w) (i + 4) bs e)
checksum_words_injective acc acc' i [] e = checksum_tail_injective acc acc' i [] e
checksum_words_injective acc acc' i (a ∷ []) e = checksum_tail_injective acc acc' i (a ∷ []) e
checksum_words_injective acc acc' i (a ∷ b ∷ []) e =
    checksum_tail_injective acc acc' i (a ∷ b ∷ []) e
checksum_words_injective acc acc' i (a ∷ b ∷ c ∷ []) e =
    checksum_tail_injective acc acc' i (a ∷ b ∷ c ∷ []) e

checksum_tail-set :
    (acc i j v : ℕ) (bs : List ℕ)
    → j < length bs
    → checksum_tail acc i (set bs j v) ≡ checksum_tail acc i bs
    → v ≡ get_or bs j 0
unfolding checksum_tail place
checksum_tail-set acc i j v [] h e = absurd (omega arith)
checksum_tail-set acc i zero v (b ∷ bs) h e =
    place_injective v b (i % 4) (omega arith)
      (xor_cancel_left acc _ _ (checksum_tail_injective _ _ (i + 1) bs e))
checksum_tail-set acc i (suc j) v (b ∷ bs) h e =
    checksum_tail-set (bit_xor acc (b * 2 ^ (i % 4 * 8))) (i + 1) j v bs (omega arith) e

-- The changed byte is one of the four of a word, or stands behind them.
checksum_words-set :
    (acc i j v : ℕ) (bs : List ℕ)
    → j < length bs
    → checksum_words acc i (set bs j v) ≡ checksum_words acc i bs
    → v ≡ get_or bs j 0
unfolding checksum_words from_le
checksum_words-set acc i zero v (a ∷ b ∷ c ∷ d ∷ bs) h e =
    omega (arith, xor_cancel_left acc _ _ (checksum_words_injective _ _ (i + 4) bs e))
checksum_words-set acc i (suc zero) v (a ∷ b ∷ c ∷ d ∷ bs) h e =
    omega (arith, xor_cancel_left acc _ _ (checksum_words_injective _ _ (i + 4) bs e))
checksum_words-set acc i (suc (suc zero)) v (a ∷ b ∷ c ∷ d ∷ bs) h e =
    omega (arith, xor_cancel_left acc _ _ (checksum_words_injective _ _ (i + 4) bs e))
checksum_words-set acc i (suc (suc (suc zero))) v (a ∷ b ∷ c ∷ d ∷ bs) h e =
    omega (arith, xor_cancel_left acc _ _ (checksum_words_injective _ _ (i + 4) bs e))
checksum_words-set acc i (suc (suc (suc (suc j)))) v (a ∷ b ∷ c ∷ d ∷ bs) h e =
    checksum_words-set (bit_xor acc (from_le (a ∷ b ∷ c ∷ d ∷ []))) (i + 4) j v bs (omega arith) e
checksum_words-set acc i j v [] h e = absurd (omega arith)
checksum_words-set acc i zero v (a ∷ []) h e = checksum_tail-set acc i 0 v (a ∷ []) h e
checksum_words-set acc i (suc j) v (a ∷ []) h e = absurd (omega arith)
checksum_words-set acc i zero v (a ∷ b ∷ []) h e = checksum_tail-set acc i 0 v (a ∷ b ∷ []) h e
checksum_words-set acc i (suc zero) v (a ∷ b ∷ []) h e =
    checksum_tail-set acc i 1 v (a ∷ b ∷ []) h e
checksum_words-set acc i (suc (suc j)) v (a ∷ b ∷ []) h e = absurd (omega arith)
checksum_words-set acc i zero v (a ∷ b ∷ c ∷ []) h e =
    checksum_tail-set acc i 0 v (a ∷ b ∷ c ∷ []) h e
checksum_words-set acc i (suc zero) v (a ∷ b ∷ c ∷ []) h e =
    checksum_tail-set acc i 1 v (a ∷ b ∷ c ∷ []) h e
checksum_words-set acc i (suc (suc zero)) v (a ∷ b ∷ c ∷ []) h e =
    checksum_tail-set acc i 2 v (a ∷ b ∷ c ∷ []) h e
checksum_words-set acc i (suc (suc (suc j))) v (a ∷ b ∷ c ∷ []) h e = absurd (omega arith)

-- Data in which one byte at any place within it is changed to another value has another checksum.
pub calculate_checksum-set :
    (bs : List ℕ) (j v : ℕ)
    → j < length bs
    → v ≢ get_or bs j 0
    → calculate_checksum (set bs j v) ≢ calculate_checksum bs
unfolding calculate_checksum
calculate_checksum-set bs j v h changed e = changed (checksum_words-set 0 0 j v bs h e)
