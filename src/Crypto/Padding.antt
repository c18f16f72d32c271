-- ===== src/Crypto/Padding.antt =====
-- What the buffer and `final` of src/crypto/sha256.cpp hash is the padded message, block by block.
use cget.Prelude.{
  ℕ, zero, suc, ◌+◌, ◌-◌, ◌*◌, ◌/◌, ◌%◌, ◌^◌, ◌≤◌, ◌<◌, ◌≡◌, refl, sym, ap, ◌∙◌, true, false,
  Bool-cases, inl, inr, List, [], ◌∷◌, ◌++◌, Text, arith, ltb, ◌==◌, length, length-append,
  length-drop, take, drop, take-append-drop, u64,
}
use mathlib.Core.List.{append_assoc}
use cget.Crypto.Words.{Hash, transform}
use cget.Crypto.Sha256.{
  Sha256, initial_hash, absorb_byte, absorb, update, zeros, length_bytes, finish_hash, hex_hash,
  final, sha256_string,
}
use cget.Crypto.Fips.{repeat_zero, big_endian, padded}
use cget.Crypto.Streaming.{absorb-append, absorb_bits}

-- The blocks of 64 bytes, one after the other.
unfoldable pub hash_blocks : ℕ → Hash → List ℕ → Hash
hash_blocks zero s bytes = s
hash_blocks (suc count) s bytes = hash_blocks count (transform s (take 64 bytes)) (drop 64 bytes)

zeros_agree : (k : ℕ) → repeat_zero k ≡ zeros k
unfolding repeat_zero zeros
zeros_agree zero = refl
zeros_agree (suc k) = ap (◌∷◌ 0) (zeros_agree k)

bytes_agree : (k n : ℕ) → big_endian k n ≡ length_bytes k n
unfolding big_endian length_bytes
bytes_agree zero n = refl
bytes_agree (suc k) n =
    let same : 8 * k ≡ k * 8 = omega arith in
    rw same (ap (◌∷◌ (n / 2 ^ (k * 8) % 256)) (bytes_agree k n))

-- The padding of the standard in the words of the program.
padded_lem :
    (message : List ℕ)
    → padded message
      ≡ message
        ++ 0x80
          ∷ (zeros ((119 - length message % 64) % 64) ++ length_bytes 8 (u64 (length message * 8)))
unfolding padded
padded_lem message = rw (zeros_agree, bytes_agree) refl

length-zeros : (k : ℕ) → length (zeros k) ≡ k
unfolding zeros
length-zeros zero = refl
length-zeros (suc k) = omega (arith, length-zeros k)

length-length_bytes : (k bits : ℕ) → length (length_bytes k bits) ≡ k
unfolding length_bytes
length-length_bytes zero bits = refl
length-length_bytes (suc k) bits = omega (arith, length-length_bytes k bits)

zeros_add : (m n k : ℕ) (xs : List ℕ) → k ≡ m + n → zeros k ++ xs ≡ zeros m ++ (zeros n ++ xs)
unfolding zeros
zeros_add zero n k xs e = let same : k ≡ n = omega arith in ap (λ i. zeros i ++ xs) same
zeros_add (suc m) n zero xs e = absurd (omega arith)
zeros_add (suc m) n (suc k) xs e = ap (◌∷◌ 0) (zeros_add m n k xs (omega arith))

length-take : (n : ℕ) (xs : List ℕ) → n ≤ length xs → length (take n xs) ≡ n
length-take n xs h = omega (
  arith,
  length-append (take n xs) (drop n xs),
  length-drop n xs,
  ap length (take-append-drop n xs),
  h,
)

abbrev holding : Hash → List ℕ → ℕ → Sha256
holding s buffer bits = record { state = s; buffer = buffer; bit_length = bits }

byte_partial :
    (s : Hash) (buffer : List ℕ) (bits x : ℕ)
    → suc (length buffer) < 64
    → absorb_byte x (holding s buffer bits) ≡ holding s (buffer ++ x ∷ []) bits
unfolding absorb_byte
byte_partial s buffer bits x h =
    let open_ : (length (buffer ++ x ∷ []) == 64) ≡ false =
      ground (arith, length-append buffer (x ∷ []), h) in
    rw open_ refl

byte_full :
    (s : Hash) (buffer : List ℕ) (bits x : ℕ)
    → suc (length buffer) ≡ 64
    → absorb_byte x (holding s buffer bits) ≡ holding (transform s (buffer ++ x ∷ [])) [] bits
unfolding absorb_byte
byte_full s buffer bits x h =
    let full : (length (buffer ++ x ∷ []) == 64) ≡ true =
      ground (arith, length-append buffer (x ∷ []), h) in
    rw full refl

-- Bytes that fill the block hash it.
absorb_full :
    (xs : List ℕ) (s : Hash) (buffer : List ℕ) (bits : ℕ)
    → length buffer + length xs ≡ 64
    → length buffer < 64
    → absorb xs (holding s buffer bits) ≡ holding (transform s (buffer ++ xs)) [] bits
unfolding absorb
absorb_full [] s buffer bits h l = absurd (omega arith)
absorb_full (x ∷ []) s buffer bits h l = byte_full s buffer bits x (omega arith)
absorb_full (x ∷ (y ∷ ys)) s buffer bits h l = rw (byte_partial s buffer bits x (omega arith)) (
    absorb_full (y ∷ ys) s (buffer ++ x ∷ []) bits (omega (arith, length-append buffer (x ∷ []), h))
      (omega (arith, length-append buffer (x ∷ []), h))
    ∙ ap (λ t. holding (transform s t) [] bits) (append_assoc buffer (x ∷ []) (y ∷ ys)))

-- Whole blocks leave the buffer empty.
absorb_blocks :
    (count : ℕ) (xs : List ℕ) (s : Hash) (bits : ℕ)
    → length xs ≡ count * 64
    → absorb xs (holding s [] bits) ≡ holding (hash_blocks count s xs) [] bits
unfolding hash_blocks absorb
absorb_blocks zero [] s bits h = refl
absorb_blocks zero (x ∷ xs) s bits h = absurd (omega arith)
absorb_blocks (suc count) xs s bits h =
    ap (λ t. absorb t (holding s [] bits)) (sym (take-append-drop 64 xs))
    ∙ (absorb-append (take 64 xs) (drop 64 xs) (holding s [] bits)
        ∙ (ap (absorb (drop 64 xs)) (
              absorb_full (take 64 xs) s [] bits (omega (arith, length-take 64 xs (omega arith)))
                (omega arith))
            ∙ absorb_blocks count (drop 64 xs) (transform s (take 64 xs)) bits
                (omega (arith, length-drop 64 xs, h))))

length-absorb :
    (xs : List ℕ) (s : Hash) (buffer : List ℕ) (bits : ℕ)
    → length buffer < 64
    → length (absorb xs (holding s buffer bits)).buffer ≡ (length buffer + length xs) % 64
unfolding absorb
length-absorb [] s buffer bits h = omega arith
length-absorb (x ∷ xs) s buffer bits h = elim (Bool-cases (suc (length buffer) == 64)) [
  | inl full ↦
      ap (λ t. length (absorb xs t).buffer) (byte_full s buffer bits x (ground (arith, full)))
      ∙ (length-absorb xs (transform s (buffer ++ x ∷ [])) [] bits (omega arith)
          ∙ ground (arith, full))
  | inr partial ↦
      ap (λ t. length (absorb xs t).buffer)
        (byte_partial s buffer bits x (ground (arith, h, partial)))
      ∙ (length-absorb xs s (buffer ++ x ∷ []) bits
            (ground (arith, length-append buffer (x ∷ []), h, partial))
          ∙ omega (arith, length-append buffer (x ∷ [])))
]

module _ (s : Hash) (buffer : List ℕ) (bits : ℕ) (h : length buffer < 64) where
  abbrev count_bytes : List ℕ
  count_bytes = length_bytes 8 bits

  length-ended : length (buffer ++ 0x80 ∷ []) ≡ suc (length buffer)
  length-ended = omega (arith, length-append buffer (0x80 ∷ []))

  -- The length goes into the block that is open.
  finish_short :
      suc (length buffer) ≤ 56
      → transform s
          ((buffer ++ 0x80 ∷ []) ++ (zeros (56 - length (buffer ++ 0x80 ∷ [])) ++ count_bytes))
        ≡ (absorb
            (0x80 ∷ (zeros ((119 - length buffer) % 64) ++ count_bytes))
            (holding s buffer bits)).state
  finish_short short =
      let k = (119 - length buffer) % 64 in
      let same : 56 - length (buffer ++ 0x80 ∷ []) ≡ k = omega (arith, length-ended) in
      let filled : length buffer + length (0x80 ∷ (zeros k ++ count_bytes)) ≡ 64 =
        omega (
          arith,
          length-append (zeros k) count_bytes,
          length-zeros k,
          length-length_bytes 8 bits,
        ) in
      ap (transform s) (
        append_assoc buffer (0x80 ∷ []) (zeros (56 - length (buffer ++ 0x80 ∷ [])) ++ count_bytes)
        ∙ ap (λ i. buffer ++ 0x80 ∷ (zeros i ++ count_bytes)) same)
      ∙ sym
          (ap (λ t. t.state) (absorb_full (0x80 ∷ (zeros k ++ count_bytes)) s buffer bits filled h))

  -- There is no room for the length: the block that is open is hashed first.
  finish_long :
      56 < suc (length buffer)
      → transform
          (transform s ((buffer ++ 0x80 ∷ []) ++ zeros (64 - length (buffer ++ 0x80 ∷ []))))
          (zeros 56 ++ count_bytes)
        ≡ (absorb
            (0x80 ∷ (zeros ((119 - length buffer) % 64) ++ count_bytes))
            (holding s buffer bits)).state
  finish_long long =
      let k = (119 - length buffer) % 64 in
      let j = 64 - length (buffer ++ 0x80 ∷ []) in
      let first = 0x80 ∷ zeros j in
      let split : zeros k ++ count_bytes ≡ zeros j ++ (zeros 56 ++ count_bytes) =
        zeros_add j 56 k count_bytes (omega (arith, length-ended)) in
      let filled : length buffer + length first ≡ 64 =
        omega (arith, length-ended, length-zeros j) in
      let last : 0 + length (zeros 56 ++ count_bytes) ≡ 64 = omega (
        arith,
        length-append (zeros 56) count_bytes,
        length-zeros 56,
        length-length_bytes 8 bits,
      ) in
      let middle = transform s (buffer ++ first) in
      ap (λ t. transform (transform s t) (zeros 56 ++ count_bytes))
        (append_assoc buffer (0x80 ∷ []) (zeros j))
      ∙ ap (λ t. t.state)
          (sym (absorb_full (zeros 56 ++ count_bytes) middle [] bits last (omega arith))
            ∙ (sym
                  (ap (absorb (zeros 56 ++ count_bytes)) (absorb_full first s buffer bits filled h))
                ∙ (sym (absorb-append first (zeros 56 ++ count_bytes) (holding s buffer bits))
                    ∙ ap (λ t. absorb (0x80 ∷ t) (holding s buffer bits)) (sym split))))

  -- What `final` does is what the padding goes through.
  finish_absorbs :
      finish_hash (holding s buffer bits)
      ≡ (absorb
          (0x80 ∷ (zeros ((119 - length buffer) % 64) ++ count_bytes))
          (holding s buffer bits)).state
  unfolding finish_hash
  finish_absorbs = elim (Bool-cases (ltb 56 (length (buffer ++ 0x80 ∷ [])))) [
    | inl long ↦ rw long (finish_long (ground (arith, length-ended, long)))
    | inr short ↦ rw short (finish_short (ground (arith, length-ended, short)))
  ]

length-padded : (message : List ℕ) → length (padded message) % 64 ≡ 0
length-padded message = rw (padded_lem message) (
    let k = (119 - length message % 64) % 64 in
    let bytes = length_bytes 8 (u64 (length message * 8)) in
    omega (
      arith,
      length-append message (0x80 ∷ (zeros k ++ bytes)),
      length-append (zeros k) bytes,
      length-zeros k,
      length-length_bytes 8 (u64 (length message * 8)),
    ))

finish_whole :
    (message : List ℕ)
    → finish_hash (absorb message (holding initial_hash [] (u64 (length message * 8))))
      ≡ hash_blocks (length (padded message) / 64) initial_hash (padded message)
finish_whole message =
    let bits = u64 (length message * 8) in
    let fresh = holding initial_hash [] bits in
    let after = absorb message fresh in
    let held = length-absorb message initial_hash [] bits (omega arith) in
    let zero_count : (119 - length after.buffer) % 64 ≡ (119 - length message % 64) % 64 =
      omega (arith, held) in
    let tail = λ (k b : ℕ). 0x80 ∷ (zeros k ++ length_bytes 8 b) in
    finish_absorbs after.state after.buffer after.bit_length (omega (arith, held))
    ∙ (ap (λ k. (absorb (tail k after.bit_length) after).state) zero_count
        ∙ (ap (λ b. (absorb (tail ((119 - length message % 64) % 64) b) after).state)
              (absorb_bits message 0 fresh).1
            ∙ (ap (λ t. t.state)
                  (sym (absorb-append message (tail ((119 - length message % 64) % 64) bits) fresh)
                    ∙ ap (λ t. absorb t fresh) (sym (padded_lem message)))
                ∙ ap (λ t. t.state)
                    (absorb_blocks (length (padded message) / 64) (padded message) initial_hash bits
                      (omega (arith, length-padded message))))))

-- sha256String hashes the padded message, which is a whole number of blocks, block by block with
-- `transform`.
pub sha256_string_lem :
    (message : Text)
    → (sha256_string message
        ≡ hex_hash (hash_blocks (length (padded message) / 64) initial_hash (padded message)))
      × (length (padded message) % 64 ≡ 0)
unfolding sha256_string update final
sha256_string_lem message =
    let counted : u64 (0 + u64 (length message * 8)) ≡ u64 (length message * 8) = omega arith in
    (
      ap (λ b. hex_hash (finish_hash (absorb message (holding initial_hash [] b)))) counted
          ∙ ap hex_hash (finish_whole message),
      length-padded message,
    )
