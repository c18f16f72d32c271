-- ===== src/Crypto/Sha256.antt =====
-- The class `Sha256` of src/crypto/sha256.cpp, and the functions that call it. The buffer is the list
-- of the bytes that are in it.
use cget.Prelude.{
  ℕ, zero, suc, ◌+◌, ◌-◌, ◌*◌, ◌/◌, ◌%◌, ◌^◌, Option, none, some, List, [], ◌∷◌, ◌++◌, Text, str,
  ltb, ◌==◌, length, take, drop, u64, if◌then◌else◌,
}
use cget.Core.Errors.{Result, ok, throw, ErrorCode}
use cget.Crypto.Words.{Hash, transform}

pub record Sha256 : Type 0 where
  pub state : Hash
  pub buffer : List ℕ
  pub bit_length : ℕ

abbrev pub initial_hash : Hash
initial_hash = record {
  a = 0x6a09e667;
  b = 0xbb67ae85;
  c = 0x3c6ef372;
  d = 0xa54ff53a;
  e = 0x510e527f;
  f = 0x9b05688c;
  g = 0x1f83d9ab;
  h = 0x5be0cd19;
}

abbrev pub new_sha256 : Sha256
new_sha256 = record { state = initial_hash; buffer = []; bit_length = 0 }

-- One round of the loop of `update`.
unfoldable pub absorb_byte : ℕ → Sha256 → Sha256
absorb_byte byte sha =
    let filled = sha.buffer ++ byte ∷ [] in
    if length filled == 64
    then record sha { state = transform sha.state filled; buffer = [] }
    else record sha { buffer = filled }

unfoldable pub absorb : List ℕ → Sha256 → Sha256
unfolding absorb_byte
absorb [] sha = sha
absorb (byte ∷ bytes) sha = absorb bytes (absorb_byte byte sha)

unfoldable pub update : List ℕ → Sha256 → Sha256
update bytes sha =
    absorb bytes (record sha { bit_length = u64 (sha.bit_length + u64 (length bytes * 8)) })

unfoldable pub zeros : ℕ → List ℕ
zeros zero = []
zeros (suc count) = 0 ∷ zeros count

-- The loop from 7 to 0 over the bytes of the length, when `count` of them are left.
unfoldable pub length_bytes : ℕ → ℕ → List ℕ
length_bytes zero bits = []
length_bytes (suc count) bits = bits / 2 ^ (count * 8) % 256 ∷ length_bytes count bits

-- `final` up to the output: the eight words.
unfoldable pub finish_hash : Sha256 → Hash
finish_hash sha =
    let ended = sha.buffer ++ 0x80 ∷ [] in
    let last = λ (s : Hash) (buffer : List ℕ).
      transform s (buffer ++ (zeros (56 - length buffer) ++ length_bytes 8 sha.bit_length)) in
    if ltb 56 (length ended)
    then last (transform sha.state (ended ++ zeros (64 - length ended))) []
    else last sha.state ended

abbrev pub hex_digit : ℕ → ℕ
hex_digit d = if ltb d 10 then 48 + d else 87 + d

-- A word as `std::hex` prints it with `std::setw(8)` and `std::setfill('0')`.
unfoldable pub hex_word : ℕ → ℕ → Text
hex_word zero word = []
hex_word (suc count) word = hex_digit (word / 16 ^ count % 16) ∷ hex_word count word

unfoldable pub hex_hash : Hash → Text
hex_hash s =
    hex_word 8 s.a
    ++ (hex_word 8 s.b
        ++ (hex_word 8 s.c
            ++ (hex_word 8 s.d
                ++ (hex_word 8 s.e ++ (hex_word 8 s.f ++ (hex_word 8 s.g ++ hex_word 8 s.h))))))

-- `final`.
unfoldable pub final : Sha256 → Text
final sha = hex_hash (finish_hash sha)

unfoldable pub sha256_string : Text → Text
unfolding update final
sha256_string input = final (update input new_sha256)

-- The loop of `sha256File` over what is left of the stream, 8192 bytes at a time.
unfoldable pub read_pieces : ℕ → List ℕ → Sha256 → Sha256
read_pieces zero content sha = sha
read_pieces (suc fuel) content sha =
    let piece = take 8192 content in
    let rest = read_pieces fuel (drop 8192 content) (update piece sha) in
    if length content == 0 then sha else rest

-- `sha256File` of a file that holds `content`, or of none.
unfoldable pub sha256_file : Option (List ℕ) → Text → Result Text
unfolding read_pieces
sha256_file none path =
    throw ErrorCode.internal_error (str "failed to open file for SHA256: " ++ path)
sha256_file (some content) path = ok (final (read_pieces (length content) content new_sha256))
