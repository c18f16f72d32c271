-- ===== src/Examples/Crypto.antt =====
-- The hash at concrete inputs.
use cget.Prelude.{◌≡◌, refl, true, some, str, ◌%◌, length}
use cget.Core.Errors.{ok}
use cget.Crypto.Words.{
  rotr, transform, hash_round, big_sigma1, choose, big_sigma0, majority, small_sigma1, word_back,
  small_sigma0,
}
use cget.Crypto.Sha256.{
  hex_hash, hex_word, finish_hash, zeros, length_bytes, sha256_string, sha256_file, absorb,
}
use cget.Crypto.Streaming.{sha256_file-sha256_string}
use cget.Crypto.Fips.{padded, fips_sha256}
use cget.Crypto.Fips.Agrees.{sha256_string-fips_sha256}
use cget.Crypto.Hex.{is_sha256_hex, lowercase_hex, sha256_string-accepted}

-- The first example of FIPS 180-4.
abc :
    sha256_string (str "abc")
    ≡ str "ba7816bf8f01cfea414140de5dae2223b00361a396177a9cb410ff61f20015ad"
unfolding sha256_string str hex_hash hex_word finish_hash absorb transform zeros length_bytes
    hash_round big_sigma1 rotr choose big_sigma0 majority small_sigma1 word_back small_sigma0
abc = refl

sha256_string-fips_sha256_example :
    (sha256_string (str "abc") ≡ fips_sha256 (str "abc")) × (length (padded (str "abc")) % 64 ≡ 0)
sha256_string-fips_sha256_example = sha256_string-fips_sha256 (str "abc")

sha256_file-sha256_string_example :
    sha256_file (some (str "abc")) (str "f") ≡ ok (sha256_string (str "abc"))
sha256_file-sha256_string_example = sha256_file-sha256_string (str "abc") (str "f")

sha256_string-accepted_example :
    (is_sha256_hex (sha256_string (str "abc")) ≡ true)
    × (lowercase_hex (sha256_string (str "abc")) ≡ sha256_string (str "abc"))
sha256_string-accepted_example = sha256_string-accepted (str "abc")
