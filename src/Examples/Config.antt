-- ===== src/Examples/Config.antt =====
-- The theorems on the configuration at concrete inputs.
use cget.Prelude.{
  All, ◌≡◌, ◌↔◌, ◌<◌, ◌≤◌, ◌*◌, ◌^◌, [], ◌∷◌, Text, arith, u64, u64_mod, u32_mod, min,
}
use cget.Prelude.Decimal.{value_from, IsDigit}
use cget.Core.Errors.{ok}
use cget.Config.Defs.{default_config}
use cget.Config.Parse.{parse_uint64, parse_positive_uint}
use cget.Config.Parse.Numbers.{parse_uint64-value, parse_positive_uint_wraps}
use cget.Config.Normalize.{normalize}
use cget.Config.Normalize.Bounds.{InLimits, normalize-InLimits}
use cget.Engine.Retry.{retry_delay}
use cget.Engine.Retry.Delay.{retry_delay-doubles}

-- `12`, and 2^64 + 5.
abbrev twelve : Text
twelve = b'1' ∷ b'2' ∷ []

abbrev huge : Text
huge =
    b'1' ∷ b'8' ∷ b'4' ∷ b'4' ∷ b'6' ∷ b'7' ∷ b'4' ∷ b'4' ∷ b'0' ∷ b'7' ∷ b'3' ∷ b'7' ∷ b'0' ∷ b'9'
    ∷ b'5' ∷ b'5' ∷ b'1' ∷ b'6' ∷ b'2' ∷ b'1' ∷ []

parse_uint64-value_example :
    (parse_uint64 (b'k' ∷ []) twelve ≡ ok 12) ↔ ((value_from 0 twelve ≡ 12) × (12 < u64_mod))
parse_uint64-value_example =
    parse_uint64-value (b'k' ∷ []) twelve
      ((omega arith, omega arith), ((omega arith, omega arith), tt)) (λ e. absurd (cc)) 12

huge_digits : All IsDigit huge
huge_digits = ground arith

parse_positive_uint_wraps_example :
    (parse_positive_uint (b'k' ∷ []) huge ≡ ok 5)
    ↔ ((u64 (value_from 0 huge) ≡ 5) × (0 < 5) × (5 < u32_mod))
parse_positive_uint_wraps_example =
    parse_positive_uint_wraps (b'k' ∷ []) huge huge_digits (λ e. absurd (cc)) 5

normalize-InLimits_example :
    InLimits (normalize default_config)
    × (normalize (normalize default_config) ≡ normalize default_config)
normalize-InLimits_example = normalize-InLimits default_config

retry_delay-doubles_example :
    let base = (normalize default_config).network.retry_base_delay_ms in
    (retry_delay base 3 ≡ base * 2 ^ min 3 10) × (retry_delay base 3 ≤ 61440000)
retry_delay-doubles_example = retry_delay-doubles default_config 3
