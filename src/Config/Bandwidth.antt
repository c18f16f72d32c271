-- ===== src/Config/Bandwidth.antt =====
-- `parseBandwidthLimit` of src/ratelimit/bandwidth.cpp. The `double` numbers are a parameter.
use cget.Prelude.{
  ℕ, ◌-◌, Bool, ◌&&◌, ◌||◌, not, Option, none, some, [], ◌∷◌, ◌++◌, Text, str, text_eq, leb, ltb,
  ◌==◌, if◌then◌else◌, length, take, drop,
}
use cget.Core.Errors.{Result, ok, ◌>>=◌, throw, ErrorCode}
use cget.Network.Scheme.{lower}

-- `std::isspace` in the C locale.
unfoldable pub is_space : ℕ → Bool
is_space c = c == 32 || leb 9 c && leb c 13

unfoldable pub is_digit : ℕ → Bool
is_digit c = leb b'0' c && leb c b'9'

unfoldable pub trim_front : Text → Text
trim_front [] = []
trim_front (c ∷ cs) = let rest = trim_front cs in if is_space c then rest else c ∷ cs

-- Spaces at the end are dropped.
unfoldable pub trim_back : Text → Text
trim_back [] = []
trim_back (c ∷ cs) =
    let rest = trim_back cs in if text_eq rest [] && is_space c then [] else c ∷ rest

unfoldable pub trim : Text → Text
trim value = trim_back (trim_front value)

-- The library's `double`: `std::stod`, `<= 0.0`, the product with a whole number, the test of the
-- range of `std::uint64_t`, and the conversion to it.
pub record Doubles : Type 1 where
  pub D : Type 0
  pub stod : Text → Option D
  pub is_positive : D → Bool
  pub times : D → ℕ → D
  pub fits_u64 : D → Bool
  pub to_u64 : D → ℕ

-- The digits and dots at the front of the text, and the rest.
unfoldable pub span_number : Text → Text × Text
span_number [] = ([], [])
span_number (c ∷ cs) =
    let (number, rest) = span_number cs in
    if is_digit c || c == b'.' then (c ∷ number, rest) else ([], c ∷ cs)

-- The multiplier of a unit.
unfoldable pub unit_multiplier : Text → Result ℕ
unit_multiplier unit =
    if text_eq unit [] || text_eq unit (str "b")
    then ok 1
    else if text_eq unit (str "kb")
    then ok 1000
    else if text_eq unit (str "mb")
    then ok 1000000
    else if text_eq unit (str "gb")
    then ok 1000000000
    else if text_eq unit (str "kib")
    then ok 1024
    else if text_eq unit (str "mib")
    then ok 1048576
    else if text_eq unit (str "gib")
    then ok 1073741824
    else throw ErrorCode.invalid_command_error (str "unknown bandwidth unit: " ++ unit)

-- A unit without the `/s` at its end.
unfoldable pub drop_per_second : Text → Text
drop_per_second unit =
    if ltb 2 (length unit) && text_eq (drop (length unit - 2) unit) (str "/s")
    then trim (take (length unit - 2) unit)
    else unit

-- What `std::stod` gave, and the unit.
unfoldable pub limit_of : (d : Doubles) → Text → Option d.D → Text → Result (Option ℕ)
limit_of d value none unit =
    throw ErrorCode.invalid_command_error (str "invalid bandwidth limit: " ++ value)
limit_of d value (some number) unit =
    if not (d.is_positive number)
    then ok none
    else unit_multiplier (drop_per_second (trim unit)) >>= λ multiplier.
        if d.fits_u64 (d.times number multiplier)
        then ok (some (d.to_u64 (d.times number multiplier)))
        else throw ErrorCode.invalid_command_error (str "bandwidth limit is out of range")

unfoldable pub parse_bandwidth_limit : Doubles → Text → Result (Option ℕ)
parse_bandwidth_limit d value =
    let normalized = lower (trim value) in
    if text_eq normalized (str "unlimited")
      || text_eq normalized (str "none")
      || text_eq normalized (str "off")
      || text_eq normalized (str "0")
    then ok none
    else let (number, unit) = span_number normalized in
      if text_eq number []
      then throw ErrorCode.invalid_command_error (str "invalid bandwidth limit: " ++ value)
      else limit_of d value (d.stod number) unit
