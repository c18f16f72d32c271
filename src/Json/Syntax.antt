-- ===== src/Json/Syntax.antt =====
-- `json::Value` of include/cget/persistence/json.h and its accessors. A `std::map` is the list of its
-- members in the order of their keys.
use cget.Prelude.{
  ℕ, Bool, true, false, ◌&&◌, ◌||◌, Option, none, some, [], ◌∷◌, ◌++◌, Text, str, text_eq, ltb,
  ◌==◌, if◌then◌else◌,
}
use cget.Core.Types.{Double}
use cget.Core.Errors.{Result, ok, throw, ErrorCode}

mutual
  pub data Value : Type 0 where
    null : Value
    bool : Bool → Value
    number : Double → Value
    string : Text → Value
    array : Items → Value
    object : Members → Value

  pub data Items : Type 0 where
    no_items : Items
    item : Value → Items → Items

  pub data Members : Type 0 where
    no_members : Members
    member : Text → Value → Members → Members

-- The library's `double`, of which `Double` holds the bits: `std::stod`; the conversion from and to
-- `std::uint64_t`; `std::floor(x) == x && x >= 0.0`; `x < 0.0`; and the output with 17 digits.
pub record Numbers : Type 0 where
  pub stod : Text → Option Double
  pub of_u64 : ℕ → Double
  pub to_u64 : Double → ℕ
  pub is_whole : Double → Bool
  pub is_negative : Double → Bool
  pub print_17 : Double → Text

-- `operator<` of `std::string`.
unfoldable pub text_less : Text → Text → Bool
text_less [] [] = false
text_less [] (y ∷ ys) = true
text_less (x ∷ xs) [] = false
text_less (x ∷ xs) (y ∷ ys) = ltb x y || x == y && text_less xs ys

-- `map.emplace(key, value)`: a key that is there keeps its value.
unfoldable pub emplace : Text → Value → Members → Members
emplace key value no_members = member key value no_members
emplace key value (member k v rest) =
    let later = member k v (emplace key value rest) in
    if text_eq key k
    then member k v rest
    else if text_less key k
    then member key value (member k v rest)
    else later

-- `map[key] = value`.
unfoldable pub put : Text → Value → Members → Members
put key value no_members = member key value no_members
put key value (member k v rest) =
    let later = member k v (put key value rest) in
    if text_eq key k
    then member key value rest
    else if text_less key k
    then member key value (member k v rest)
    else later

-- `map.find(key)`.
unfoldable pub find : Text → Members → Option Value
find key no_members = none
find key (member k v rest) = if text_eq key k then some v else find key rest

-- A `std::runtime_error` or a `std::bad_variant_access`, which have no code of their own.
abbrev pub throw_runtime {ℓ} : {A : Type ℓ} → Text → Result A
throw_runtime message = throw ErrorCode.internal_error message

abbrev pub bad_variant {ℓ} : {A : Type ℓ} → Result A
bad_variant = throw_runtime (str "bad_variant_access")

unfoldable pub is_object : Value → Bool
is_object (object ms) = true
is_object _ = false

unfoldable pub is_null : Value → Bool
is_null null = true
is_null _ = false

unfoldable pub as_bool : Value → Result Bool
as_bool (bool b) = ok b
as_bool _ = bad_variant

unfoldable pub as_number : Value → Result Double
as_number (number x) = ok x
as_number _ = bad_variant

unfoldable pub as_string : Value → Result Text
as_string (string s) = ok s
as_string _ = bad_variant

unfoldable pub as_array : Value → Result Items
as_array (array xs) = ok xs
as_array _ = bad_variant

-- `Value::asUint64`.
unfoldable pub as_uint64 : Numbers → Value → Result ℕ
as_uint64 n (number x) =
    if n.is_negative x then throw_runtime (str "json number is negative") else ok (n.to_u64 x)
as_uint64 n _ = bad_variant

-- `Value::contains` and `Value::at`.
unfoldable pub contains_key : Value → Text → Bool
contains_key (object ms) key = elim (find key ms) [ none ↦ false | some v ↦ true ]
contains_key _ key = false

unfoldable pub at : Value → Text → Result Value
at (object ms) key = elim (find key ms) [
  | none ↦ throw_runtime (str "missing json key: " ++ key)
  | some v ↦ ok v
]
at _ key = bad_variant
