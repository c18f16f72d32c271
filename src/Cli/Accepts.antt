-- ===== src/Cli/Accepts.antt =====
-- What the parser accepts and how it refuses.
use cget.Prelude.{
  ◌<◌, ◌^◌, ◌∷◌, All, arith, all_of, ◌≡◌, refl, inl, inr, Bool, true, false, Option, none, some,
  List, [], Text, str, text_eq, text_eq_refl, subst, ◌⊎◌, Bool-cases, if◌then◌else◌, ◌||◌,
}
use cget.Core.Errors.{Result, ok, err, Result-cases, ErrorCode}
use cget.Config.Bandwidth.{is_digit}
use cget.Prelude.Decimal.{value_from, IsDigit}
use cget.Cli.Parser.{
  CommandType, Options, Command, find_option, is_unsigned_integer, AddOption, add_option,
  parse_add_options, parse_add, parse_one_id, config_get_args, config_set_args, parse_config,
  parse_alone, parse,
}

-- A call that throws, throws InvalidCommandError; a command that it gives satisfies `P`.
abbrev pub Fine : {A : Type 0} → (A → Type 0) → Result A → Type 0
Fine P (ok a) = P a
Fine P (err e) = e.code ≡ ErrorCode.invalid_command_error

abbrev pub GoodNumber : Option Text → Type 0
GoodNumber none = Unit
GoodNumber (some value) =
    All IsDigit value × (0 < value_from 0 value) × (value_from 0 value < 2 ^ 32)

-- The thread count, if it is given, is written in decimal digits, and is positive and below 2^32.
abbrev pub GoodThreads : Options → Type 0
GoodThreads options = GoodNumber (find_option (str "threads") options)

abbrev pub GoodCommand : Command → Type 0
GoodCommand c = GoodThreads c.options

-- A key that an option may write without a test is not `threads`.
abbrev Harmless : AddOption → Type 0
Harmless (AddOption.valued key message) = text_eq key (str "threads") ≡ false
Harmless AddOption.number = Unit
Harmless (AddOption.flag key) = text_eq key (str "threads") ≡ false
Harmless AddOption.unknown = Unit

if_all {ℓ} : {A : Type ℓ} (P : A → Type 0) (b : Bool) {x y : A} → P x → P y → P (if b then x else y)
if_all P true h k = h
if_all P false h k = k

record IsHarmless (o : AddOption) : Type 0 where
  holds : Harmless o

all_digits : (cs : Text) → all_of is_digit cs ≡ true → All IsDigit cs
unfolding is_digit
all_digits [] h = tt
all_digits (c ∷ cs) h = elim (Bool-cases (is_digit c)) [
  | inl digit ↦ (ground (arith, digit), all_digits cs (rw digit at h))
  | inr other ↦ let bad = rw other at h in absurd (cc)
]

is_unsigned_integer-GoodNumber :
    (value : Text) → is_unsigned_integer value ≡ true → GoodNumber (some value)
unfolding is_unsigned_integer
is_unsigned_integer-GoodNumber value h = elim (Bool-cases (all_of is_digit value)) [
  | inr other ↦ absurd (ground (arith, h, other))
  | inl digits ↦ (all_digits value digits, ground (arith, h), ground (arith, h))
]

add_option-IsHarmless : (token : Text) → IsHarmless (add_option token)
unfolding add_option str text_eq
add_option-IsHarmless token =
    if_all IsHarmless (text_eq token (str "-o") || text_eq token (str "--output"))
      (record { holds = refl })
      (if_all IsHarmless (text_eq token (str "--threads")) (record { holds = tt })
        (if_all IsHarmless (text_eq token (str "--sha256")) (record { holds = refl })
          (if_all IsHarmless (text_eq token (str "--limit")) (record { holds = refl })
            (if_all IsHarmless (text_eq token (str "--force")) (record { holds = refl })
              (if_all IsHarmless (text_eq token (str "--queue")) (record { holds = refl })
                (record { holds = tt }))))))

put-GoodThreads :
    (key value : Text) (options : Options)
    → text_eq key (str "threads") ≡ false
    → GoodThreads options
    → GoodThreads ((key, value) ∷ options)
unfolding find_option
put-GoodThreads key value options other h = rw other h

put_threads :
    (value : Text) (options : Options)
    → is_unsigned_integer value ≡ true
    → GoodThreads ((str "threads", value) ∷ options)
unfolding find_option
put_threads value options h =
    rw (text_eq_refl (str "threads")) (is_unsigned_integer-GoodNumber value h)

AddOption-cases :
    (o : AddOption)
    → ((key : Text) × (message : Text) × (o ≡ AddOption.valued key message))
      ⊎ ((o ≡ AddOption.number)
          ⊎ (((key : Text) × (o ≡ AddOption.flag key)) ⊎ (o ≡ AddOption.unknown)))
AddOption-cases (AddOption.valued key message) = inl (key, message, refl)
AddOption-cases AddOption.number = inr (inl refl)
AddOption-cases (AddOption.flag key) = inr (inr (inl (key, refl)))
AddOption-cases AddOption.unknown = inr (inr (inr refl))

parse_add_options-Fine :
    (tokens : List Text) (options : Options)
    → GoodThreads options
    → Fine GoodThreads (parse_add_options tokens options)
unfolding parse_add_options
parse_add_options-Fine [] options h = h
parse_add_options-Fine (token ∷ []) options h =
    let harmless = (add_option-IsHarmless token).holds in
    elim (AddOption-cases (add_option token)) [
      | inl (key, message, e) ↦ rw (e, parse_add_options) refl
      | inr (inl e) ↦ rw (e, parse_add_options) refl
      | inr (inr (inl (key, e))) ↦
          rw (e, parse_add_options) (put-GoodThreads key _ options (subst Harmless e harmless) h)
      | inr (inr (inr e)) ↦ rw (e, parse_add_options) refl
    ]
parse_add_options-Fine (token ∷ (value ∷ rest)) options h =
    let harmless = (add_option-IsHarmless token).holds in
    elim (AddOption-cases (add_option token)) [
      | inl (key, message, e) ↦
          rw (e, parse_add_options)
            (parse_add_options-Fine rest _
              (put-GoodThreads key value options (subst Harmless e harmless) h))
      | inr (inl e) ↦ elim (Bool-cases (is_unsigned_integer value)) [
        | inl good ↦
            rw (e, parse_add_options, good)
              (parse_add_options-Fine rest _ (put_threads value options good))
        | inr bad ↦ rw (e, parse_add_options, bad) refl
      ]
      | inr (inr (inl (key, e))) ↦
          rw (e, parse_add_options)
            (parse_add_options-Fine (value ∷ rest) _
              (put-GoodThreads key _ options (subst Harmless e harmless) h))
      | inr (inr (inr e)) ↦ rw (e, parse_add_options) refl
    ]

parse_add-Fine : (tokens : List Text) → Fine GoodCommand (parse_add tokens)
unfolding parse_add find_option
parse_add-Fine [] = refl
parse_add-Fine (url ∷ rest) =
    let fine = parse_add_options-Fine rest [] tt in
    elim (Result-cases (parse_add_options rest [])) [
      | inl (options, e) ↦ rw (e, parse_add) (subst (Fine GoodThreads) e fine)
      | inr (thrown, e) ↦ rw (e, parse_add) (subst (Fine GoodThreads) e fine)
    ]

parse_one_id-Fine :
    (type : CommandType) (tokens : List Text) (name : Text)
    → Fine GoodCommand (parse_one_id type tokens name)
unfolding parse_one_id find_option
parse_one_id-Fine type [] name = refl
parse_one_id-Fine type (id ∷ []) name = tt
parse_one_id-Fine type (a ∷ (b ∷ cs)) name = refl

parse_alone-Fine :
    (type : CommandType) (tokens : List Text) (name : Text)
    → Fine GoodCommand (parse_alone type tokens name)
unfolding parse_alone find_option
parse_alone-Fine type [] name = tt
parse_alone-Fine type (a ∷ more) name = refl

config_get_args-Fine : (tokens : List Text) → Fine GoodCommand (config_get_args tokens)
unfolding config_get_args find_option
config_get_args-Fine [] = tt
config_get_args-Fine (a ∷ []) = tt
config_get_args-Fine (a ∷ (b ∷ cs)) = refl

config_set_args-Fine : (tokens : List Text) → Fine GoodCommand (config_set_args tokens)
unfolding config_set_args find_option
config_set_args-Fine [] = refl
config_set_args-Fine (a ∷ []) = refl
config_set_args-Fine (a ∷ (b ∷ [])) = tt
config_set_args-Fine (a ∷ (b ∷ (c ∷ ds))) = refl

parse_config-Fine : (tokens : List Text) → Fine GoodCommand (parse_config tokens)
unfolding parse_config
parse_config-Fine [] = refl
parse_config-Fine (verb ∷ rest) = elim (Bool-cases (text_eq verb (str "get"))) [
  | inl get ↦ rw get (config_get_args-Fine rest)
  | inr other ↦ elim (Bool-cases (text_eq verb (str "set"))) [
    | inl set ↦ rw (other, set) (config_set_args-Fine rest)
    | inr neither ↦ rw (other, neither) refl
  ]
]

record IsFine (r : Result Command) : Type 0 where
  holds : Fine GoodCommand r

parse-IsFine : (tokens : List Text) → IsFine (parse tokens)
unfolding parse find_option
parse-IsFine [] = record { holds = tt }
parse-IsFine (token ∷ rest) =
    if_all IsFine
      (text_eq token (str "help") || text_eq token (str "-h") || text_eq token (str "--help"))
      (record { holds = tt })
      (if_all IsFine
        (text_eq token (str "version")
          || text_eq token (str "--version")
          || text_eq token (str "-V"))
        (record { holds = tt })
        (if_all IsFine (text_eq token (str "add")) (record { holds = parse_add-Fine rest })
          (if_all IsFine (text_eq token (str "pause"))
            (record { holds = parse_one_id-Fine CommandType.pause rest (str "pause") })
            (if_all IsFine (text_eq token (str "resume"))
              (record { holds = parse_one_id-Fine CommandType.resume rest (str "resume") })
              (if_all IsFine (text_eq token (str "remove"))
                (record { holds = parse_one_id-Fine CommandType.remove rest (str "remove") })
                (if_all IsFine (text_eq token (str "run"))
                  (record { holds = parse_alone-Fine CommandType.run rest (str "run") })
                  (if_all IsFine (text_eq token (str "list"))
                    (record { holds = parse_alone-Fine CommandType.list rest (str "list") })
                    (if_all IsFine (text_eq token (str "stats"))
                      (record { holds = parse_alone-Fine CommandType.stats rest (str "stats") })
                      (if_all IsFine (text_eq token (str "status"))
                        (record {
                          holds = parse_one_id-Fine CommandType.status rest (str "status");
                        })
                        (if_all IsFine (text_eq token (str "recover"))
                          (record {
                            holds = parse_alone-Fine CommandType.recover rest (str "recover");
                          })
                          (if_all IsFine (text_eq token (str "config"))
                            (record { holds = parse_config-Fine rest })
                            (if_all IsFine (text_eq token (str "protocols"))
                              (record {
                                holds =
                                    parse_alone-Fine CommandType.protocols rest (str "protocols");
                              })
                              (record { holds = refl })))))))))))))

-- Whatever the arguments, the parser gives a command in which the thread count, if there is one, is
-- written in decimal digits and is positive and below 2^32, or it throws InvalidCommandError and no
-- other error.
pub parse-GoodThreads : (tokens : List Text) → Fine GoodCommand (parse tokens)
parse-GoodThreads tokens = (parse-IsFine tokens).holds
