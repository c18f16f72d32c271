-- ===== src/Json/Termination.antt =====
-- The parser of src/persistence/json.cpp ends on every input: a value takes at least one byte.
use cget.Prelude.{
  ℕ, zero, suc, ◌+◌, ◌*◌, ◌≤◌, ◌<◌, ◌≡◌, ◌≢◌, refl, true, false, Bool-cases, inl, inr, [], Text,
  str, text_eq, arith, ◌==◌, if◌then◌else◌, length,
}
use cget.Config.Bandwidth.{is_digit}
use cget.Json.Syntax.{
  Value, null, bool, string, array, object, no_items, item, no_members, member, Numbers,
}
use cget.Json.Scan.{
  Read, thrown, out_of_fuel, read, ◌>>=◌, fail, peek, rest_of, skip_whitespace, parse_string,
}
use cget.Json.Parser.{
  collect, Start, start_of, starts_null, starts_true, starts_false, starts_string, starts_array,
  starts_object, starts_number, starts_nothing, parse_value, parse_array, parse_items, parse_object,
  parse_members, finish_parse, parse_fuel,
}
use cget.Json.Shrinks.{
  Ends, >>=-Ends, skip_shrinks, rest_shrinks, parse_literal-Ends, parse_string-Ends,
  parse_number-Ends,
}

bracket_byte : (c : ℕ) → start_of c ≡ starts_array → (c == b'[') ≡ true
unfolding start_of is_digit
bracket_byte c h = ground arith

brace_byte : (c : ℕ) → start_of c ≡ starts_object → (c == b'{') ≡ true
unfolding start_of is_digit
brace_byte c h = ground arith

data Shape (s : Start) : Type 0 where
  at_null : s ≡ starts_null → Shape s
  at_true : s ≡ starts_true → Shape s
  at_false : s ≡ starts_false → Shape s
  at_string : s ≡ starts_string → Shape s
  at_array : s ≡ starts_array → Shape s
  at_object : s ≡ starts_object → Shape s
  at_number : s ≡ starts_number → Shape s
  at_nothing : s ≡ starts_nothing → Shape s

shape : (s : Start) → Shape s
shape starts_null = at_null refl
shape starts_true = at_true refl
shape starts_false = at_false refl
shape starts_string = at_string refl
shape starts_array = at_array refl
shape starts_object = at_object refl
shape starts_number = at_number refl
shape starts_nothing = at_nothing refl

-- What is left behind the byte `c` that closes or separates.
behind : (t : Text) (c : ℕ) → (peek t == c) ≡ true → 0 < c → suc (length (rest_of t)) ≤ length t
behind t c e h = omega (arith, rest_shrinks t c e h)

-- The end of a round of the loop over an array or an object, after the entry.
entry-Ends {ℓ μ} :
    {V : Type ℓ} {W : Type μ} (size b close : ℕ) (rest : Text) (last : W) (add : V → W)
    (message : Text) (loop : Text → Read (V × Text))
    → 0 < close
    → length rest < b
    → ((t : Text) → length t < length rest → Ends (length t) (loop t))
    → Ends b (
        let after = skip_whitespace rest in
        let more = loop (rest_of after) >>= λ q. read (add q.0, q.1) in
        if peek after == close
        then read (last, rest_of after)
        else if peek after == b','
        then more
        else fail size after message)
unfolding fail
entry-Ends size b close rest last add message loop positive shorter ends =
    let after = skip_whitespace rest in
    let skipped = skip_shrinks rest in
    elim (Bool-cases (peek after == close)) [
      | inl closed ↦ rw (closed, Ends) (omega (arith, behind after close closed positive))
      | inr unclosed ↦ elim (Bool-cases (peek after == b',')) [
        | inl comma ↦
            rw (unclosed, comma, Ends)
              (let left = behind after b',' comma (omega arith) in
                >>=-Ends (length (rest_of after)) b (loop (rest_of after))
                  (λ q. read (add q.0, q.1)) (ends (rest_of after) (omega arith))
                  (λ vs end m. omega arith))
        | inr other ↦ rw (unclosed, other, Ends) tt
      ]
    ]

mutual
  unfolding parse_value parse_array parse_items parse_object parse_members fail str

  parse_value-Ends :
      (n : Numbers) (size f : ℕ) (t : Text)
      → 3 * length t + 1 ≤ f
      → Ends (length t) (parse_value n size f t)
  parse_value-Ends n size zero t h = absurd (omega arith)
  parse_value-Ends n size (suc f) t h =
      let ready = skip_whitespace t in
      let shorter = skip_shrinks t in
      elim (shape (start_of (peek ready))) [
        | at_null e ↦
            rw (e, Ends) (parse_literal-Ends (length t) size b'n' (str "ull") ready null shorter)
        | at_true e ↦
            rw (e, Ends)
              (parse_literal-Ends (length t) size b't' (str "rue") ready (bool true) shorter)
        | at_false e ↦
            rw (e, Ends)
              (parse_literal-Ends (length t) size b'f' (str "alse") ready (bool false) shorter)
        | at_string e ↦
            rw (e, Ends)
              (>>=-Ends (length t) (length t) (parse_string size ready)
                (λ r. read (string r.0, r.1)) (parse_string-Ends (length t) size ready shorter)
                (λ v rest l. l))
        | at_array e ↦
            rw (e, Ends)
              (let inner = behind ready b'[' (bracket_byte (peek ready) e) (omega arith) in
                parse_array-Ends n size f (length t) (skip_whitespace (rest_of ready))
                  (omega (arith, skip_shrinks (rest_of ready)))
                  (omega (arith, skip_shrinks (rest_of ready))))
        | at_object e ↦
            rw (e, Ends)
              (let inner = behind ready b'{' (brace_byte (peek ready) e) (omega arith) in
                parse_object-Ends n size f (length t) (skip_whitespace (rest_of ready))
                  (omega (arith, skip_shrinks (rest_of ready)))
                  (omega (arith, skip_shrinks (rest_of ready))))
        | at_number e ↦ rw (e, Ends) (parse_number-Ends n size (length t) ready e shorter)
        | at_nothing e ↦ rw (e, Ends) tt
      ]

  parse_array-Ends :
      (n : Numbers) (size f b : ℕ) (t : Text)
      → 3 * length t + 3 ≤ f
      → length t < b
      → Ends b (parse_array n size f t)
  parse_array-Ends n size zero b t h l = absurd (omega arith)
  parse_array-Ends n size (suc f) b t h l = elim (Bool-cases (peek t == b']')) [
    | inl close ↦ rw (close, Ends) (omega (arith, behind t b']' close (omega arith)))
    | inr other ↦
        rw (other, Ends)
          (>>=-Ends (length t) b (parse_items n size f t) (λ r. read (array r.0, r.1))
            (parse_items-Ends n size f t (omega arith)) (λ v rest k. omega arith))
  ]

  parse_items-Ends :
      (n : Numbers) (size f : ℕ) (t : Text)
      → 3 * length t + 2 ≤ f
      → Ends (length t) (parse_items n size f t)
  parse_items-Ends n size zero t h = absurd (omega arith)
  parse_items-Ends n size (suc f) t h =
      >>=-Ends (length t) (length t) (parse_value n size f t) _
        (parse_value-Ends n size f t (omega arith))
        (λ v rest k.
          entry-Ends size (length t) b']' rest (item v no_items) (item v)
            (str "expected ',' or ']'") (parse_items n size f) (omega arith) (omega arith)
            (λ next j. parse_items-Ends n size f next (omega arith)))

  parse_object-Ends :
      (n : Numbers) (size f b : ℕ) (t : Text)
      → 3 * length t + 3 ≤ f
      → length t < b
      → Ends b (parse_object n size f t)
  parse_object-Ends n size zero b t h l = absurd (omega arith)
  parse_object-Ends n size (suc f) b t h l = elim (Bool-cases (peek t == b'}')) [
    | inl close ↦ rw (close, Ends) (omega (arith, behind t b'}' close (omega arith)))
    | inr other ↦
        rw (other, Ends)
          (>>=-Ends (length t) b (parse_members n size f t)
            (λ r. read (object (collect no_members r.0), r.1))
            (parse_members-Ends n size f t (omega arith)) (λ v rest k. omega arith))
  ]

  parse_members-Ends :
      (n : Numbers) (size f : ℕ) (t : Text)
      → 3 * length t + 2 ≤ f
      → Ends (length t) (parse_members n size f t)
  parse_members-Ends n size zero t h = absurd (omega arith)
  parse_members-Ends n size (suc f) t h =
      >>=-Ends (length t) (length t) (parse_string size (skip_whitespace t)) _
        (parse_string-Ends (length t) size (skip_whitespace t) (skip_shrinks t))
        (λ k left l.
          (let colon = skip_whitespace left in
            let shorter = skip_shrinks left in
            elim (Bool-cases (peek colon == b':')) [
              | inl there ↦
                  rw (there, Ends)
                    (let value = behind colon b':' there (omega arith) in
                      >>=-Ends (length (rest_of colon)) (length t)
                        (parse_value n size f (rest_of colon)) _
                        (parse_value-Ends n size f (rest_of colon) (omega arith))
                        (λ v rest m.
                          entry-Ends size (length t) b'}' rest (member k v no_members) (member k v)
                            (str "expected ',' or '}'") (parse_members n size f) (omega arith)
                            (omega arith)
                            (λ next j. parse_members-Ends n size f next (omega arith))))
              | inr other ↦ rw (other, Ends) tt
            ]))

finish_ends : (size : ℕ) (r : Value × Text) → finish_parse size r ≢ out_of_fuel
unfolding finish_parse fail
finish_ends size (v, rest) e = elim (Bool-cases (text_eq (skip_whitespace rest) [])) [
  | inl done ↦ cc
  | inr more ↦ cc
]

finish_after :
    (size b : ℕ) (r : Read (Value × Text))
    → Ends b r
    → (r >>= λ v. finish_parse size v) ≢ out_of_fuel
finish_after size b (thrown message) h e = cc
finish_after size b out_of_fuel h e = h
finish_after size b (read v) h e = finish_ends size v e

-- With fuel of 3 times the number of bytes and 3, the parser returns a value or throws, whatever the
-- bytes are: it never asks for more fuel.
pub parse_fuel_ends :
    (n : Numbers) (input : Text) → parse_fuel n (3 * length input + 3) input ≢ out_of_fuel
unfolding parse_fuel
parse_fuel_ends n input =
    finish_after (length input) (length input)
      (parse_value n (length input) (3 * length input + 3) input)
      (parse_value-Ends n (length input) (3 * length input + 3) input (omega arith))
