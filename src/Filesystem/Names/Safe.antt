-- ===== src/Filesystem/Names/Safe.antt =====
-- A sanitized name is one ordinary component of a path.
use mathlib.Core.List.{append-nil}
use cget.Prelude.{
  ◌++◌, ◌⊎◌, ◌==◌, ==_iff, text_eq_iff, ap, ◌∙◌, if◌then◌else◌, ℕ, ◌≤◌, ◌≡◌, ◌≢◌, refl, inl, inr,
  false, [], ◌∷◌, Text, str, text_eq, map, All, arith, Bool-cases,
}
use cget.Filesystem.Names.{
  is_reserved, sanitize_char, sanitize_file_name, file_name_from_url, cut_at, after_last_slash,
}

-- No separator and no control character.
abbrev pub IsPlain : ℕ → Type 0
IsPlain c = (32 ≤ c) × (c ≢ b'/') × (c ≢ 92)

-- One component of a path that is neither empty nor `.` nor `..`.
pub record IsSafeName (name : Text) : Type 0 where
  pub plain : All IsPlain name
  pub ordinary : is_reserved name ≡ false

map-IsPlain : (name : Text) → All IsPlain (map sanitize_char name)
unfolding sanitize_char
map-IsPlain [] = tt
map-IsPlain (c ∷ cs) = (ground arith, map-IsPlain cs)

download_safe : IsSafeName (str "download")
unfolding str is_reserved text_eq
download_safe = record { plain = omega arith; ordinary = refl }

-- Whatever the name, its sanitized form has no separator and no control character, and is not empty,
-- `.` or `..`.
pub sanitize_file_name-IsSafeName : (name : Text) → IsSafeName (sanitize_file_name name)
unfolding sanitize_file_name
sanitize_file_name-IsSafeName name = elim (Bool-cases (is_reserved name)) [
  | inl bad ↦ rw bad download_safe
  | inr fine ↦ elim (Bool-cases (is_reserved (map sanitize_char name))) [
    | inl bad ↦ rw (fine, bad) download_safe
    | inr good ↦ rw (fine, good) (record { plain = map-IsPlain name; ordinary = good })
  ]
]

-- The byte does not occur in the text.
abbrev pub Lacks : ℕ → Text → Type 0
Lacks c text = All (λ x. x ≢ c) text

-- What may follow the path of a URL: nothing, or a query or a fragment.
abbrev pub IsTail : Text → Type 0
IsTail [] = Unit
IsTail (x ∷ xs) = (x ≡ b'?') ⊎ (x ≡ b'#')

not_equal : (x c : ℕ) → x ≢ c → (x == c) ≡ false
not_equal x c h = elim (Bool-cases (x == c)) [
  | inl same ↦ absurd (h ((==_iff x c).0 same))
  | inr other ↦ other
]

Lacks-append : (c : ℕ) (xs ys : Text) → Lacks c xs → Lacks c ys → Lacks c (xs ++ ys)
Lacks-append c [] ys h k = k
Lacks-append c (x ∷ xs) ys (h, hs) k = (h, Lacks-append c xs ys hs k)

-- A text without the byte is kept, and the cut goes on behind it.
cut_at-append : (c : ℕ) (xs ys : Text) → Lacks c xs → cut_at c (xs ++ ys) ≡ xs ++ cut_at c ys
unfolding cut_at
cut_at-append c [] ys h = refl
cut_at-append c (x ∷ xs) ys (h, hs) = rw (not_equal x c h) (ap (◌∷◌ x) (cut_at-append c xs ys hs))

-- The two cuts leave nothing of a query or a fragment.
cut_tail : (tail : Text) → IsTail tail → cut_at b'?' (cut_at b'#' tail) ≡ []
unfolding cut_at
cut_tail [] h = refl
cut_tail (x ∷ xs) (inl e) = rw e refl
cut_tail (x ∷ xs) (inr e) = rw e refl

nonempty : (name : Text) → name ≢ [] → text_eq name [] ≡ false
nonempty name full = elim (Bool-cases (text_eq name [])) [
  | inl same ↦ absurd (full ((text_eq_iff name []).0 same))
  | inr other ↦ other
]

cut_whole :
    (path tail : Text)
    → Lacks b'?' path
    → Lacks b'#' path
    → IsTail tail
    → cut_at b'?' (cut_at b'#' (path ++ tail)) ≡ path
cut_whole path tail h k t =
    ap (cut_at b'?') (cut_at-append b'#' path tail k)
    ∙ (cut_at-append b'?' path (cut_at b'#' tail) h
        ∙ (ap (◌++◌ path) (cut_tail tail t) ∙ append-nil path))

after_last_slash-kept : (best name : Text) → Lacks b'/' name → after_last_slash best name ≡ best
unfolding after_last_slash
after_last_slash-kept best [] h = refl
after_last_slash-kept best (x ∷ xs) (h, hs) =
    rw (not_equal x b'/' h) (after_last_slash-kept best xs hs)

after_last_slash-append :
    (best base name : Text) → Lacks b'/' name → after_last_slash best (base ++ b'/' ∷ name) ≡ name
unfolding after_last_slash
after_last_slash-append best [] name h = after_last_slash-kept name name h
after_last_slash-append best (x ∷ xs) name h =
    after_last_slash-append (if x == b'/' then xs ++ b'/' ∷ name else best) xs name h

-- For a URL that is a base, a slash, a name that is not empty, and a query, a fragment or nothing, where
-- neither base nor name has a `?` or a `#` and the name has no slash, the file name is the sanitized
-- name: whatever slashes the base and the rest have, one ordinary component of a path.
pub file_name_from_url_lem :
    (base name tail : Text)
    → Lacks b'?' base
    → Lacks b'#' base
    → Lacks b'?' name
    → Lacks b'#' name
    → Lacks b'/' name
    → name ≢ []
    → IsTail tail
    → let file_name = file_name_from_url ((base ++ b'/' ∷ name) ++ tail) in
      (file_name ≡ sanitize_file_name name) × IsSafeName file_name
unfolding file_name_from_url
file_name_from_url_lem base name tail base_q base_h name_q name_h flat full t =
    let path = base ++ b'/' ∷ name in
    let cut =
      cut_whole path tail
        (Lacks-append b'?' base (b'/' ∷ name) base_q ((λ e. absurd (omega (arith, e))), name_q))
        (Lacks-append b'#' base (b'/' ∷ name) base_h ((λ e. absurd (omega (arith, e))), name_h))
        t in
    let last = after_last_slash-append path base name flat in
    let named : text_eq name [] ≡ false = nonempty name full in
    (rw (cut, last, named) refl, sanitize_file_name-IsSafeName _)
