-- ===== src/Filesystem/Paths/Inside.antt =====
-- A part file lies in the temp directory of its task.
use cget.Prelude.{
  ℕ, ◌≡◌, refl, ap, sym, ◌∙◌, inl, inr, true, false, ◌||◌, List, [], ◌∷◌, ◌++◌, Text, str, text_eq,
  text_eq_iff, ◌==◌, if◌then◌else◌, any_of, arith, Bool-cases,
}
use mathlib.Core.List.{append_assoc}
use cget.Core.Types.{DownloadTask, Chunk}
use cget.Core.Errors.{ok}
use cget.Filesystem.Paths.{
  components, extend_first, ends_in_slash, is_absolute, join_path, is_path_traversal, chunk_path,
}

-- The directories entered so far, the innermost first; `..` leaves one, and an empty part or `.` stays.
abbrev step : List Text → Text → List Text
step dirs part =
    if text_eq part [] || text_eq part (str ".")
    then dirs
    else if text_eq part (str "..")
    then leave dirs
    else part ∷ dirs
  where
    leave : List Text → List Text
    leave [] = []
    leave (d ∷ ds) = ds

abbrev pub walk : List Text → List Text → List Text
walk dirs [] = dirs
walk dirs (p ∷ ps) = walk (step dirs p) ps

-- Parts without `..` lead from a directory to it or to a place below it.
pub walk_below :
    (parts dirs : List Text)
    → any_of (λ part. text_eq part (str "..")) parts ≡ false
    → (entered : List Text) × (walk dirs parts ≡ entered ++ dirs)
walk_below [] dirs h = ([], refl)
walk_below (p ∷ ps) dirs h = elim (Bool-cases (text_eq p [] || text_eq p (str "."))) [
  | inl stay ↦ rw stay (walk_below ps dirs (ground arith))
  | inr enter ↦
      let (entered, e) = walk_below ps (p ∷ dirs) (ground arith) in
      let down : text_eq p (str "..") ≡ false = ground arith in
      rw (enter, down) (entered ++ p ∷ [], e ∙ sym (append_assoc entered (p ∷ []) dirs))
]

components-cons_slash :
    (c : ℕ) (cs : Text) → (c == b'/') ≡ true → components (c ∷ cs) ≡ [] ∷ components cs
unfolding components
components-cons_slash c cs e = rw e

components-cons_other :
    (c : ℕ) (cs : Text) → (c == b'/') ≡ false → components (c ∷ cs) ≡ extend_first c (components cs)
unfolding components
components-cons_other c cs e = rw e

components-nonempty : (a : Text) → (p : Text) × (ps : List Text) × (components a ≡ p ∷ ps)
unfolding components
components-nonempty [] = ([], [], refl)
components-nonempty (c ∷ cs) = elim (Bool-cases (c == b'/')) [
  | inl slash ↦ ([], components cs, rw slash)
  | inr other ↦ let (p, ps, e) = components-nonempty cs in (c ∷ p, ps, rw (other, e))
]

components-slash : (a b : Text) → components (a ++ (b'/' ∷ b)) ≡ components a ++ components b
unfolding components
components-slash [] b = refl
components-slash (c ∷ cs) b = elim (Bool-cases (c == b'/')) [
  | inl slash ↦ rw slash (ap (◌∷◌ []) (components-slash cs b))
  | inr other ↦ let (p, ps, e) = components-nonempty cs in rw (other, components-slash cs b, e)
]

-- A path that ends in a slash has an empty last part, which the text after it fills.
components-ends_in_slash :
    (a b : Text)
    → ends_in_slash a ≡ true
    → (p : Text) × (ps : List Text) × (components a ≡ p ∷ (ps ++ [] ∷ []))
      × (components (a ++ b) ≡ p ∷ (ps ++ components b))
components-ends_in_slash [] b h = cc
components-ends_in_slash (c ∷ []) b h =
    ([], [], components-cons_slash c [] h ∙ unfold components in refl, components-cons_slash c b h)
components-ends_in_slash (c ∷ (d ∷ cs)) b h =
    let (p, ps, e, f) = components-ends_in_slash (d ∷ cs) b h in
    elim (Bool-cases (c == b'/')) [
      | inl slash ↦ (
        [],
        p ∷ ps,
        components-cons_slash c (d ∷ cs) slash ∙ ap (◌∷◌ []) e,
        components-cons_slash c (d ∷ (cs ++ b)) slash ∙ ap (◌∷◌ []) f,
      )
      | inr other ↦ (
        c ∷ p,
        ps,
        components-cons_other c (d ∷ cs) other ∙ ap (extend_first c) e,
        components-cons_other c (d ∷ (cs ++ b)) other ∙ ap (extend_first c) f,
      )
    ]

walk-append : (ps qs dirs : List Text) → walk dirs (ps ++ qs) ≡ walk (walk dirs ps) qs
walk-append [] qs dirs = refl
walk-append (p ∷ ps) qs dirs = walk-append ps qs (step dirs p)

-- Walking along `a / b` is walking along `a` and then along `b`.
walk-join_path :
    (dirs : List Text) (a b : Text)
    → is_absolute b ≡ false
    → walk dirs (components (join_path a b)) ≡ walk (walk dirs (components a)) (components b)
unfolding join_path
walk-join_path dirs a b rel = elim (Bool-cases (text_eq a [])) [
  | inl empty ↦
      let e = (text_eq_iff a []).0 empty in rw (rel, empty, e) (unfold components text_eq in refl)
  | inr full ↦ elim (Bool-cases (ends_in_slash a)) [
    | inl slash ↦
        let (p, ps, e, f) = components-ends_in_slash a b slash in
        rw (rel, full, slash, e, f, walk-append ps (components b), walk-append ps ([] ∷ []))
          (unfold text_eq in refl)
    | inr plain ↦
        rw (rel, full, plain, components-slash a b) (walk-append (components a) (components b) dirs)
  ]
]

-- When `chunkPath` returns a path, that path leads to a place in the task's temp directory or below
-- it: following the parts of the path, `..` included, one enters the directories of the temp
-- directory and then only further ones.
pub chunk_path_inside :
    (task : DownloadTask) (chunk : Chunk) (path : Text)
    → chunk_path task chunk ≡ ok path
    → (entered : List Text) × (walk [] (components path)
        ≡ entered ++ walk [] (components task.temp_dir))
unfolding chunk_path
chunk_path_inside task chunk path h =
    let inside : is_path_traversal chunk.temp_path ≡ false = ground arith in
    let rel : is_absolute chunk.temp_path ≡ false = ground arith in
    let named : path ≡ join_path task.temp_dir chunk.temp_path = ground arith in
    let (entered, e) =
      walk_below (components chunk.temp_path) (walk [] (components task.temp_dir))
        (unfold is_path_traversal in inside) in
    (
      entered,
      ap (λ p. walk [] (components p)) named
          ∙ walk-join_path [] task.temp_dir chunk.temp_path rel
          ∙ e,
    )
