-- ===== src/Manager/Url.antt =====
-- What `validateUrl` lets through, against the guards of the protocol registry.
use cget.Prelude.{
  ℕ, ◌≡◌, refl, inl, inr, true, false, some, Option-cases, List, [], ◌∷◌, Text, str, text_eq, arith,
  Bool-cases,
}
use cget.Core.Errors.{ok}
use cget.Network.Scheme.{
  to_lower, lower, before, scheme_of, is_known_download_scheme, contains, is_supported_scheme,
  create,
}
use cget.Manager.{validate_url}

to_lower_twice : (c : ℕ) → to_lower (to_lower c) ≡ to_lower c
unfolding to_lower
to_lower_twice c = ground arith

lower_twice : (t : Text) → lower (lower t) ≡ lower t
unfolding lower
lower_twice [] = refl
lower_twice (c ∷ cs) = rw (to_lower_twice c, lower_twice cs) refl

known_nonempty :
    (scheme : Text) → is_known_download_scheme scheme ≡ true → text_eq scheme [] ≡ false
unfolding is_known_download_scheme text_eq str
known_nonempty [] h = absurd cc
known_nonempty (c ∷ cs) h = refl

scheme_found :
    (url scheme : Text) → before (str "://") url ≡ some scheme → scheme_of url ≡ lower scheme
unfolding scheme_of
scheme_found url scheme there = rw (scheme_of, there) refl

supported_created :
    (curl_protocols : List Text) (supported url scheme : Text)
    → before (str "://") url ≡ some scheme
    → is_supported_scheme curl_protocols scheme ≡ true
    → create curl_protocols supported url ≡ ok tt
unfolding create is_supported_scheme
supported_created curl_protocols supported url scheme there good =
    let known : is_known_download_scheme (lower scheme) ≡ true = ground (arith, good) in
    let listed : contains curl_protocols (lower scheme) ≡ true = ground (arith, good) in
    rw
      (
        scheme_found url scheme there,
        known_nonempty (lower scheme) known,
        known,
        lower_twice scheme,
        known,
        listed,
      )
      refl

accepted_scheme :
    (curl_protocols : List Text) (supported url : Text)
    → validate_url curl_protocols supported url ≡ ok tt
    → (scheme : Text) × (before (str "://") url ≡ some scheme)
      × (is_supported_scheme curl_protocols scheme ≡ true)
unfolding validate_url
accepted_scheme curl_protocols supported url h = elim (Option-cases (before (str "://") url)) [
  | inl missing ↦ absurd (let failed = rw (missing, validate_url) at h in cc)
  | inr (scheme, there) ↦ elim (Bool-cases (is_supported_scheme curl_protocols scheme)) [
    | inl good ↦ (scheme, there, good)
    | inr bad ↦ absurd (let failed = rw (there, validate_url, bad) at h in cc)
  ]
]

-- For a URL that validateUrl accepts, ProtocolRegistry::create makes a handler.
pub validate_url-create :
    (curl_protocols : List Text) (supported url : Text)
    → validate_url curl_protocols supported url ≡ ok tt
    → create curl_protocols supported url ≡ ok tt
validate_url-create curl_protocols supported url h =
    let (scheme, there, good) = accepted_scheme curl_protocols supported url h in
    supported_created curl_protocols supported url scheme there good
