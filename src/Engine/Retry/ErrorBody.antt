-- ===== src/Engine/Retry/ErrorBody.antt =====
-- The body of an error reply ends in the part file.
use cget.Prelude.{
  ℕ, ◌≡◌, refl, sym, ◌∙◌, ap, ◌≤◌, ◌==◌, true, false, none, List, [], ◌∷◌, ◌++◌, Text, arith, All,
  str, text_eq, text_eq_iff, Bool-cases, inl, inr, ◌≢◌,
}
use mathlib.Core.List.{append_assoc, append-nil}
use cget.Core.Errors.{ok}
use cget.Filesystem.Disk.{content_of}
use cget.Network.Scheme.{scheme_of, is_http_url, range_can_use_success_without_http206}
use cget.Network.Http.{
  Block, CurlResult, curl_ok, Transfer, Performed, perform, range_result, throw_for_http_status,
  throw_for_curl, download_range,
}
use cget.Engine.Session.{Session, Context}
use cget.Engine.Retry.{deliver_block}
use cget.Engine.Retry.Part.{body, held-append_file}

deliver_block_quiet :
    (ctx : Context) (path : Text) (b : Block) (s : Session)
    → b.flush ≡ false
    → let o = deliver_block ctx path b s in
      (o.1 ≡ ok tt) × (content_of (o.0.disk.files path) ≡ content_of (s.disk.files path) ++ b.bytes)
unfolding deliver_block
deliver_block_quiet ctx path b s quiet = rw quiet (refl, held-append_file path b.bytes s.disk)

perform_quiet :
    (ctx : Context) (path : Text) (end : CurlResult) (bs : List Block) (s : Session)
    → All (λ b. b.flush ≡ false) bs
    → let (after, p) = perform (deliver_block ctx path) false end bs s in
      (content_of (after.disk.files path) ≡ content_of (s.disk.files path) ++ body bs)
      × (p.exception ≡ none)
      × (p.code ≡ end)
unfolding perform
perform_quiet ctx path end [] s h = (sym (append-nil _), refl, refl)
perform_quiet ctx path end (b ∷ bs) s (quiet, h) =
    let (fine, wrote) = deliver_block_quiet ctx path b s quiet in
    let (rest, none_kept, code) = perform_quiet ctx path end bs (deliver_block ctx path b s).0 h in
    rw fine
      (rest ∙ (ap (λ c. c ++ body bs) wrote ∙ append_assoc _ b.bytes (body bs)), none_kept, code)

http_not_ftp :
    (url : Text) → is_http_url url ≡ true → range_can_use_success_without_http206 url ≡ false
unfolding is_http_url range_can_use_success_without_http206 str text_eq
http_not_ftp url h = elim (Bool-cases (text_eq (scheme_of url) (str "http"))) [
  | inl plain ↦ rw ((text_eq_iff (scheme_of url) (str "http")).0 plain) refl
  | inr other ↦ elim (Bool-cases (text_eq (scheme_of url) (str "https"))) [
    | inl secure ↦ rw ((text_eq_iff (scheme_of url) (str "https")).0 secure) refl
    | inr neither ↦ absurd (ground (arith, h, other, neither))
  ]
]

not_200 : (n : ℕ) → 400 ≤ n → (n == 200) ≡ false
not_200 n h = ground arith

error_status : (n : ℕ) → 400 ≤ n → throw_for_http_status n ≢ ok tt
unfolding throw_for_http_status
error_status n h = ground arith

range_result_error :
    (url : Text) (n : ℕ) (p : Performed)
    → p.exception ≡ none
    → p.code ≡ curl_ok
    → is_http_url url ≡ true
    → 400 ≤ n
    → range_result url n p ≡ throw_for_http_status n
unfolding range_result throw_for_curl throw_for_http_status
range_result_error url n p kept end http le =
    rw (kept, end, range_result, http, http_not_ftp url http) (ground arith)

-- When a server answers the request of a range with an error status, from 400 on, and with a body, and
-- the transfer as such succeeds (no save falls due during it), then `downloadRange` throws
-- HttpStatusError, or MetadataMismatchError for the status 416; but the body of the error reply has
-- been appended to the part file, after the bytes that were there.
pub download_range_error_body :
    (ctx : Context) (path url : Text) (t : Transfer) (s : Session)
    → 400 ≤ t.header_status
    → t.response_code ≡ t.header_status
    → t.result ≡ curl_ok
    → is_http_url url ≡ true
    → All (λ b. b.flush ≡ false) t.blocks
    → let (after, done) = download_range (deliver_block ctx path) url t s in
      (done ≡ throw_for_http_status t.header_status)
      × (done ≢ ok tt)
      × (content_of (after.disk.files path) ≡ content_of (s.disk.files path) ++ body t.blocks)
unfolding download_range
download_range_error_body ctx path url t s status code result http quiet =
    let (wrote, kept, end) = perform_quiet ctx path t.result t.blocks s quiet in
    let p = (perform (deliver_block ctx path) false t.result t.blocks s).1 in
    let same : range_result url t.response_code p ≡ throw_for_http_status t.header_status =
      range_result_error url t.response_code p kept (end ∙ result) http (omega arith)
      ∙ ap throw_for_http_status code in
    rw (not_200 t.header_status status)
      (same, λ fine. error_status t.header_status status (sym same ∙ fine), wrote)
