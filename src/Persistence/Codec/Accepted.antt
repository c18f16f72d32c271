-- ===== src/Persistence/Codec/Accepted.antt =====
-- The tasks that `taskFromJson` accepts.
use cget.Prelude.{
  ◌≤◌, ◌≡◌, refl, sym, ◌∙◌, ◌||◌, Bool-cases, inl, inr, List, Text, str, arith, ltb, subst,
  if◌then◌else◌, All,
}
use cget.Core.Types.{DownloadTask, Chunk, chunk_size}
use cget.Core.Types.Names.{chunk_status_from_string}
use cget.Core.Errors.{
  ok, err, ◌>>=◌, >>=-eq-ok, Result-cases, ok-injective, throw, ErrorCode, CgetError,
}
use cget.Json.Syntax.{Value, Items, no_items, item, Numbers, at, as_array}
use cget.Json.Parser.{parse_json}
use cget.Persistence.Codec.{Clock}
use cget.Persistence.Codec.Decode.{
  read_status, text_at, whole_at, word_at, chunk_from_json, chunks_from_json, read_origin,
  read_remote, read_scheduling, read_chunks, task_from_value, task_from_json,
}

-- A chunk that is not turned around, and of which no more is there than it has.
abbrev pub IsChunkRange : Chunk → Type 0
IsChunkRange c = (c.start ≤ c.end) × (c.downloaded ≤ chunk_size c)

thrown_not_ok {ℓ} : {V : Type ℓ} {e : CgetError} {v : V} → ¬ (err e ≡ ok v)
thrown_not_ok h = cc

checked_range :
    (c d : Chunk) (message : Text)
    → (if ltb c.end c.start || ltb (chunk_size c) c.downloaded
        then throw ErrorCode.json_corrupted_error message
        else ok c)
      ≡ ok d
    → IsChunkRange d
checked_range c d message h =
    elim (Bool-cases (ltb c.end c.start || ltb (chunk_size c) c.downloaded)) [
      | inl bad ↦ absurd (thrown_not_ok (rw bad at h))
      | inr good ↦ subst IsChunkRange (ok-injective (rw good at h)) (ground (arith, good))
    ]

chunk_from_json-IsChunkRange :
    (n : Numbers) (v : Value) {d : Chunk} → chunk_from_json n v ≡ ok d → IsChunkRange d
unfolding chunk_from_json
chunk_from_json-IsChunkRange n v h =
    let (index, e1, h1) = >>=-eq-ok (whole_at n v (str "index")) _ h in
    let (start, e2, h2) = >>=-eq-ok (whole_at n v (str "start")) _ h1 in
    let (end, e3, h3) = >>=-eq-ok (whole_at n v (str "end")) _ h2 in
    let (downloaded, e4, h4) = >>=-eq-ok (whole_at n v (str "downloaded")) _ h3 in
    let (name, e5, h5) = >>=-eq-ok (text_at v (str "status")) _ h4 in
    let (status, e6, h6) =
      >>=-eq-ok (read_status chunk_status_from_string (str "chunk") name) _ h5 in
    let (retries, e7, h7) = >>=-eq-ok (word_at n v (str "retry_count")) _ h6 in
    let (path, e8, h8) = >>=-eq-ok (text_at v (str "temp_path")) _ h7 in checked_range _ _ _ h8

chunks_from_json-IsChunkRange :
    (n : Numbers) (vs : Items) {cs : List Chunk}
    → chunks_from_json n vs ≡ ok cs
    → All IsChunkRange cs
unfolding chunks_from_json
chunks_from_json-IsChunkRange n no_items h = subst (All IsChunkRange) (ok-injective h) tt
chunks_from_json-IsChunkRange n (item v vs) h =
    let (c, e, h1) = >>=-eq-ok (chunk_from_json n v) _ h in
    let (cs, es, h2) = >>=-eq-ok (chunks_from_json n vs) _ h1 in
    subst (All IsChunkRange) (ok-injective h2)
      (chunk_from_json-IsChunkRange n v e, chunks_from_json-IsChunkRange n vs es)

read_chunks-IsChunkRange :
    (n : Numbers) (clock : Clock) (root : Value) (task : DownloadTask) {t : DownloadTask}
    → read_chunks n clock root task ≡ ok t
    → All IsChunkRange t.chunks
unfolding read_chunks
read_chunks-IsChunkRange n clock root task h =
    let (v, e, h1) = >>=-eq-ok (at root (str "chunks")) _ h in
    let (items, es, h2) = >>=-eq-ok (as_array v) _ h1 in
    let (chunks, ec, h3) = >>=-eq-ok (chunks_from_json n items) _ h2 in
    subst (λ t. All IsChunkRange t.chunks) (ok-injective h3)
      (chunks_from_json-IsChunkRange n items ec)

task_from_value-IsChunkRange :
    (n : Numbers) (clock : Clock) (root : Value) {t : DownloadTask}
    → task_from_value n clock root ≡ ok t
    → All IsChunkRange t.chunks
unfolding task_from_value
task_from_value-IsChunkRange n clock root h =
    let (origin, e1, h1) = >>=-eq-ok (read_origin n clock root) _ h in
    let (remote, e2, h2) = >>=-eq-ok (read_remote n clock root origin) _ h1 in
    let (scheduled, e3, h3) = >>=-eq-ok (read_scheduling n clock root remote) _ h2 in
    read_chunks-IsChunkRange n clock root scheduled h3

accepted :
    (n : Numbers) (clock : Clock) (text : Text) {t : DownloadTask}
    → parse_json n text >>= task_from_value n clock ≡ ok t
    → task_from_json n clock text ≡ ok t
unfolding task_from_json
accepted n clock text h = rw (task_from_json, h) refl

refused :
    (n : Numbers) (clock : Clock) (text : Text) {e : CgetError}
    → parse_json n text >>= task_from_value n clock ≡ err e
    → task_from_json n clock text ≡ throw ErrorCode.json_corrupted_error e.message
unfolding task_from_json
refused n clock text h = rw (task_from_json, h) refl

-- Whatever text taskFromJson accepts, no chunk of the task that it returns ends before its start or has
-- more bytes downloaded than its size.
pub task_from_json-IsChunkRange :
    (n : Numbers) (clock : Clock) (text : Text) {t : DownloadTask}
    → task_from_json n clock text ≡ ok t
    → All IsChunkRange t.chunks
unfolding task_from_json
task_from_json-IsChunkRange n clock text h =
    elim (Result-cases (parse_json n text >>= task_from_value n clock)) [
      | inl (task, returned) ↦
          (let (root, e, h1) = >>=-eq-ok (parse_json n text) (task_from_value n clock) returned in
            subst (λ t. All IsChunkRange t.chunks)
              (ok-injective (sym (accepted n clock text returned) ∙ h))
              (task_from_value-IsChunkRange n clock root h1))
      | inr (e, threw) ↦ absurd (thrown_not_ok (sym (refused n clock text threw) ∙ h))
    ]
