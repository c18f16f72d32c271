-- ===== src/Engine/Retry/Resume.antt =====
-- Every step of the attempts at a chunk keeps the part file a beginning of the chunk's bytes.
use cget.Prelude.{
  ℕ, zero, suc, ◌+◌, ◌-◌, ◌≡◌, refl, sym, ◌∙◌, ap, inl, inr, ◌≤◌, ◌<◌, Bool, true, false, some,
  List, [], ◌∷◌, ◌++◌, Text, length, take, drop, drop-drop, length-append, length-take, length-drop,
  arith, Bool-cases, ltb, leb, ltb→lt, leb→le, u64, subst, ◌==◌, ==_iff, u64_mod,
}
use mathlib.Core.List.{append_assoc}
use cget.Core.Types.{ChunkStatus, chunk_size}
use cget.Core.Errors.{ok, err, Result-cases}
use cget.Filesystem.Paths.{chunk_path, part_path}
use cget.Filesystem.Disk.{Content, content_of, Disk, file_size}
use cget.Network.Http.{Block, CurlResult, Transfer, perform, download_range}
use cget.Engine.Session.{Session, Outcome, continue_with, Context, persist_task}
use cget.Engine.Retry.{
  measure_part, complete_chunk, set_chunk_downloaded, append_file, range_text, deliver_block,
  mark_downloading, check_part, fetch_rest, attempt_chunk, fail_chunk, note_retry, retry_chunk,
  gives_up,
}
use cget.Engine.Retry.Part.{
  body, Begins, rest_of_take, all_of_it, held-append_file, chunk_path-counts, persist_task_disk,
}

module _ (ctx : Context) (transfer : ℕ → Text → Text → Transfer) (path url : Text) (start end : ℕ)
    (file : Content) where
  -- The bytes of the chunk.
  abbrev slice : Content
  slice = take (end + 1 - start) (drop start file)

  abbrev held : Session → Content
  held s = content_of (s.disk.files path)

  -- A worker at the chunk: its part file is `path` and holds the beginning of the chunk's bytes.
  pub record Sound (s : Session) : Type 0 where
    pub named : chunk_path s.task s.chunk ≡ ok path
    pub from : s.task.url ≡ url
    pub first : s.chunk.start ≡ start
    pub last : s.chunk.end ≡ end
    pub begins : Begins (held s) slice

  -- The part file holds all of the chunk's bytes, and the chunk counts as complete.
  pub record Complete (s : Session) : Type 0 where
    pub whole : s.disk.files path ≡ some slice
    pub counted : s.chunk.downloaded ≡ length slice
    pub closed : s.chunk.status ≡ ChunkStatus.completed

  abbrev pub Fine : Outcome → Type 0
  Fine o = Sound o.0 × (o.1 ≡ ok tt → Complete o.0)

  continue_with-Fine :
      (o : Outcome) (next : Session → Outcome)
      → Sound o.0
      → (o.1 ≡ ok tt → Sound o.0 → Fine (next o.0))
      → Fine (continue_with o next)
  continue_with-Fine (s, ok tt) next h more = more refl h
  continue_with-Fine (s, err e) next h more = (h, λ done. absurd (cc))

  persist_task-Sound : (s : Session) → Sound s → Sound (persist_task ctx s).0
  unfolding persist_task chunk_path
  persist_task-Sound s h = record {
    named = h.named;
    from = h.from;
    first = h.first;
    last = h.last;
    begins = h.begins;
  }

  persist_task-Complete : (s : Session) → Complete s → Complete (persist_task ctx s).0
  unfolding persist_task
  persist_task-Complete s h = record { whole = h.whole; counted = h.counted; closed = h.closed }

  mark_downloading-Sound : (s : Session) → Sound s → Sound (mark_downloading s)
  unfolding mark_downloading chunk_path part_path
  mark_downloading-Sound s h = record {
    named = h.named;
    from = h.from;
    first = h.first;
    last = h.last;
    begins = h.begins;
  }

  module _ (ordered : start ≤ end) (inside : end < length file)
      (small : length file < u64_mod) where
    length-slice : length slice ≡ end + 1 - start
    length-slice =
        length-take (end + 1 - start) (drop start file) (omega (arith, length-drop start file))

    pub chunk_size-slice : (s : Session) → Sound s → chunk_size s.chunk ≡ length slice
    unfolding chunk_size
    chunk_size-slice s h = ground (arith, h.first, h.last, length-slice)

    held_le : (s : Session) → Sound s → length (held s) ≤ length slice
    held_le s h =
        let (rest, e) = h.begins in omega (arith, ap length e, length-append (held s) rest)

    -- The part file is never too long, so it is only measured.
    measure_part-Sound :
        (s : Session)
        → Sound s
        → Sound (measure_part path s).0
          × ((measure_part path s).0.chunk.downloaded ≡ length (held (measure_part path s).0))
    unfolding measure_part file_size chunk_path part_path
    measure_part-Sound s h = elim (Bool-cases (ltb (chunk_size s.chunk) (length (held s)))) [
      | inl longer ↦ absurd (omega (arith, ltb→lt _ _ longer, held_le s h, chunk_size-slice s h))
      | inr fits ↦ rw fits (
        record {
          named = h.named;
          from = h.from;
          first = h.first;
          last = h.last;
          begins = h.begins;
        },
        refl,
      )
    ]

    complete_chunk-Fine :
        (s : Session)
        → Sound s
        → s.disk.files path ≡ some slice
        → s.chunk.downloaded ≡ length slice
        → Sound (complete_chunk s) × Complete (complete_chunk s)
    unfolding complete_chunk chunk_path part_path
    complete_chunk-Fine s h full count = (
      record { named = h.named; from = h.from; first = h.first; last = h.last; begins = h.begins },
      record { whole = full; counted = count; closed = refl },
    )

    all_held :
        (s : Session) → Sound s → length slice ≤ length (held s) → s.disk.files path ≡ some slice
    all_held s h le = all_of_it (s.disk.files path) slice h.begins le (omega (arith, length-slice))

    counts_only : (s : Session) → Sound s → Sound (set_chunk_downloaded (chunk_size s.chunk) s)
    unfolding chunk_path part_path
    counts_only s h = record {
      named = h.named;
      from = h.from;
      first = h.first;
      last = h.last;
      begins = h.begins;
    }

    -- A session at the same chunk whose part file has grown towards the chunk's bytes.
    grown :
        (s s' : Session) (bytes more : Content)
        → Sound s
        → chunk_path s'.task s'.chunk ≡ ok path
        → s'.task.url ≡ s.task.url
        → s'.chunk.start ≡ s.chunk.start
        → s'.chunk.end ≡ s.chunk.end
        → held s' ≡ held s ++ bytes
        → Begins (held s ++ (bytes ++ more)) slice
        → Sound s' × Begins (held s' ++ more) slice
    grown s s' bytes more h named from first last now (rest, e) =
        let whole : held s' ++ (more ++ rest) ≡ slice =
          rw
            (
              now,
              append_assoc (held s) bytes (more ++ rest),
              sym (append_assoc bytes more rest),
              sym (append_assoc (held s) (bytes ++ more) rest),
            )
            e in
        (
          record {
            named = named;
            from = from ∙ h.from;
            first = first ∙ h.first;
            last = last ∙ h.last;
            begins = (more ++ rest, whole);
          },
          (rest, append_assoc (held s') more rest ∙ whole),
        )

    persist_task-Begins :
        (more : Content) (s : Session)
        → Sound s × Begins (held s ++ more) slice
        → let s' = (persist_task ctx s).0 in Sound s' × Begins (held s' ++ more) slice
    persist_task-Begins more s (h, b) = (
      persist_task-Sound s h,
      subst (λ (d : Disk). Begins (content_of (d.files path) ++ more) slice)
          (sym (persist_task_disk ctx s)) b,
    )

    -- While the blocks come, the part file and the blocks to come begin the chunk's bytes.
    deliver_block-Sound :
        (b : Block) (more : Content) (s : Session)
        → Sound s
        → Begins (held s ++ (b.bytes ++ more)) slice
        → let s' = (deliver_block ctx path b s).0 in Sound s' × Begins (held s' ++ more) slice
    unfolding deliver_block
    deliver_block-Sound b more s h e =
        let written : Session = record s {
          disk = append_file path b.bytes s.disk;
          chunk = record s.chunk { downloaded = u64 (s.chunk.downloaded + length b.bytes) };
          task = record s.task { downloaded = u64 (s.task.downloaded + length b.bytes) };
        } in
        let progress =
          grown s written b.bytes more h (chunk_path-counts s _ _ ∙ h.named) refl refl refl
            (held-append_file path b.bytes s.disk) e in
        elim (Bool-cases b.flush) [
          | inl due ↦ rw due (persist_task-Begins more written progress)
          | inr later ↦ rw later progress
        ]

    perform-Sound :
        (reject : Bool) (result : CurlResult) (bs : List Block) (s : Session)
        → Sound s
        → Begins (held s ++ body bs) slice
        → Sound (perform (deliver_block ctx path) reject result bs s).0
    unfolding perform
    perform-Sound reject result [] s h e = h
    perform-Sound true result (b ∷ bs) s h e = h
    perform-Sound false result (b ∷ bs) s h e =
        let step = deliver_block ctx path b s in
        let (sound, grows) = deliver_block-Sound b (body bs) s h e in
        elim (Result-cases step.1) [
          | inl (_, fine) ↦ rw fine (perform-Sound false result bs step.0 sound grows)
          | inr (thrown, failed) ↦ rw failed sound
        ]

    check_part-Fine : (s : Session) → Sound s → Fine (check_part ctx transfer path s)
    unfolding check_part file_size
    check_part-Fine s h = elim (Bool-cases (length (held s) == chunk_size s.chunk)) [
      | inl same ↦
          let size = chunk_size-slice s h in
          let (sound, complete) =
            complete_chunk-Fine (set_chunk_downloaded (chunk_size s.chunk) s) (counts_only s h)
              (all_held s h (omega (arith, size, (==_iff _ _).0 same))) size in
          rw same (persist_task-Sound _ sound, λ _. persist_task-Complete _ complete)
      | inr short ↦ rw short (h, λ done. absurd (cc))
    ]

    module _
        (honest : (n a : ℕ)
          → start ≤ a
          → a ≤ end
          → Begins
              (body (transfer n url (range_text a end)).blocks)
              (take (end + 1 - a) (drop a file))) where
      -- What the server sends next continues the part file.
      continues :
          (n : ℕ) (s : Session)
          → Sound s
          → length (held s) < length slice
          → Begins
              (held s ++ body (transfer n url (range_text (start + length (held s)) end)).blocks)
              slice
      continues n s h short =
          let (rest, e) = h.begins in
          let left =
            rest_of_take (held s) rest (drop start file) (end + 1 - start)
              (end + 1 - (start + length (held s))) (omega arith) e in
          let (tail, t) =
            honest n (start + length (held s)) (omega arith) (omega (arith, length-slice)) in
          let same : rest
              ≡ take (end + 1 - (start + length (held s))) (drop (start + length (held s)) file) =
            left
            ∙ ap (take (end + 1 - (start + length (held s))))
                (drop-drop start (length (held s)) (start + length (held s)) file refl) in
          (tail, append_assoc (held s) _ tail ∙ (ap (λ r. held s ++ r) (t ∙ sym same) ∙ e))

      request :
          (n : ℕ) (s : Session)
          → Sound s
          → s.chunk.downloaded ≡ length (held s)
          → transfer n url (range_text (start + length (held s)) end)
            ≡ transfer n s.task.url
                (range_text (u64 (s.chunk.start + s.chunk.downloaded)) s.chunk.end)
      request n s h count =
          let begin : u64 (s.chunk.start + s.chunk.downloaded) ≡ start + length (held s) =
            omega (arith, h.first, held_le s h, length-slice) in
          rw (h.from, h.last, begin) refl

      opened-Sound :
          (more : Content) (s : Session)
          → Sound s
          → Begins (held s ++ more) slice
          → let s' = mark_downloading (record s { disk = append_file path [] s.disk }) in
            Sound s' × Begins (held s' ++ more) slice
      unfolding mark_downloading chunk_path part_path
      opened-Sound more s h e =
          grown s (mark_downloading (record s { disk = append_file path [] s.disk })) [] more h
            h.named refl refl refl (held-append_file path [] s.disk) e

      fetch_rest-Fine :
          (n : ℕ) (s : Session)
          → Sound s
          → s.chunk.downloaded ≡ length (held s)
          → length (held s) < length slice
          → Fine (fetch_rest ctx transfer n path s)
      unfolding fetch_rest download_range
      fetch_rest-Fine n s h count short = elim (Bool-cases (s.disk.denied path)) [
        | inl refused ↦ rw refused (h, λ done. absurd (cc))
        | inr allowed ↦
            let sent =
              transfer n s.task.url
                (range_text (u64 (s.chunk.start + s.chunk.downloaded)) s.chunk.end) in
            let asked : transfer n url (range_text (start + length (held s)) end) ≡ sent =
              request n s h count in
            let opened = mark_downloading (record s { disk = append_file path [] s.disk }) in
            let (sound, grows) = opened-Sound (body sent.blocks) s h (
              subst (λ (t : Transfer). Begins (held s ++ body t.blocks) slice) asked
                (continues n s h short)) in
            let (kept, ready) = persist_task-Begins (body sent.blocks) opened (sound, grows) in
            rw allowed (
              continue_with-Fine (persist_task ctx opened) _ kept (λ _ _.
                continue_with-Fine
                  (download_range (deliver_block ctx path) s.task.url sent
                    (persist_task ctx opened).0)
                  (check_part ctx transfer path)
                  (perform-Sound (sent.header_status == 200) sent.result sent.blocks
                    (persist_task ctx opened).0 kept ready)
                  (λ _ got. check_part-Fine _ got)))
      ]

      attempt_chunk-Fine : (n : ℕ) (s : Session) → Sound s → Fine (attempt_chunk ctx transfer n s)
      unfolding attempt_chunk
      attempt_chunk-Fine n s h =
          let (sound, count) = measure_part-Sound s h in
          let size = chunk_size-slice (measure_part path s).0 sound in
          rw (h.named, attempt_chunk)
            (continue_with-Fine (measure_part path s) _ sound (λ _ _.
              elim (Bool-cases (
                leb (chunk_size (measure_part path s).0.chunk)
                  (measure_part path s).0.chunk.downloaded)) [
                    | inl enough ↦
                        let le = leb→le _ _ enough in
                        let full = all_held _ sound (omega arith) in
                        let (done, complete) =
                          complete_chunk-Fine _ sound full (omega (arith, held_le _ sound)) in
                        rw enough (done, λ _. complete)
                    | inr short ↦ rw short (fetch_rest-Fine n _ sound count (ground (arith, short)))
                  ]))

      fail_chunk-Sound : (k : ℕ) (s : Session) → Sound s → Sound (fail_chunk k s)
      unfolding fail_chunk chunk_path part_path
      fail_chunk-Sound k s h = record {
        named = h.named;
        from = h.from;
        first = h.first;
        last = h.last;
        begins = h.begins;
      }

      note_retry-Sound :
          (k : ℕ) (message : Text) (s : Session) → Sound s → Sound (note_retry k message s)
      unfolding note_retry fail_chunk chunk_path part_path
      note_retry-Sound k message s h = record {
        named = h.named;
        from = h.from;
        first = h.first;
        last = h.last;
        begins = h.begins;
      }

      pub retry_chunk-Fine :
          (rest n : ℕ) (s : Session) → Sound s → Fine (retry_chunk ctx transfer rest n s)
      unfolding retry_chunk
      retry_chunk-Fine zero n s h =
          let try = attempt_chunk ctx transfer n s in
          let (sound, complete) = attempt_chunk-Fine n s h in
          elim (Result-cases try.1) [
            | inl (_, fine) ↦ rw (fine, retry_chunk) (sound, λ _. complete fine)
            | inr (e, failed) ↦
                rw (failed, retry_chunk) (fail_chunk-Sound n _ sound, λ done. absurd (cc))
          ]
      retry_chunk-Fine (suc rest) n s h =
          let try = attempt_chunk ctx transfer n s in
          let (sound, complete) = attempt_chunk-Fine n s h in
          elim (Result-cases try.1) [
            | inl (_, fine) ↦ rw (fine, retry_chunk) (sound, λ _. complete fine)
            | inr (e, failed) ↦ elim (Bool-cases (gives_up e.code)) [
              | inl last ↦
                  rw (failed, last, retry_chunk) (fail_chunk-Sound n _ sound, λ done. absurd (cc))
              | inr more ↦
                  rw (failed, more, retry_chunk)
                    (continue_with-Fine (persist_task ctx (note_retry (n + 1) e.message try.0)) _
                      (persist_task-Sound _ (note_retry-Sound (n + 1) e.message _ sound))
                      (λ _ noted. retry_chunk-Fine rest (n + 1) _ noted))
            ]
          ]
