-- ===== src/Persistence/Codec/RoundTrip.antt =====
-- A task that is stored is read back as it was.
use cget.Prelude.{ℕ, ◌<◌, ◌≡◌, refl, ap, ◌∙◌, Text, arith}
use cget.Core.Types.{DownloadTask}
use cget.Core.Errors.{Result, ok, ◌>>=◌}
use cget.Json.Syntax.{Value, object, Numbers}
use cget.Json.Printer.{stringify}
use cget.Json.Parser.{parse_json}
use cget.Json.Texts.{IsReadable}
use cget.Json.Reading.{MembersPrintable}
use cget.Json.RoundTrip.{parse_json-stringify}
use cget.Persistence.Codec.{Clock}
use cget.Persistence.Codec.Encode.{task_members, task_to_json}
use cget.Persistence.Codec.Decode.{task_from_value, task_from_json}
use cget.Persistence.Store.{TaskCodec}
use cget.Persistence.Codec.Layout.{task_layout, task_members-layout}
use cget.Persistence.Codec.Fields.{
  NumberLaws, ClockLaws, whole-IsReadable_exact, text_or_null-IsPrintable, time_or_null-IsPrintable,
  whole_or_null-IsPrintable,
}
use cget.Persistence.Codec.Chunks.{chunks_to_json-ItemsPrintable}
use cget.Persistence.Codec.Reads.{
  IsStorableTask, task_layout-IsOrdered, read_origin-layout, read_chunks-layout,
  read_scheduling-layout, read_remote-layout,
}

task_layout-MembersPrintable :
    (n : Numbers) (clock : Clock)
    → NumberLaws n
    → (t : DownloadTask) → IsStorableTask n clock t
    → MembersPrintable n (task_layout n clock t)
task_layout-MembersPrintable n clock laws t h =
    let whole : (x : ℕ) → x < 4294967296 → IsReadable n (n.of_u64 x) =
      λ x b. whole-IsReadable_exact n laws x (omega arith) in
    let text = text_or_null-IsPrintable n in
    (
      chunks_to_json-ItemsPrintable n laws t.chunks h.stored,
      (
        tt,
        (
          whole-IsReadable_exact n laws t.downloaded h.downloaded,
          (
            text t.expected_sha256,
            (
              whole t.failed_chunks h.failed,
              (
                tt,
                (
                  whole-IsReadable_exact n laws t.file_size h.size,
                  (
                    text t.final_url,
                    (
                      tt,
                      (
                        text t.last_error,
                        (
                          h.peak,
                          (
                            text t.remote_etag,
                            (
                              text t.remote_last_modified,
                              (
                                whole t.requested_threads h.threads,
                                (
                                  whole t.persisted_retry_count h.retries,
                                  (
                                    whole t.scheduler_max_chunks h.max_chunks,
                                    (
                                      whole t.scheduler_priority h.priority,
                                      (
                                        time_or_null-IsPrintable n clock t.started_at,
                                        (
                                          tt,
                                          (
                                            tt,
                                            (
                                              whole_or_null-IsPrintable n laws
                                                  t.task_rate_limit_bytes_per_sec h.limited,
                                              (tt, (tt, (tt, tt))),
                                            ),
                                          ),
                                        ),
                                      ),
                                    ),
                                  ),
                                ),
                              ),
                            ),
                          ),
                        ),
                      ),
                    ),
                  ),
                ),
              ),
            ),
          ),
        ),
      ),
    )

ok_then {ℓ μ} :
    {V : Type ℓ} {W : Type μ} (first : Result V) {v : V} (rest : V → Result W) {r : Result W}
    → first ≡ ok v
    → rest v ≡ r
    → first >>= rest ≡ r
ok_then first rest e h = rw e h

task_from_value-layout :
    (n : Numbers) (clock : Clock)
    → NumberLaws n
    → ClockLaws clock
    → (t : DownloadTask) → IsStorableTask n clock t
    → task_from_value n clock (object (task_layout n clock t)) ≡ ok t
unfolding task_from_value
task_from_value-layout n clock laws time t h =
    ok_then _ _ (read_origin-layout n clock laws time t h) (
      ok_then _ _ (read_remote-layout n clock laws time t _ h) (
        ok_then _ _ (read_scheduling-layout n clock laws t _ h)
          (read_chunks-layout n clock laws t _ h.stored)))

stored_value :
    (n : Numbers) (clock : Clock) (text : Text) {v : Value} {t : DownloadTask}
    → parse_json n text ≡ ok v
    → task_from_value n clock v ≡ ok t
    → task_from_json n clock text ≡ ok t
unfolding task_from_json
stored_value n clock text e h = rw (task_from_json, e, h) refl

-- taskFromJson gives back the task of which taskToJson wrote the text, when its numbers fit, its times
-- are whole seconds and its peak speed is a number that the library reads back.
pub task_from_json-task_to_json :
    (n : Numbers) (clock : Clock)
    → NumberLaws n
    → ClockLaws clock
    → (t : DownloadTask) → IsStorableTask n clock t
    → task_from_json n clock (task_to_json n clock t) ≡ ok t
unfolding task_from_json task_to_json
task_from_json-task_to_json n clock laws time t h =
    stored_value n clock (stringify n 2 (object (task_members n clock t)))
      (ap (λ ms. parse_json n (stringify n 2 (object ms))) (task_members-layout n clock t)
        ∙ parse_json-stringify n 2 (object (task_layout n clock t))
            (task_layout-IsOrdered n clock t, task_layout-MembersPrintable n clock laws t h))
      (task_from_value-layout n clock laws time t h)

-- The texts of the program fill the interface of the store.
abbrev pub json_codec : (n : Numbers) (clock : Clock) → NumberLaws n → ClockLaws clock → TaskCodec
json_codec n clock laws time = record {
  encode = task_to_json n clock;
  decode = task_from_json n clock;
  IsStorable = IsStorableTask n clock;
  decode-encode = task_from_json-task_to_json n clock laws time;
}
