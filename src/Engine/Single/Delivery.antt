-- ===== src/Engine/Single/Delivery.antt =====
-- When a download in one piece makes its task Completed.
use cget.Prelude.{◌≡◌, ◌≢◌, inl, inr, false, ◌&&◌, not, some, List, [], ◌∷◌, Text, ◌==◌, Bool-cases}
use cget.Core.Types.{TaskStatus, RemoteFileInfo}
use cget.Core.Errors.{ok, err, Result-cases}
use cget.Filesystem.Disk.{Content, put_file, file_size, truncate_file}
use cget.Filesystem.Merge.{merge_chunks}
use cget.Network.Http.{Block, CurlResult, Transfer, perform, download_single}
use cget.Engine.Session.{Context}
use cget.Engine.Finish.{Job, JobOutcome, save_job}
use cget.Engine.Finish.Verdict.{Delivered, merge_chunks_size, after_merge-Delivered}
use cget.Engine.Single.{
  then_job, single_path, reset_single, deliver_single, settle_single, finish_single, stream_single,
  download_single_stream,
}

-- The call did not make the task Completed.
abbrev pub IsOpen : Job → Type 0
IsOpen j = j.task.status ≢ TaskStatus.completed

-- If the task is Completed, it is delivered.
abbrev pub IsHonest : (Content → Text) → JobOutcome → Type 0
IsHonest sha256 o = o.0.task.status ≡ TaskStatus.completed → Delivered sha256 o.0

open-IsHonest : (sha256 : Content → Text) (o : JobOutcome) → IsOpen o.0 → IsHonest sha256 o
open-IsHonest sha256 o h e = absurd (h e)

pub then_job-IsHonest :
    (sha256 : Content → Text) (o : JobOutcome) (next : Job → JobOutcome)
    → IsOpen o.0
    → ((j : Job) → IsOpen j → IsHonest sha256 (next j))
    → IsHonest sha256 (then_job o next)
then_job-IsHonest sha256 (j, ok _) next h k = k j h
then_job-IsHonest sha256 (j, err e) next h k = open-IsHonest sha256 (j, err e) h

pub save_job-IsOpen : (ctx : Context) (j : Job) → IsOpen j → IsOpen (save_job ctx j).0
unfolding save_job
save_job-IsOpen ctx j h = h

deliver_single-IsOpen :
    (ctx : Context) (path : Text) (b : Block) (j : Job)
    → IsOpen j
    → IsOpen (deliver_single ctx path b j).0
unfolding deliver_single
deliver_single-IsOpen ctx path b j h = elim (Bool-cases b.flush) [
  | inl at_times ↦ rw (deliver_single, at_times) (save_job-IsOpen ctx _ h)
  | inr not_now ↦ rw (deliver_single, not_now) h
]

perform-IsOpen :
    (ctx : Context) (path : Text) (end : CurlResult) (bs : List Block) (j : Job)
    → IsOpen j
    → IsOpen (perform (deliver_single ctx path) false end bs j).0
unfolding perform
perform-IsOpen ctx path end [] j h = h
perform-IsOpen ctx path end (b ∷ bs) j h =
    let kept = deliver_single-IsOpen ctx path b j h in
    elim (Result-cases (deliver_single ctx path b j).1) [
      | inl (done, returned) ↦
          rw returned (perform-IsOpen ctx path end bs (deliver_single ctx path b j).0 kept)
      | inr (e, threw) ↦ rw threw kept
    ]

module _ (ctx : Context) (sha256 : Content → Text) where
  finish_single-IsHonest :
      (info : RemoteFileInfo) (j : Job)
      → IsOpen j
      → IsHonest sha256 (finish_single ctx sha256 info j)
  unfolding finish_single settle_single
  finish_single-IsHonest info j h done =
      let got = file_size j.disk (single_path j) in
      let settled = settle_single info got j in
      let merged =
        merge_chunks settled.disk settled.task.chunks settled.task.temp_dir settled.task.target_path
          settled.task.file_size in
      elim (Bool-cases (not (info.file_size == 0) && not (got == info.file_size))) [
        | inl wrong ↦ absurd (h (rw (finish_single, wrong) at done))
        | inr right ↦
            rw (finish_single, right)
              (after_merge-Delivered ctx sha256 settled merged
                (merge_chunks_size settled.disk settled.task.chunks settled.task.temp_dir
                  settled.task.target_path settled.task.file_size)
                h (rw (finish_single, right) at done))
      ]

  stream_single-IsHonest :
      (info : RemoteFileInfo) (t : Transfer) (j : Job)
      → IsOpen j
      → IsHonest sha256 (stream_single ctx sha256 info t j)
  unfolding stream_single download_single
  stream_single-IsHonest info t j h =
      let opened = record j { disk = put_file (single_path j) (some []) j.disk } in
      elim (Bool-cases (j.disk.denied (single_path j))) [
        | inl refused ↦ rw (stream_single, refused) (λ e. absurd (h e))
        | inr allowed ↦
            rw (stream_single, allowed)
              (then_job-IsHonest sha256
                (download_single (deliver_single ctx (single_path j)) t opened)
                (finish_single ctx sha256 info)
                (perform-IsOpen ctx (single_path j) t.result t.blocks opened h)
                (finish_single-IsHonest info))
      ]

  -- When downloadSingleStream makes a task Completed that was not, the target holds a file of the size
  -- of the task, and of its checksum if one is expected; whatever the server sends.
  pub download_single_stream-Delivered :
      (info : RemoteFileInfo) (t : Transfer) (j : Job)
      → j.task.status ≢ TaskStatus.completed
      → (download_single_stream ctx sha256 info t j).0.task.status ≡ TaskStatus.completed
      → Delivered sha256 (download_single_stream ctx sha256 info t j).0
  unfolding download_single_stream reset_single
  download_single_stream-Delivered info t j h done =
      elim (Result-cases (truncate_file j.disk (single_path j) 0)) [
        | inr (e, threw) ↦ absurd (h (rw (download_single_stream, threw) at done))
        | inl (cut, ready) ↦
            rw (download_single_stream, ready)
              (then_job-IsHonest sha256 (save_job ctx (reset_single info (record j { disk = cut })))
                (stream_single ctx sha256 info t)
                (save_job-IsOpen ctx (reset_single info (record j { disk = cut })) h)
                (stream_single-IsHonest info t) (rw (download_single_stream, ready) at done))
      ]
