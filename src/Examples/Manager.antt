-- ===== src/Examples/Manager.antt =====
-- The theorems on the manager at concrete inputs.
use cget.Persistence.Store.{write_then_commit}
use cget.Persistence.Store.{commit_save}
use cget.Persistence.Store.{back_up}
use cget.Manager.{pause_chunk}
use cget.Filesystem.Disk.{remove_file}
use cget.Core.Types.Names.{task_status_to_string}
use cget.Persistence.Store.{copy_to_backup}
use cget.Persistence.Store.{backup_then_commit}
use cget.Persistence.Store.{save_text}
use cget.Persistence.Store.{save_task}
use cget.Manager.{refuses_pause}
use cget.Manager.{pause_loaded}
use cget.Prelude.Decimal.{digits}
use cget.Filesystem.Output.{unique_from}
use cget.Prelude.Decimal.{to_string}
use cget.Filesystem.Output.{numbered_path}
use cget.Filesystem.Output.{unique_path}
use cget.Filesystem.Output.{with_file_name}
use cget.Filesystem.Disk.{file_exists}
use cget.Filesystem.Output.{settle_output}
use cget.Filesystem.Names.{sanitize_char}
use cget.Filesystem.Names.{is_reserved}
use cget.Filesystem.Names.{sanitize_file_name}
use cget.Filesystem.Paths.{components}
use cget.Filesystem.Paths.{is_path_traversal}
use cget.Filesystem.Paths.{is_absolute}
use cget.Filesystem.Paths.{join_path}
use cget.Persistence.Store.{decode_file}
use cget.Persistence.Store.{load_path}
use cget.Manager.{host_of}
use cget.Network.Scheme.{contains}
use cget.Network.Scheme.{to_lower}
use cget.Network.Scheme.{lower}
use cget.Network.Scheme.{is_known_download_scheme}
use cget.Network.Scheme.{is_supported_scheme}
use cget.Network.Scheme.{starts_with}
use cget.Network.Scheme.{before}
use cget.Prelude.{refl, ap, zero, suc, ◌≡◌, true, false, [], ◌∷◌, some, none, str, text_eq, All}
use cget.Core.Types.{TaskStatus, ChunkStatus, DownloadTask}
use cget.Core.Errors.{Result, ok, throw, ErrorCode}
use cget.Filesystem.Disk.{Content, Disk, put_file}
use cget.Filesystem.Output.{PathLibrary, path_exists, resolve_output_path, resolve_output_path_free}
use cget.Network.Scheme.{create}
use cget.Persistence.Store.{task_file, load_task}
use cget.Engine.Session.{Context}
use cget.Manager.{validate_url, pause_task, paused_task}
use cget.Manager.Url.{validate_url-create}
use cget.Manager.Pause.{IsAtRest, pause_task-IsAtRest}
use cget.Examples.Data.{one_chunk, one_task, part_a, empty_disk}
use cget.Examples.Persistence.{tasks_dir}

accepted : validate_url (str "http" ∷ []) [] (str "HTTP://h/a") ≡ ok tt
unfolding validate_url before str starts_with is_supported_scheme is_known_download_scheme text_eq
    lower to_lower contains host_of
accepted = refl

validate_url-create_example : create (str "http" ∷ []) [] (str "HTTP://h/a") ≡ ok tt
validate_url-create_example = validate_url-create (str "http" ∷ []) [] (str "HTTP://h/a") accepted

-- Every path is a file name in `d`, and there is one file, `d/a`.
abbrev flat : PathLibrary
flat = record {
  absolute = λ p. b'/' ∷ p;
  is_directory = λ p. false;
  has_filename = λ p. true;
  parent_path = λ p. str "/d";
  stem = λ p. str "a";
  extension = λ p. [];
}

abbrev one_file : Disk
one_file = put_file (str "/d/a") (some []) empty_disk

renamed : resolve_output_path flat one_file (str "/d") none (str "a") false ≡ ok (str "/d/a (1)")
unfolding resolve_output_path is_path_traversal components sanitize_file_name is_reserved
    sanitize_char settle_output file_exists with_file_name unique_path numbered_path to_string
    unique_from digits join_path is_absolute text_eq str path_exists put_file
renamed = refl

resolve_output_path_free_example : path_exists flat one_file (str "/d/a (1)") ≡ false
resolve_output_path_free_example =
    resolve_output_path_free flat one_file (str "/d") none (str "a") renamed

abbrev running_task : DownloadTask
running_task =
    one_task TaskStatus.downloading 4 (one_chunk 0 3 1 ChunkStatus.downloading part_a ∷ [])

abbrev decode_running : Content → Result DownloadTask
decode_running [] = throw ErrorCode.json_corrupted_error []
decode_running (zero ∷ rest) = ok running_task
decode_running (suc n ∷ rest) = ok (paused_task 7 running_task)

abbrev context : Context
context = record {
  codec = record {
    encode = λ t. 1 ∷ [];
    decode = decode_running;
    IsStorable = λ t. paused_task 7 running_task ≡ t;
    decode-encode = λ t same. ap ok same;
  };
  tasks_dir = tasks_dir;
  now = 7;
}

abbrev store : Disk
store = put_file (task_file tasks_dir (b't' ∷ [])) (some (0 ∷ [])) empty_disk

loads : load_task context.codec tasks_dir (b't' ∷ []) store ≡ ok running_task
unfolding load_task load_path decode_file put_file text_eq task_file join_path is_absolute str
loads = refl

pauses : (pause_task context (b't' ∷ []) store).1 ≡ ok tt
unfolding write_then_commit pause_task pause_loaded refuses_pause save_task save_text
    backup_then_commit file_exists copy_to_backup task_status_to_string remove_file pause_chunk
    back_up commit_save load_task load_path decode_file put_file text_eq task_file join_path
    is_absolute str paused_task
pauses = refl

pause_task-IsAtRest_example :
    (paused : DownloadTask) × (load_task context.codec tasks_dir
        (b't' ∷ [])
        (pause_task context (b't' ∷ []) store).0
      ≡ ok paused)
    × (paused.status ≡ TaskStatus.paused)
    × All IsAtRest paused.chunks
pause_task-IsAtRest_example =
    pause_task-IsAtRest context (b't' ∷ []) store running_task loads refl pauses
