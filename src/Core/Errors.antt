-- ===== src/Core/Errors.antt =====
-- include/cget/core/errors.h and src/core/errors.cpp: the error codes, which of them a retry may
-- cure, and the exit code of the process for each. A function that may throw returns a `Result`.
use cget.Prelude.{ℕ, ◌≡◌, refl, Bool, true, false, Text, str, arith, ◌<◌, ◌↔◌, ◌⊎◌, inl, inr}

pub data ErrorCode : Type 0 where
  network_error timeout_error dns_error http_status_error disk_full_error : ErrorCode
  json_corrupted_error range_not_supported_error metadata_mismatch_error : ErrorCode
  permission_denied_error path_traversal_error file_already_exists_error : ErrorCode
  task_not_found_error invalid_state_transition_error invalid_command_error : ErrorCode
  invalid_url_error file_system_error config_error checksum_mismatch_error : ErrorCode
  internal_error : ErrorCode

pub record CgetError : Type 0 where
  pub code : ErrorCode
  pub message : Text

-- What a call leaves: an exception, or its value.
pub data Result {ℓ} (V : Type ℓ) : Type ℓ where
  err : CgetError → Result V
  ok : V → Result V

-- An exception leaves out the rest of a chain of calls.
infixl 5 ◌>>=◌
abbrev pub ◌>>=◌ {ℓ μ} : {V : Type ℓ} {W : Type μ} → Result V → (V → Result W) → Result W
err thrown >>= rest = err thrown
ok value >>= rest = rest value

-- A call that is only made for its effect.
infixl 5 ◌>>◌
abbrev pub ◌>>◌ {μ} : {W : Type μ} → Result (Unit {0}) → Result W → Result W
err thrown >> rest = err thrown
ok _ >> rest = rest

-- When a chain returns, so did its first call, and the rest did with the value of that.
pub >>=-eq-ok {ℓ μ} :
    {V : Type ℓ} {W : Type μ} {w : W} (first : Result V) (rest : V → Result W)
    → first >>= rest ≡ ok w
    → (v : V) × (first ≡ ok v) × (rest v ≡ ok w)
>>=-eq-ok (err thrown) rest h = cc
>>=-eq-ok (ok v) rest h = (v, refl, h)

-- A call returned or threw.
pub Result-cases {ℓ} :
    {V : Type ℓ} (r : Result V) → ((v : V) × (r ≡ ok v)) ⊎ ((thrown : CgetError) × (r ≡ err thrown))
Result-cases (err thrown) = inr (thrown, refl)
Result-cases (ok v) = inl (v, refl)

pub ok-injective {ℓ} : {V : Type ℓ} {v w : V} → ok v ≡ ok w → v ≡ w
ok-injective same = cc

-- `throw CgetError(code, message)`.
abbrev pub throw {ℓ} : {A : Type ℓ} → ErrorCode → Text → Result A
throw c m = err (record { code = c; message = m })

unfoldable pub error_code_to_string : ErrorCode → Text
error_code_to_string ErrorCode.network_error = str "NetworkError"
error_code_to_string ErrorCode.timeout_error = str "TimeoutError"
error_code_to_string ErrorCode.dns_error = str "DnsError"
error_code_to_string ErrorCode.http_status_error = str "HttpStatusError"
error_code_to_string ErrorCode.disk_full_error = str "DiskFullError"
error_code_to_string ErrorCode.json_corrupted_error = str "JsonCorruptedError"
error_code_to_string ErrorCode.range_not_supported_error = str "RangeNotSupportedError"
error_code_to_string ErrorCode.metadata_mismatch_error = str "MetadataMismatchError"
error_code_to_string ErrorCode.permission_denied_error = str "PermissionDeniedError"
error_code_to_string ErrorCode.path_traversal_error = str "PathTraversalError"
error_code_to_string ErrorCode.file_already_exists_error = str "FileAlreadyExistsError"
error_code_to_string ErrorCode.task_not_found_error = str "TaskNotFoundError"
error_code_to_string ErrorCode.invalid_state_transition_error = str "InvalidStateTransitionError"
error_code_to_string ErrorCode.invalid_command_error = str "InvalidCommandError"
error_code_to_string ErrorCode.invalid_url_error = str "InvalidUrlError"
error_code_to_string ErrorCode.file_system_error = str "FileSystemError"
error_code_to_string ErrorCode.config_error = str "ConfigError"
error_code_to_string ErrorCode.checksum_mismatch_error = str "ChecksumMismatchError"
error_code_to_string ErrorCode.internal_error = str "InternalError"

unfoldable pub is_retryable : ErrorCode → Bool
is_retryable ErrorCode.network_error = true
is_retryable ErrorCode.timeout_error = true
is_retryable ErrorCode.dns_error = true
is_retryable ErrorCode.http_status_error = true
is_retryable _ = false

unfoldable pub suggested_exit_code : ErrorCode → ℕ
suggested_exit_code ErrorCode.invalid_command_error = 2
suggested_exit_code ErrorCode.invalid_url_error = 2
suggested_exit_code ErrorCode.path_traversal_error = 2
suggested_exit_code ErrorCode.config_error = 2
suggested_exit_code ErrorCode.task_not_found_error = 3
suggested_exit_code ErrorCode.network_error = 4
suggested_exit_code ErrorCode.timeout_error = 4
suggested_exit_code ErrorCode.dns_error = 4
suggested_exit_code ErrorCode.http_status_error = 4
suggested_exit_code ErrorCode.permission_denied_error = 5
suggested_exit_code ErrorCode.disk_full_error = 5
suggested_exit_code ErrorCode.file_system_error = 5
suggested_exit_code ErrorCode.file_already_exists_error = 5
suggested_exit_code ErrorCode.json_corrupted_error = 6
suggested_exit_code ErrorCode.metadata_mismatch_error = 6
suggested_exit_code ErrorCode.checksum_mismatch_error = 6
suggested_exit_code ErrorCode.range_not_supported_error = 1
suggested_exit_code ErrorCode.invalid_state_transition_error = 1
suggested_exit_code ErrorCode.internal_error = 1

-- The exit code 4 is given to exactly the errors that a retry may cure, and no error has the exit
-- code 0 of a success.
pub exit_code-retryable :
    (c : ErrorCode)
    → (0 < suggested_exit_code c) × ((is_retryable c ≡ true) ↔ (suggested_exit_code c ≡ 4))
unfolding is_retryable suggested_exit_code
exit_code-retryable ErrorCode.network_error = ground arith
exit_code-retryable _ = ground arith
