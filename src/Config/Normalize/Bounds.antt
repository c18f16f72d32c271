-- ===== src/Config/Normalize/Bounds.antt =====
-- The limits that `normalize` gives.
use cget.Prelude.{
  ℕ, ◌≡◌, refl, ◌∙◌, inl, inr, ◌≤◌, true, [], ◌∷◌, Text, str, text_eq, arith, Bool-cases, min,
}
use cget.Network.Scheme.{to_lower, lower}
use cget.Config.Defs.{Config}
use cget.Config.Parse.{is_valid_log_level_name}
use cget.Config.Normalize.{clamp, normalize_level, normalize}

abbrev pub Within : ℕ → ℕ → ℕ → Type 0
Within low high n = (low ≤ n) × (n ≤ high)

clamp-Within : (low high n : ℕ) → low ≤ high → Within low high (clamp low high n)
unfolding clamp
clamp-Within low high n h = (omega arith, omega arith)

clamp_idem : (low high n : ℕ) → low ≤ high → clamp low high (clamp low high n) ≡ clamp low high n
unfolding clamp
clamp_idem low high n h = omega arith

min_idem : (n high : ℕ) → min (min n high) high ≡ min n high
min_idem n high = omega arith

to_lower_idem : (c : ℕ) → to_lower (to_lower c) ≡ to_lower c
unfolding to_lower
to_lower_idem c = ground arith

pub lower_idem : (t : Text) → lower (lower t) ≡ lower t
unfolding lower
lower_idem [] = refl
lower_idem (c ∷ cs) = rw (to_lower_idem c, lower_idem cs) refl

-- A level that is valid stays so in lower case.
lower-valid : (t : Text) → is_valid_log_level_name (lower t) ≡ is_valid_log_level_name t
unfolding is_valid_log_level_name
lower-valid t = rw (lower_idem t)

info-valid : is_valid_log_level_name (str "info") ≡ true
unfolding is_valid_log_level_name lower to_lower str text_eq
info-valid = refl

lower-info : lower (str "info") ≡ str "info"
unfolding lower to_lower str
lower-info = refl

normalize_level-valid : (t : Text) → is_valid_log_level_name (normalize_level t) ≡ true
unfolding normalize_level
normalize_level-valid t = elim (Bool-cases (is_valid_log_level_name t)) [
  | inl valid ↦ rw valid (lower-valid t ∙ valid)
  | inr other ↦ rw other info-valid
]

normalize_level_idem : (t : Text) → normalize_level (normalize_level t) ≡ normalize_level t
unfolding normalize_level
normalize_level_idem t = elim (Bool-cases (is_valid_log_level_name t)) [
  | inl valid ↦ rw (valid, lower-valid t, valid) (lower_idem t)
  | inr other ↦ rw (other, info-valid) lower-info
]

-- The limits of the fields that `normalize` sets.
pub record InLimits (c : Config) : Type 0 where
  pub threads : Within 1 32 c.download.max_threads
  pub active_tasks : Within 1 16 c.download.max_active_tasks
  pub workers : Within 1 128 c.scheduler.max_global_workers
  pub concurrent_tasks : Within 1 64 c.scheduler.max_concurrent_tasks
  pub chunks_per_task : Within 1 64 c.scheduler.max_chunks_per_task
  pub chunk_queue : Within 1 65536 c.scheduler.max_chunk_queue_size
  pub interval : Within 100 60000 c.metrics.sample_interval_ms
  pub retries : c.network.max_retries ≤ 10
  pub delay : Within 100 60000 c.network.retry_base_delay_ms
  pub flush : Within 100 60000 c.persistence.flush_interval_ms
  pub level : is_valid_log_level_name c.logging.level ≡ true
  pub rotated : c.logging.max_rotated_files ≤ 16

-- A configuration that is normalized is within all limits, and its log level is a known one;
-- normalizing it once more changes nothing.
pub normalize-InLimits :
    (c : Config) → InLimits (normalize c) × (normalize (normalize c) ≡ normalize c)
unfolding normalize
normalize-InLimits c = (
  record {
    threads = clamp-Within 1 32 _ (omega arith);
    active_tasks = clamp-Within 1 16 _ (omega arith);
    workers = clamp-Within 1 128 _ (omega arith);
    concurrent_tasks = clamp-Within 1 64 _ (omega arith);
    chunks_per_task = clamp-Within 1 64 _ (omega arith);
    chunk_queue = clamp-Within 1 65536 _ (omega arith);
    interval = clamp-Within 100 60000 _ (omega arith);
    retries = omega arith;
    delay = clamp-Within 100 60000 _ (omega arith);
    flush = clamp-Within 100 60000 _ (omega arith);
    level = normalize_level-valid _;
    rotated = omega arith;
  },
  rw
      (
        clamp_idem 1 32 c.download.max_threads (omega arith),
        clamp_idem 1 16 c.download.max_active_tasks (omega arith),
        clamp_idem 1 128 c.scheduler.max_global_workers (omega arith),
        clamp_idem 1 64 c.scheduler.max_concurrent_tasks (omega arith),
        clamp_idem 1 64 c.scheduler.max_chunks_per_task (omega arith),
        clamp_idem 1 65536 c.scheduler.max_chunk_queue_size (omega arith),
        clamp_idem 100 60000 c.metrics.sample_interval_ms (omega arith),
        clamp_idem 100 60000 c.network.retry_base_delay_ms (omega arith),
        clamp_idem 100 60000 c.persistence.flush_interval_ms (omega arith),
        min_idem c.network.max_retries 10,
        min_idem c.logging.max_rotated_files 16,
        normalize_level_idem c.logging.level,
      )
      refl,
)
