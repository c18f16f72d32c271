-- ===== src/Persistence/Codec/Fields.antt =====
-- What a stored number, time, status or absent field is read back as.
use cget.Prelude.{
  ℕ, ◌*◌, ◌/◌, ◌≤◌, ◌<◌, ◌≡◌, refl, sym, ap, ◌∙◌, true, false, Option, none, some, Text, str, arith,
  u32,
}
use native.Mathlib.Nat.{mul-div_cancel}
use cget.Prelude.Decimal.{to_string}
use cget.Core.Types.{TaskStatus, ChunkStatus}
use cget.Core.Types.Names.{
  task_status_to_string, chunk_status_to_string, task_status_from_string, chunk_status_from_string,
  task_status-round_trip, chunk_status-round_trip,
}
use cget.Core.Errors.{ok}
use cget.Json.Syntax.{Numbers, as_uint64}
use cget.Json.Texts.{IsReadable, whole-IsReadable}
use cget.Json.Reading.{IsPrintable}
use cget.Persistence.Codec.{Clock, format_timestamp, parse_timestamp}
use cget.Persistence.Codec.Encode.{whole_json, text_or_null, whole_or_null, time_or_null}
use cget.Persistence.Codec.Decode.{as_uint32, read_status}

-- The whole numbers that a `double` holds exactly: up to 2 to the 53.
abbrev pub IsExact : ℕ → Type 0
IsExact x = x ≤ 9007199254740992

-- A `double` holds such a number, and the library prints and reads it exactly.
pub record NumberLaws (n : Numbers) : Type 0 where
  pub holds : (x : ℕ) → IsExact x → n.to_u64 (n.of_u64 x) ≡ x
  pub whole : (x : ℕ) → IsExact x → n.is_whole (n.of_u64 x) ≡ true
  pub positive : (x : ℕ) → IsExact x → n.is_negative (n.of_u64 x) ≡ false
  pub reads : (x : ℕ) → IsExact x → n.stod (to_string x) ≡ some (n.of_u64 x)

-- The library reads the times that it prints, up to the end of the year 9999.
pub record ClockLaws (clock : Clock) : Type 0 where
  pub ticking : 0 < clock.ticks
  pub reads : (s : ℕ) → s < 253402300800 → clock.get_time (clock.put_time s) ≡ some s

-- A time of whole seconds before the year 10000.
abbrev pub IsWholeSecond : Clock → ℕ → Type 0
IsWholeSecond clock time = (s : ℕ) × (time ≡ s * clock.ticks) × (s < 253402300800)

pub as_uint64-whole :
    (n : Numbers) → NumberLaws n → (x : ℕ) → IsExact x → as_uint64 n (whole_json n x) ≡ ok x
unfolding as_uint64
as_uint64-whole n laws x h = rw (laws.positive x h, laws.holds x h) refl

pub as_uint32-whole :
    (n : Numbers) → NumberLaws n → (x : ℕ) → x < 4294967296 → as_uint32 n (whole_json n x) ≡ ok x
unfolding as_uint32
as_uint32-whole n laws x h =
    let same : u32 x ≡ x = omega arith in rw (as_uint64-whole n laws x (omega arith), same) refl

pub whole-IsReadable_exact :
    (n : Numbers) → NumberLaws n → (x : ℕ) → IsExact x → IsReadable n (n.of_u64 x)
whole-IsReadable_exact n laws x h =
    whole-IsReadable n (n.of_u64 x) (laws.whole x h) (rw (laws.holds x h) (laws.reads x h))

stored_time :
    (clock : Clock) (text : Text) (s : ℕ)
    → clock.get_time text ≡ some s
    → parse_timestamp clock text ≡ s * clock.ticks
unfolding parse_timestamp
stored_time clock text s h = rw (h, parse_timestamp) refl

pub parse_timestamp-format_timestamp :
    (clock : Clock)
    → ClockLaws clock
    → (time : ℕ) → IsWholeSecond clock time
    → parse_timestamp clock (format_timestamp clock time) ≡ time
unfolding parse_timestamp format_timestamp
parse_timestamp-format_timestamp clock laws time (s, e, h) =
    let exact : time / clock.ticks ≡ s =
      ap (λ t. t / clock.ticks) e ∙ mul-div_cancel s laws.ticking in
    stored_time clock (format_timestamp clock time) s
      (ap (λ k. clock.get_time (clock.put_time k)) exact ∙ laws.reads s h)
    ∙ sym e

pub read_status-task :
    (s : TaskStatus)
    → read_status task_status_from_string (str "task") (task_status_to_string s) ≡ ok s
unfolding read_status
read_status-task s = rw (read_status, task_status-round_trip s) refl

pub read_status-chunk :
    (s : ChunkStatus)
    → read_status chunk_status_from_string (str "chunk") (chunk_status_to_string s) ≡ ok s
unfolding read_status
read_status-chunk s = rw (read_status, chunk_status-round_trip s) refl

pub text_or_null-IsPrintable : (n : Numbers) (o : Option Text) → IsPrintable n (text_or_null o)
text_or_null-IsPrintable n none = tt
text_or_null-IsPrintable n (some text) = tt

pub time_or_null-IsPrintable :
    (n : Numbers) (clock : Clock) (o : Option ℕ) → IsPrintable n (time_or_null clock o)
time_or_null-IsPrintable n clock none = tt
time_or_null-IsPrintable n clock (some time) = tt

pub whole_or_null-IsPrintable :
    (n : Numbers)
    → NumberLaws n
    → (o : Option ℕ) → ((x : ℕ) → o ≡ some x → IsExact x)
    → IsPrintable n (whole_or_null n o)
whole_or_null-IsPrintable n laws none h = tt
whole_or_null-IsPrintable n laws (some x) h = whole-IsReadable_exact n laws x (h x refl)
