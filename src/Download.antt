-- ===== src/Download.antt =====
-- lens-core/src/download.rs: what a download works on. The disk is the `.part` file and the finished
-- file, each absent or its bytes; messages are not modelled, and a log line is none of the state.
pub mod Headers
pub mod Answers
pub mod Attempt
pub mod Call
pub mod Published
pub mod Kept
pub mod Finishes
use lens_lm.Base.{
  ℕ, ◌+◌, ◌-◌, ◌*◌, ◌^◌, Bool, true, false, ◌||◌, ◌&&◌, Option, none, some, List, [], ◌∷◌, ltb,
  ◌==◌, if◌then◌else◌, length, min, leb, map,
}
use lens_lm.Base.Text.{Str, str_eq}
use lens_lm.Base.Outcome.{LensError, io, insufficient_space}

abbrev pub Bytes : Type 0
Bytes = List ℕ

pub record Progress : Type 0 where
  pub received : ℕ
  pub total : Option ℕ
  pub done : Bool

pub record Disk : Type 0 where
  pub part : Option Bytes
  pub dest : Option Bytes

-- The disk, the ticks of `on_progress`, the backoffs slept, and the disk as it was at each await
-- that was passed; the newest stands first.
pub record World : Type 0 where
  pub disk : Disk
  pub ticks : List Progress
  pub slept : List ℕ
  pub awaits : List Disk

pub record Policy : Type 0 where
  pub headroom : ℕ
  pub check_interval : ℕ
  pub mid_stream_floor : ℕ
  pub max_attempts : ℕ
  pub base_backoff : ℕ

abbrev pub disk_headroom_bytes : ℕ
disk_headroom_bytes = 256 * 1024 * 1024

abbrev pub mid_stream_check_interval : ℕ
mid_stream_check_interval = 64 * 1024 * 1024

abbrev pub mid_stream_floor_bytes : ℕ
mid_stream_floor_bytes = mid_stream_check_interval + disk_headroom_bytes

-- Durations are counted in seconds.
abbrev pub default_policy : Policy
default_policy = record {
  headroom = disk_headroom_bytes;
  check_interval = mid_stream_check_interval;
  mid_stream_floor = mid_stream_floor_bytes;
  max_attempts = 3;
  base_backoff = 2;
}

pub data AttemptFailure : Type 0 where
  retryable : LensError → AttemptFailure
  fatal : LensError → AttemptFailure

-- What of a `std::io::Error` the code looks at.
pub record IoError : Type 0 where
  pub storage_full : Bool
  pub raw_os_error : Option ℕ

is_enospc : Option ℕ → Bool
is_enospc none = false
is_enospc (some n) = n == 28

unfoldable pub map_write_error : IoError → AttemptFailure
unfolding is_enospc
map_write_error e =
    if e.storage_full || is_enospc e.raw_os_error then fatal insufficient_space else retryable io

abbrev pub u64_max : ℕ
u64_max = 2 ^ 64 - 1

unfoldable pub saturating_add_u64 : ℕ → ℕ → ℕ
saturating_add_u64 a b = min (a + b) u64_max

-- `metadata(p).map(|m| m.len()).unwrap_or(0)`, where the file can be looked at.
unfoldable pub len_or_zero : Bool → Option Bytes → ℕ
len_or_zero readable none = 0
len_or_zero readable (some b) = if readable then length b else 0

unfoldable pub tick : ℕ → Option ℕ → Bool → World → World
tick received total done w = record w {
  ticks = record { received = received; total = total; done = done } ∷ w.ticks;
}

-- An await that is passed.
unfoldable pub await : World → World
await w = record w { awaits = w.disk ∷ w.awaits }

unfoldable pub set_part : Option Bytes → World → World
set_part p w = record w { disk = record { part = p; dest = w.disk.dest } }

-- `let _ = remove_file(tmp)`, which may fail.
unfoldable pub remove_part : Bool → World → World
unfolding set_part
remove_part removes w = if removes then set_part none w else w

to_ascii_lowercase : ℕ → ℕ
to_ascii_lowercase c = if leb b'A' c && leb c b'Z' then c + 32 else c

unfoldable pub eq_ignore_ascii_case : Str → Str → Bool
unfolding to_ascii_lowercase
eq_ignore_ascii_case a b = str_eq (map to_ascii_lowercase a) (map to_ascii_lowercase b)

unfoldable pub completed_skip : Option Bytes → Option ℕ → Option Progress
completed_skip none expected_len = none
completed_skip (some b) none = none
completed_skip (some b) (some n) =
    if ltb 0 (length b) && n == length b
    then some (record { received = length b; total = some n; done = true })
    else none
