-- ===== src/Download/Answers.antt =====
-- lens-core/src/download.rs: what is answered in one attempt, and the steps that an attempt is made of.
-- What the system, the server and the canceller answer is a record, `Answers`; SHA-256 in hex is a
-- parameter, `digest`.
use lens_lm.Base.{ℕ, ◌-◌, Bool, true, Option, none, some, List, ◌++◌, ltb, leb, if◌then◌else◌}
use lens_lm.Base.Text.{Str}
use lens_lm.Base.Outcome.{LensError, io, insufficient_space}
use lens_lm.Download.{
  Bytes, World, Policy, AttemptFailure, retryable, fatal, IoError, map_write_error,
  saturating_add_u64, tick, await, set_part, eq_ignore_ascii_case,
}
use lens_lm.Download.Headers.{Headers}

-- A round of the loop over the body: cancelled, a stream error, or a chunk. The write of a chunk may
-- fail when some of its bytes are on the disk; `free` is what the space probe tells behind it.
pub data Round : Type 0 where
  cancel_seen broken : Round
  chunk : Bytes → Option (ℕ × IoError) → Option ℕ → Round

pub record Response : Type 0 where
  pub status : ℕ
  pub headers : Headers
  pub rounds : List Round

pub record Answers : Type 0 where
  pub cancelled_before : Bool
  -- the length of the `.part` can be read
  pub readable : Bool
  -- the `.part` can be removed, before the request and behind it
  pub removes_stale : Bool
  pub removes : Bool
  -- the `.part` can be hashed, before the request and behind a 416
  pub hashes : Bool
  pub hashes_rejected : Bool
  -- the free space before the request
  pub free : Option ℕ
  -- the server, given the start of the range that is asked for
  pub reply : Option ℕ → Option Response
  pub open_error : Option IoError
  pub flush_error : Option IoError
  pub sync_error : Option IoError
  pub hashes_body : Bool
  pub renames : Bool
  -- a cancellation while the backoff behind this attempt is slept
  pub cancelled_asleep : Bool

pub record AttemptCtx : Type 0 where
  pub expected_sha256 : Option Str
  pub expected_len : Option ℕ
  pub policy : Policy

-- `Result<(), AttemptFailure>`, with what was done on the way.
pub data AttemptResult : Type 0 where
  succeeded : AttemptResult
  failed : AttemptFailure → AttemptResult

unfoldable pub preflight_space : AttemptCtx → Option ℕ → ℕ → Option AttemptFailure
preflight_space ctx free part_len = elim ctx.expected_len [
  | none ↦ none
  | some expected ↦ elim free [
    | none ↦ none
    | some available ↦
        if ltb available (saturating_add_u64 (expected - part_len) ctx.policy.headroom)
        then some (fatal insufficient_space)
        else none
  ]
]

-- What the space left must hold.
unfoldable pub space_required : AttemptCtx → Option ℕ → ℕ → ℕ
space_required ctx none received = ctx.policy.mid_stream_floor
space_required ctx (some total) received =
    if leb received total then total - received else ctx.policy.mid_stream_floor

unfoldable pub mid_stream_space_error : AttemptCtx → Option ℕ → Option ℕ → ℕ → Option LensError
mid_stream_space_error ctx free total received = elim free [
  | none ↦ none
  | some available ↦
      if ltb available (space_required ctx total received) then some insufficient_space else none
]

unfoldable pub append_part : Bytes → World → World
append_part b w = elim w.disk.part [
  | none ↦ set_part (some b) w
  | some old ↦ set_part (some (old ++ b)) w
]

-- `finalize`: the rename.
unfoldable pub finalize : Answers → World → AttemptResult × World
finalize a w = elim w.disk.part [
  | none ↦ (failed (retryable io), w)
  | some b ↦
      if a.renames
      then (succeeded, record w { disk = record { part = none; dest = some b } })
      else (failed (retryable io), w)
]

-- `sync_and_finalize`: it opens the `.part`, which must be there.
unfoldable pub sync_and_finalize : Answers → World → AttemptResult × World
sync_and_finalize a w = elim w.disk.part [
  | none ↦ (failed (retryable io), w)
  | some b ↦ elim a.open_error [
    | some e ↦ (failed (map_write_error e), w)
    | none ↦ elim a.sync_error [
      | some e ↦ (failed (map_write_error e), await w)
      | none ↦ finalize a (await w)
    ]
  ]
]

-- The last tick, on success.
unfoldable pub tick_done : ℕ → Option ℕ → AttemptResult × World → AttemptResult × World
tick_done received total (succeeded, w) = (succeeded, tick received total true w)
tick_done received total (failed f, w) = (failed f, w)

module _ (digest : Bytes → Str) where
  -- `sha256_file`: the file must be there.
  unfoldable pub sha256_file : Bool → Option Bytes → Option Str
  sha256_file hashes none = none
  sha256_file hashes (some b) = if hashes then some (digest b) else none

  -- `none` is an error.
  unfoldable pub complete_part_matches : AttemptCtx → Bool → Option Bytes → Option Bool
  complete_part_matches ctx hashes part = elim ctx.expected_sha256 [
    | none ↦ some true
    | some expected ↦ elim (sha256_file hashes part) [
      | none ↦ none
      | some actual ↦ some (eq_ignore_ascii_case actual expected)
    ]
  ]
