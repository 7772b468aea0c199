-- ===== src/Download/Attempt.antt =====
-- lens-core/src/download.rs: download_attempt, with one function for each branch.
use lens_lm.Base.{
  ℕ, Bool, true, false, ◌&&◌, not, Option, none, some, List, [], ◌∷◌, ltb, leb, ◌==◌, if◌then◌else◌,
  length, take,
}
use lens_lm.Base.Text.{Str}
use lens_lm.Base.Outcome.{LensError, io, network, cancelled, integrity_check_failed}
use lens_lm.Download.{
  Bytes, World, AttemptFailure, retryable, fatal, map_write_error, saturating_add_u64, len_or_zero,
  tick, await, set_part, remove_part,
}
use lens_lm.Download.Headers.{content_length_header, content_range}
use lens_lm.Download.Answers.{
  Round, cancel_seen, broken, chunk, Response, Answers, AttemptCtx, AttemptResult, failed,
  preflight_space, mid_stream_space_error, append_part, finalize, sync_and_finalize, tick_done,
  complete_part_matches,
}

-- How the loop over the body ends: with what was received, or an early return.
pub data Flow : Type 0 where
  body_ended : ℕ → Flow
  stopped : AttemptFailure → Flow

-- What the space check says behind a chunk, which is run each `check_interval` bytes.
unfoldable pub space_error : AttemptCtx → Option ℕ → Option ℕ → ℕ → ℕ → Option LensError
space_error ctx free total received since =
    if leb ctx.policy.check_interval since
    then mid_stream_space_error ctx free total received
    else none

module _ (ctx : AttemptCtx) (total : Option ℕ) where
  unfoldable pub stream_body : List Round → ℕ → ℕ → World → Flow × World
  stream_body [] received since w = (body_ended received, await w)
  stream_body (cancel_seen ∷ r) received since w = (stopped (fatal cancelled), await w)
  stream_body (broken ∷ r) received since w = (stopped (retryable network), await w)
  stream_body (chunk b (some (written, e)) free ∷ r) received since w =
      (stopped (map_write_error e), append_part (take written b) (await w))
  stream_body (chunk b none free ∷ r) received since w =
      let received' = saturating_add_u64 received (length b) in
      let since' = saturating_add_u64 since (length b) in
      let w' = tick received' total false (append_part b (await w)) in
      elim (space_error ctx free total received' since') [
        | some e ↦ (stopped (fatal e), w')
        | none ↦
            stream_body r received' (if leb ctx.policy.check_interval since' then 0 else since') w'
      ]

-- A 4xx but for 408 and 429 is final.
unfoldable pub status_failure : ℕ → AttemptFailure
status_failure status =
    if leb 400 status && ltb status 500 && not (status == 408) && not (status == 429)
    then fatal network
    else retryable network

unfoldable pub is_success : ℕ → Bool
is_success status = leb 200 status && ltb status 300

abbrev pub partial_content : ℕ
partial_content = 206

abbrev pub range_not_satisfiable : ℕ
range_not_satisfiable = 416

unfoldable pub resumed_at : Option (ℕ × ℕ) → ℕ → Bool
resumed_at none part_len = false
resumed_at (some (start, total)) part_len = start == part_len

unfoldable pub or_given : Option ℕ → Option ℕ → Option ℕ
or_given none b = b
or_given (some n) b = some n

unfoldable pub total_of : Option (ℕ × ℕ) → Option ℕ
total_of none = none
total_of (some (start, total)) = some total

-- Opened to append, and created where it is missing.
unfoldable pub open_append : World → World
open_append w = elim w.disk.part [ none ↦ set_part (some []) w | some b ↦ w ]

-- The digest is awaited where there is one to compare with.
unfoldable pub await_digest : AttemptCtx → World → World
await_digest ctx w = elim ctx.expected_sha256 [ none ↦ w | some _ ↦ await w ]

module _ (digest : Bytes → Str) (ctx : AttemptCtx) (a : Answers) where
  -- Behind the loop: flush, sync, the digest, the rename.
  unfoldable pub publish_body : ℕ → Option ℕ → World → AttemptResult × World
  publish_body received total w =
      elim (complete_part_matches digest ctx a.hashes_body w.disk.part) [
        | none ↦ (failed (retryable io), await_digest ctx w)
        | some false ↦
            (failed (fatal integrity_check_failed), remove_part a.removes (await_digest ctx w))
        | some true ↦ tick_done received total (finalize a (await_digest ctx w))
      ]

  unfoldable pub end_body : Option ℕ → Flow × World → AttemptResult × World
  end_body total (stopped f, w) = (failed f, w)
  end_body total (body_ended received, w) = elim a.flush_error [
    | some e ↦ (failed (map_write_error e), w)
    | none ↦ elim a.sync_error [
      | some e ↦ (failed (map_write_error e), await w)
      | none ↦ publish_body received total (await w)
    ]
  ]

  unfoldable pub receive_body : Response → ℕ → Option ℕ → World → AttemptResult × World
  receive_body r received total w = end_body total (stream_body ctx total r.rounds received 0 w)

  -- A 416: the `.part` may be all there is.
  unfoldable pub range_rejected : ℕ → World → AttemptResult × World
  range_rejected part_len w = elim ctx.expected_sha256 [
    | none ↦ (failed (retryable network), remove_part a.removes w)
    | some _ ↦ elim (complete_part_matches digest ctx a.hashes_rejected w.disk.part) [
      | some true ↦ tick_done part_len ctx.expected_len (sync_and_finalize a (await w))
      | some false ↦ (failed (retryable network), remove_part a.removes (await w))
      | none ↦ (failed (retryable network), remove_part a.removes (await w))
    ]
  ]

  unfoldable pub resume_body : Response → ℕ → World → AttemptResult × World
  resume_body r part_len w = elim a.open_error [
    | some e ↦ (failed (map_write_error e), w)
    | none ↦
        receive_body r part_len (or_given ctx.expected_len (total_of (content_range r.headers)))
          (open_append w)
  ]

  unfoldable pub restart_body : Response → World → AttemptResult × World
  restart_body r w = elim a.open_error [
    | some e ↦ (failed (map_write_error e), w)
    | none ↦
        receive_body r 0 (or_given (content_length_header r.headers) ctx.expected_len)
          (set_part (some []) w)
  ]

  -- The branches on the status of the response.
  unfoldable pub on_reply : Response → ℕ → World → AttemptResult × World
  on_reply r part_len w =
      if r.status == partial_content && resumed_at (content_range r.headers) part_len
      then resume_body r part_len w
      else if r.status == partial_content
      then (failed (retryable network), remove_part a.removes w)
      else if r.status == range_not_satisfiable
      then range_rejected part_len w
      else if is_success r.status
      then restart_body r w
      else (failed (status_failure r.status), w)

  unfoldable pub send_request : ℕ → World → AttemptResult × World
  send_request part_len w = elim (a.reply (if ltb 0 part_len then some part_len else none)) [
    | none ↦ (failed (retryable network), await w)
    | some r ↦ on_reply r part_len (await w)
  ]

  unfoldable pub fetch_rest : ℕ → World → AttemptResult × World
  fetch_rest part_len w = elim (preflight_space ctx a.free part_len) [
    | some f ↦ (failed f, w)
    | none ↦ send_request part_len w
  ]

  -- The `.part` has the length that is expected.
  unfoldable pub complete_part : ℕ → World → AttemptResult × World
  complete_part part_len w = elim (complete_part_matches digest ctx a.hashes w.disk.part) [
    | some true ↦ tick_done part_len ctx.expected_len (sync_and_finalize a (await_digest ctx w))
    | some false ↦ fetch_rest 0 (remove_part a.removes_stale (await_digest ctx w))
    | none ↦ (failed (retryable io), await_digest ctx w)
  ]

  unfoldable pub check_part : ℕ → World → AttemptResult × World
  check_part part_len w = elim ctx.expected_len [
    | none ↦ fetch_rest part_len w
    | some expected ↦
        if ltb expected part_len
        then fetch_rest 0 (remove_part a.removes_stale w)
        else if part_len == expected
        then complete_part part_len w
        else fetch_rest part_len w
  ]

  unfoldable pub download_attempt : World → AttemptResult × World
  download_attempt w =
      let part_len = len_or_zero a.readable w.disk.part in
      if a.cancelled_before
      then (failed (fatal cancelled), w)
      else check_part part_len (tick part_len ctx.expected_len false w)
