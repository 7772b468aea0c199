-- ===== src/Download/Call.antt =====
-- lens-core/src/download.rs: download_all_attempts and download_verified_with.
use lens_lm.Base.{
  ℕ, zero, suc, ◌+◌, ◌-◌, ◌*◌, ◌^◌, ◌%◌, Bool, false, Option, none, some, [], ◌∷◌, ltb,
  if◌then◌else◌, get_elem?, not,
}
use mathlib.Core.List.{reverse}
use lens_lm.Base.Text.{Str}
use lens_lm.Base.Outcome.{Outcome, ok, err, network, io, cancelled}
use lens_lm.Download.{
  Bytes, Progress, Disk, World, Policy, retryable, fatal, len_or_zero, tick, await, completed_skip,
}
use lens_lm.Download.Headers.{content_length_header}
use lens_lm.Download.Answers.{Response, Answers, AttemptCtx, AttemptResult, succeeded, failed}
use lens_lm.Download.Attempt.{is_success, download_attempt}

-- What is answered in one call, outside its attempts. `queued` is what others did to the disk while
-- the write lock was awaited.
pub record CallAnswers : Type 0 where
  pub builds_client : Bool
  pub head : Option Response
  pub creates_dir : Bool
  pub part_readable : Bool
  pub queued : Disk → Disk
  pub attempts : ℕ → Answers

-- `Result<(), LensError>`, with what was done on the way.
abbrev pub CallResult : Type 0
CallResult = Outcome (Unit {0}) × World

unfoldable pub expected_length : Option Response → Option ℕ
expected_length none = none
expected_length (some r) =
    if is_success r.status
    then elim (content_length_header r.headers) [
      | none ↦ none
      | some n ↦ if ltb 0 n then some n else none
    ]
    else none

unfoldable pub report : Progress → World → World
report p w = record w { ticks = p ∷ w.ticks }

-- The backoff behind attempt `attempt`; `2u32.pow` wraps, as it does without overflow checks.
unfoldable pub backoff : Policy → ℕ → ℕ
backoff p attempt = p.base_backoff * (2 ^ (attempt - 1) % 2 ^ 32)

unfoldable pub sleep : ℕ → World → World
sleep d w = record (await w) { slept = d ∷ w.slept }

-- Behind the last attempt.
unfoldable pub after_last : AttemptResult × World → CallResult
after_last (succeeded, w) = (ok tt, w)
after_last (failed (fatal e), w) = (err e, w)
after_last (failed (retryable e), w) = (err e, w)

module _ (ctx : AttemptCtx) (answers : ℕ → Answers) where
  -- Behind another attempt, with what the later ones end in.
  unfoldable pub after_attempt : ℕ → (World → CallResult) → AttemptResult × World → CallResult
  after_attempt attempt next (succeeded, w) = (ok tt, w)
  after_attempt attempt next (failed (fatal e), w) = (err e, w)
  after_attempt attempt next (failed (retryable e), w) =
      if (answers attempt).cancelled_asleep
      then (err cancelled, await w)
      else next (sleep (backoff ctx.policy attempt) w)

module _ (digest : Bytes → Str) (ctx : AttemptCtx) (answers : ℕ → Answers) where
  -- The loop, where `left` is `max_attempts - attempt`: it is 0 where `attempt >= max_attempts`.
  unfoldable pub attempts_from : ℕ → ℕ → World → CallResult
  attempts_from zero attempt w = after_last (download_attempt digest ctx (answers attempt) w)
  attempts_from (suc left) attempt w =
      after_attempt ctx answers attempt (attempts_from left (attempt + 1))
        (download_attempt digest ctx (answers attempt) w)

-- The write lock is held; what is left to do is up to those who held it before.
unfoldable pub with_lock : (Bytes → Str) → AttemptCtx → CallAnswers → World → CallResult
with_lock digest ctx c w = elim (completed_skip w.disk.dest ctx.expected_len) [
  | some p ↦ (ok tt, report p w)
  | none ↦ attempts_from digest ctx c.attempts (ctx.policy.max_attempts - 1) 1 w
]

unfoldable pub wait_for_lock : CallAnswers → World → World
wait_for_lock c w = record (await w) { disk = c.queued w.disk }

-- Behind the HEAD request.
unfoldable pub after_head : (Bytes → Str) → AttemptCtx → CallAnswers → World → CallResult
after_head digest ctx c w = elim (completed_skip w.disk.dest ctx.expected_len) [
  | some p ↦ (ok tt, report p w)
  | none ↦
      if not c.creates_dir
      then (err io, w)
      else with_lock digest ctx c (
          wait_for_lock c (tick (len_or_zero c.part_readable w.disk.part) ctx.expected_len false w))
]

abbrev pub attempt_ctx : Option Str → Policy → Option ℕ → AttemptCtx
attempt_ctx sha policy expected = record {
  expected_sha256 = sha;
  expected_len = expected;
  policy = policy;
}

unfoldable pub download_all_attempts :
    (Bytes → Str) → Option Str → Policy → CallAnswers → World → CallResult
download_all_attempts digest sha policy c w =
    if not c.builds_client
    then (err network, w)
    else after_head digest (attempt_ctx sha policy (expected_length c.head)) c (await w)

unfoldable pub new_world : Disk → World
new_world d = record { disk = d; ticks = []; slept = []; awaits = [] }

-- A call that is dropped at the await `k` of those it passes, the disk being left as it is there; at
-- 0 it is before the call begins.
unfoldable pub interrupt : Option ℕ → Disk → CallResult → Outcome (Unit {0}) × Disk
interrupt none d (r, w) = (r, w.disk)
interrupt (some zero) d (r, w) = (err cancelled, d)
interrupt (some (suc k)) d (r, w) = elim (get_elem? (reverse w.awaits) k) [
  | none ↦ (r, w.disk)
  | some d' ↦ (err cancelled, d')
]

-- `interrupted` is where the canceller drops the call, if it does.
unfoldable pub download_verified_with :
    (Bytes → Str) → Option Str → Policy → CallAnswers → Option ℕ → Disk → Outcome (Unit {0}) × Disk
unfolding new_world
download_verified_with digest sha policy c interrupted d =
    interrupt interrupted d (download_all_attempts digest sha policy c (new_world d))
