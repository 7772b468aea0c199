-- ===== src/Download/Finishes/Calls.antt =====
-- The loop over the attempts, and the call.
use lens_lm.Base.{
  ℕ, zero, suc, ◌+◌, ◌-◌, ◌<◌, ◌≤◌, ◌≡◌, refl, sym, ◌∙◌, ap, Bool, true, false, none, some, ◌++◌,
  length, not, if_false, arith,
}
use mathlib.Core.Path.{subst}
use lens_lm.Base.Text.{Str}
use lens_lm.Base.Outcome.{ok}
use lens_lm.Download.{
  Bytes, Disk, World, Policy, retryable, fatal, tick, await, eq_ignore_ascii_case, completed_skip,
}
use lens_lm.Download.Answers.{Answers, AttemptCtx, AttemptResult, succeeded, failed}
use lens_lm.Download.Call.{
  CallAnswers, CallResult, expected_length, sleep, backoff, after_attempt, after_last,
  attempts_from, with_lock, wait_for_lock, after_head, attempt_ctx, download_all_attempts,
  new_world, interrupt, download_verified_with,
}
use lens_lm.Download.Kept.{stored}
use lens_lm.Download.Finishes.{Serves, IsBegun, Served}
use lens_lm.Download.Finishes.Attempts.{download_attempt-Served}

-- The attempts from `i` on are answered: `cuts` of them broken off, and one whole.
abbrev pub ServesAll : AttemptCtx → Bytes → (ℕ → Answers) → ℕ → ℕ → Type 0
ServesAll ctx artifact answers zero i = Serves ctx artifact true (answers i)
ServesAll ctx artifact answers (suc cuts) i =
    Serves ctx artifact false (answers i) × ServesAll ctx artifact answers cuts (i + 1)

abbrev Done : Bytes → CallResult → Type 0
Done artifact (r, w) = (r ≡ ok tt) × (w.disk ≡ record { part = none; dest = some artifact })

module _ (digest : Bytes → Str) (ctx : AttemptCtx) (artifact sha : Bytes) (answers : ℕ → Answers)
    (given : ctx.expected_sha256 ≡ some sha)
    (genuine : eq_ignore_ascii_case (digest artifact) sha ≡ true)
    (expected : ctx.expected_len ≡ some (length artifact)) (nonempty : 0 < length artifact) where
  after_last-Done :
      (r : AttemptResult × World) → Served artifact true r → Done artifact (after_last r)
  unfolding after_last
  after_last-Done (succeeded, w) h = (refl, h)
  after_last-Done (failed (retryable e), w) (f, h) = absurd (cc)
  after_last-Done (failed (fatal e), w) h = absurd h

  after_attempt-Done :
      (whole : Bool) (i : ℕ) (next : World → CallResult) (r : AttemptResult × World)
      → Served artifact whole r
      → (whole ≡ false → (answers i).cancelled_asleep ≡ false)
      → (whole ≡ false → (w : World) → IsBegun artifact w → Done artifact (next w))
      → Done artifact (after_attempt ctx answers i next r)
  unfolding after_attempt sleep await
  after_attempt-Done whole i next (succeeded, w) h sleeps k = (refl, h)
  after_attempt-Done whole i next (failed (fatal e), w) h sleeps k = absurd h
  after_attempt-Done whole i next (failed (retryable e), w) (cut, h) sleeps k =
      if_false (Done artifact) (answers i).cancelled_asleep _ (sleeps cut)
        (k cut (sleep (backoff ctx.policy i) w) h)

  attempts_from-Done :
      (left cuts i : ℕ) (w : World)
      → cuts ≤ left
      → ServesAll ctx artifact answers cuts i
      → IsBegun artifact w
      → Done artifact (attempts_from digest ctx answers left i w)
  unfolding attempts_from
  attempts_from-Done zero zero i w le s h = after_last-Done _ (
      download_attempt-Served digest ctx artifact sha true (answers i) given genuine expected s w
        nonempty h)
  attempts_from-Done zero (suc cuts) i w le s h = absurd (omega arith)
  attempts_from-Done (suc left) zero i w le s h =
      after_attempt-Done true i _ _
        (download_attempt-Served digest ctx artifact sha true (answers i) given genuine expected s w
          nonempty h)
        (λ (e : true ≡ false). absurd (cc)) (λ (e : true ≡ false). absurd (cc))
  attempts_from-Done (suc left) (suc cuts) i w le (s, all) h =
      after_attempt-Done false i _ _
        (download_attempt-Served digest ctx artifact sha false (answers i) given genuine expected s
          w nonempty h)
        (λ (e : false ≡ false). s.sleeps)
        (λ (e : false ≡ false) (v : World) (b : IsBegun artifact v).
          attempts_from-Done left cuts (i + 1) v (omega arith) all b)

module _ (digest : Bytes → Str) (artifact sha : Bytes) (policy : Policy) (c : CallAnswers)
    (d : Disk) where
  abbrev pub ctx_of : AttemptCtx
  ctx_of = attempt_ctx (some sha) policy (some (length artifact))

  with_lock-Done :
      (cuts : ℕ) (w : World)
      → eq_ignore_ascii_case (digest artifact) sha ≡ true
      → 0 < length artifact
      → w.disk.dest ≡ none
      → IsBegun artifact w
      → cuts < policy.max_attempts
      → ServesAll ctx_of artifact c.attempts cuts 1
      → Done artifact (with_lock digest ctx_of c w)
  unfolding with_lock completed_skip
  with_lock-Done cuts w genuine nonempty missing begun few all =
      let skip : completed_skip w.disk.dest (some (length artifact)) ≡ none = rw missing refl in
      rw (skip, with_lock)
        (attempts_from-Done digest ctx_of artifact sha c.attempts refl genuine refl nonempty
          (policy.max_attempts - 1) cuts 1 w (omega arith) all begun)

  after_head-Done :
      (cuts : ℕ)
      → eq_ignore_ascii_case (digest artifact) sha ≡ true
      → 0 < length artifact
      → c.creates_dir ≡ true
      → c.queued d ≡ d
      → d.dest ≡ none
      → ((rest : Bytes) × (stored d.part ++ rest ≡ artifact))
      → cuts < policy.max_attempts
      → ServesAll ctx_of artifact c.attempts cuts 1
      → Done artifact (after_head digest ctx_of c (await (new_world d)))
  unfolding after_head new_world await tick wait_for_lock completed_skip
  after_head-Done cuts genuine nonempty creates alone missing begun few all =
      let skip : completed_skip d.dest (some (length artifact)) ≡ none = rw missing refl in
      let begun' : (rest : Bytes) × (stored (c.queued d).part ++ rest ≡ artifact) =
        subst (λ (x : Disk). (rest : Bytes) × (stored x.part ++ rest ≡ artifact)) (sym alone)
          begun in
      let missing' : (c.queued d).dest ≡ none = ap (λ (x : Disk). x.dest) alone ∙ missing in
      rw (skip, after_head)
        (if_false (Done artifact) (not c.creates_dir) _ (ap not creates)
          (with_lock-Done cuts _ genuine nonempty missing' begun' few all))

  download_all_attempts-Done :
      (cuts : ℕ)
      → eq_ignore_ascii_case (digest artifact) sha ≡ true
      → 0 < length artifact
      → c.builds_client ≡ true
      → c.creates_dir ≡ true
      → expected_length c.head ≡ some (length artifact)
      → c.queued d ≡ d
      → d.dest ≡ none
      → ((rest : Bytes) × (stored d.part ++ rest ≡ artifact))
      → cuts < policy.max_attempts
      → ServesAll ctx_of artifact c.attempts cuts 1
      → Done artifact (download_all_attempts digest (some sha) policy c (new_world d))
  unfolding download_all_attempts
  download_all_attempts-Done cuts genuine nonempty builds creates head alone missing begun few all =
      if_false (Done artifact) (not c.builds_client) _ (ap not builds)
        (rw head (after_head-Done cuts genuine nonempty creates alone missing begun few all))

  -- A call for an artifact that is not there yet, whose `.part` is missing or holds its first bytes,
  -- succeeds and leaves the artifact and no `.part`, if nobody else writes or cancels, the digest and
  -- the length that HEAD tells are the artifact's, the disk fails nowhere and has the space, and of the
  -- attempts that the policy allows some, none included, are broken off anywhere in the body and the
  -- next one is not. The server gives the bytes behind those that are on the disk, in any chunks.
  pub download_verified_with-Served :
      (cuts : ℕ)
      → eq_ignore_ascii_case (digest artifact) sha ≡ true
      → 0 < length artifact
      → c.builds_client ≡ true
      → c.creates_dir ≡ true
      → expected_length c.head ≡ some (length artifact)
      → c.queued d ≡ d
      → d.dest ≡ none
      → ((rest : Bytes) × (stored d.part ++ rest ≡ artifact))
      → cuts < policy.max_attempts
      → ServesAll ctx_of artifact c.attempts cuts 1
      → download_verified_with digest (some sha) policy c none d
        ≡ (ok tt, record { part = none; dest = some artifact })
  unfolding download_verified_with interrupt
  download_verified_with-Served cuts genuine nonempty builds creates head alone missing begun few
        all =
      let (body_ended, left) =
        download_all_attempts-Done cuts genuine nonempty builds creates head alone missing begun few
          all in
      rw (body_ended, left) refl
