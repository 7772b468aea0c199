-- ===== src/Download/Published/Calls.antt =====
-- What a call leaves as the finished file, wherever it is cancelled.
use lens_lm.Base.{
  ℕ, zero, suc, ◌+◌, ◌-◌, ◌<◌, ◌≡◌, refl, ◌⊎◌, inl, inr, Bool-cases, Option, none, some,
  Option-cases, List, [], ◌∷◌, All, All-append, get_elem?, length, not, if_both, arith,
}
use mathlib.Core.Path.{subst}
use mathlib.Core.List.{reverse, reverse-cons}
use lens_lm.Base.Text.{Str}
use lens_lm.Base.Outcome.{Outcome, ok, err, panic}
use lens_lm.Download.{
  Bytes, Progress, Disk, World, Policy, retryable, fatal, tick, await, completed_skip,
}
use lens_lm.Download.Answers.{Answers, AttemptCtx, AttemptResult, succeeded, failed}
use lens_lm.Download.Call.{
  CallAnswers, CallResult, expected_length, report, sleep, backoff, after_attempt, after_last,
  attempts_from, with_lock, wait_for_lock, after_head, attempt_ctx, download_all_attempts,
  new_world, interrupt, download_verified_with,
}
use lens_lm.Download.Published.{Was, Unmoved, IsVerified, Attempted}
use lens_lm.Download.Published.Attempts.{download_attempt-Attempted}

-- A finished file that was there, and has the length `expected`, which is not 0.
abbrev pub IsComplete : Option ℕ → Option Bytes → Type 0
IsComplete expected dest =
    (b : Bytes) × (dest ≡ some b) × (expected ≡ some (length b)) × (0 < length b)

completed_skip-IsComplete :
    (dest : Option Bytes) (expected : Option ℕ) (p : Progress)
    → completed_skip dest expected ≡ some p
    → IsComplete expected dest
unfolding completed_skip
completed_skip-IsComplete none expected p h = cc
completed_skip-IsComplete (some b) none p h = cc
completed_skip-IsComplete (some b) (some n) p h = (b, refl, ground arith, ground arith)

module _ (digest : Bytes → Str) (sha : Option Str) (before d : Option Bytes) where
  -- How the attempts may end that find the finished file `d`.
  abbrev Looped : CallResult → Type 0
  Looped (ok _, w) = IsVerified digest sha w.disk.dest × All (Was before d) w.awaits
  Looped (err e, w) = Unmoved before d w
  Looped (panic, w) = ⊥

module _ (digest : Bytes → Str) (ctx : AttemptCtx) (answers : ℕ → Answers)
    (before d : Option Bytes) where
  after_attempt-Looped :
      (attempt : ℕ) (next : World → CallResult) (r : AttemptResult × World)
      → Attempted digest ctx.expected_sha256 before d r
      → ((w : World) → Unmoved before d w → Looped digest ctx.expected_sha256 before d (next w))
      → Looped digest ctx.expected_sha256 before d (after_attempt ctx answers attempt next r)
  unfolding after_attempt sleep await
  after_attempt-Looped attempt next (succeeded, w) h k = h
  after_attempt-Looped attempt next (failed (fatal e), w) h k = h
  after_attempt-Looped attempt next (failed (retryable e), w) (u, all) k =
      elim (Bool-cases (answers attempt).cancelled_asleep) [
        | inl c ↦ rw (c, after_attempt) (u, (inr u, all))
        | inr c ↦ rw (c, after_attempt) (k (sleep (backoff ctx.policy attempt) w) (u, (inr u, all)))
      ]

  after_last-Looped :
      (r : AttemptResult × World)
      → Attempted digest ctx.expected_sha256 before d r
      → Looped digest ctx.expected_sha256 before d (after_last r)
  unfolding after_last
  after_last-Looped (succeeded, w) h = h
  after_last-Looped (failed (fatal e), w) h = h
  after_last-Looped (failed (retryable e), w) h = h

  attempts_from-Looped :
      (left attempt : ℕ) (w : World)
      → Unmoved before d w
      → Looped digest ctx.expected_sha256 before d (attempts_from digest ctx answers left attempt w)
  unfolding attempts_from
  attempts_from-Looped zero attempt w u =
      after_last-Looped _ (download_attempt-Attempted digest ctx (answers attempt) before d w u)
  attempts_from-Looped (suc left) attempt w u =
      after_attempt-Looped attempt _ _
        (download_attempt-Attempted digest ctx (answers attempt) before d w u)
        (attempts_from-Looped left (attempt + 1))

module _ (digest : Bytes → Str) (sha : Option Str) (c : CallAnswers) (d : Disk) where
  -- The finished file is as it was before the call, or behind the wait for the lock.
  abbrev pub IsOld : Option Bytes → Type 0
  IsOld dest = (dest ≡ d.dest) ⊎ (dest ≡ (c.queued d).dest)

  abbrev pub Published : Outcome (Unit {0}) × Disk → Type 0
  Published (ok _, e) =
      IsVerified digest sha e.dest ⊎ (IsOld e.dest × IsComplete (expected_length c.head) e.dest)
  Published (err x, e) = IsOld e.dest
  Published (panic, e) = ⊥

  abbrev CallEnded : CallResult → Type 0
  CallEnded (r, w) = Published (r, w.disk) × All (λ (x : Disk). IsOld x.dest) w.awaits

  Looped-CallEnded : (r : CallResult) → Looped digest sha d.dest (c.queued d).dest r → CallEnded r
  Looped-CallEnded (ok t, w) (v, all) = (inl v, all)
  Looped-CallEnded (err e, w) (u, all) = (inr u, all)
  Looped-CallEnded (panic, w) h = absurd h

  with_lock-CallEnded :
      (policy : Policy) (w : World)
      → Unmoved d.dest (c.queued d).dest w
      → CallEnded (with_lock digest (attempt_ctx sha policy (expected_length c.head)) c w)
  unfolding with_lock report
  with_lock-CallEnded policy w (u, all) =
      let ctx = attempt_ctx sha policy (expected_length c.head) in
      elim (Option-cases (completed_skip w.disk.dest (expected_length c.head))) [
        | inr (p, e) ↦
            rw (e, with_lock) (inr (inr u, completed_skip-IsComplete w.disk.dest _ p e), all)
        | inl e ↦
            rw (e, with_lock)
              (Looped-CallEnded _ (
                attempts_from-Looped digest ctx c.attempts d.dest (c.queued d).dest
                  (policy.max_attempts - 1) 1 w (u, all)))
      ]

  download_all_attempts-CallEnded :
      (policy : Policy) → CallEnded (download_all_attempts digest sha policy c (new_world d))
  unfolding download_all_attempts after_head new_world await tick report wait_for_lock
  download_all_attempts-CallEnded policy =
      if_both CallEnded (not c.builds_client) (inl refl, tt)
        (elim (Option-cases (completed_skip d.dest (expected_length c.head))) [
          | inr (p, f) ↦
              rw (f, after_head)
                (inr (inl refl, completed_skip-IsComplete d.dest _ p f), (inl refl, tt))
          | inl f ↦
              rw (f, after_head)
                (if_both CallEnded (not c.creates_dir) (inl refl, (inl refl, tt))
                  (with_lock-CallEnded policy _ (refl, (inl refl, (inl refl, tt)))))
        ])

  reverse-All :
      (l : List Disk)
      → All (λ (x : Disk). IsOld x.dest) l
      → All (λ (x : Disk). IsOld x.dest) (reverse l)
  reverse-All [] all = tt
  reverse-All (x ∷ l) (a, all) =
      rw (reverse-cons x l)
        (All-append (λ (y : Disk). IsOld y.dest) (reverse l) (x ∷ []) (reverse-All l all) (a, tt))

  All-get_elem? :
      (l : List Disk) (k : ℕ) (x : Disk)
      → All (λ (y : Disk). IsOld y.dest) l
      → get_elem? l k ≡ some x
      → IsOld x.dest
  All-get_elem? [] k x all h = absurd (cc)
  All-get_elem? (y ∷ l) zero x (a, all) h =
      let e : y ≡ x = cc in subst (λ (z : Disk). IsOld z.dest) e a
  All-get_elem? (y ∷ l) (suc k) x (a, all) h = All-get_elem? l k x all h

  interrupt-Published :
      (interrupted : Option ℕ) (r : CallResult)
      → CallEnded r
      → Published (interrupt interrupted d r)
  unfolding interrupt
  interrupt-Published none (r, w) h = h.0
  interrupt-Published (some zero) (r, w) h = inl refl
  interrupt-Published (some (suc k)) (r, w) (h, all) =
      elim (Option-cases (get_elem? (reverse w.awaits) k)) [
        | inl e ↦ rw (e, interrupt) h
        | inr (x, e) ↦
            rw (e, interrupt) (All-get_elem? (reverse w.awaits) k x (reverse-All _ all) e)
      ]

  -- Whatever the server, the disk and the canceller do, a call that succeeds leaves a finished file
  -- whose digest is the expected one (where one is given), or one that was there already, with the
  -- length, not 0, that the HEAD request told. A call that fails or is cancelled at any await leaves
  -- the finished file that it found, before the call or behind the wait for the lock. No call panics.
  pub download_verified_with-Published :
      (policy : Policy) (interrupted : Option ℕ)
      → Published (download_verified_with digest sha policy c interrupted d)
  unfolding download_verified_with
  download_verified_with-Published policy interrupted =
      interrupt-Published interrupted _ (download_all_attempts-CallEnded policy)
