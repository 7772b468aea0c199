-- ===== src/Download/Published.antt =====
-- The steps of an attempt that leave the finished file.
pub mod Attempts
pub mod Calls
use lens_lm.Base.{
  ℕ, zero, suc, ◌+◌, ◌-◌, ◌≡◌, refl, sym, ◌∙◌, ◌⊎◌, inl, inr, Bool, true, false, Bool-cases, Option,
  none, some, Option-cases, List, [], ◌∷◌, All, take, leb, length, ltb, ◌==◌, ◌&&◌, ap,
  if◌then◌else◌, arith,
}
use lens_lm.Base.Text.{Str}
use lens_lm.Base.Outcome.{Outcome, ok, err, panic, cancelled}
use lens_lm.Download.{
  len_or_zero, saturating_add_u64, Bytes, Disk, World, AttemptFailure, retryable, fatal, tick,
  await, set_part, remove_part, eq_ignore_ascii_case,
}
use lens_lm.Download.Headers.{content_range}
use lens_lm.Download.Answers.{
  Round, cancel_seen, broken, chunk, Response, Answers, AttemptCtx, AttemptResult, succeeded,
  failed, append_part, finalize, sync_and_finalize, tick_done, sha256_file, complete_part_matches,
  preflight_space,
}
use lens_lm.Download.Attempt.{
  resumed_at, partial_content, range_not_satisfiable, is_success, Flow, body_ended, stopped,
  space_error, stream_body, open_append, await_digest, publish_body, end_body, receive_body,
  range_rejected, resume_body, restart_body, on_reply, send_request, fetch_rest, complete_part,
  check_part, download_attempt,
}

-- Where the finished file is `d`, that is what it was at each await, or `before`.
abbrev pub Was : Option Bytes → Option Bytes → Disk → Type 0
Was before d x = (x.dest ≡ before) ⊎ (x.dest ≡ d)

abbrev pub Unmoved : Option Bytes → Option Bytes → World → Type 0
Unmoved before d w = (w.disk.dest ≡ d) × All (Was before d) w.awaits

module _ (digest : Bytes → Str) where
  abbrev pub Matches : Option Str → Bytes → Type 0
  Matches none b = Unit
  Matches (some expected) b = eq_ignore_ascii_case (digest b) expected ≡ true

  abbrev pub IsVerified : Option Str → Option Bytes → Type 0
  IsVerified sha dest = (b : Bytes) × (dest ≡ some b) × Matches sha b

  -- How an attempt may end that finds the finished file `d`: with a file that matches, or with `d`.
  abbrev pub Attempted : Option Str → Option Bytes → Option Bytes → AttemptResult × World → Type 0
  Attempted sha before d (succeeded, w) = IsVerified sha w.disk.dest × All (Was before d) w.awaits
  Attempted sha before d (failed f, w) = Unmoved before d w

module _ (before d : Option Bytes) where
  pub remove_part-Unmoved :
      (b : Bool) (w : World) → Unmoved before d w → Unmoved before d (remove_part b w)
  unfolding remove_part set_part
  remove_part-Unmoved true w u = u
  remove_part-Unmoved false w u = u

  pub append_part-Unmoved :
      (b : Bytes) (w : World) → Unmoved before d w → Unmoved before d (append_part b w)
  unfolding append_part set_part
  append_part-Unmoved b w u = elim (Option-cases w.disk.part) [
    | inl e ↦ rw (e, append_part) u
    | inr (old, e) ↦ rw (e, append_part) u
  ]

  pub open_append-Unmoved : (w : World) → Unmoved before d w → Unmoved before d (open_append w)
  unfolding open_append set_part
  open_append-Unmoved w u = elim (Option-cases w.disk.part) [
    | inl e ↦ rw (e, open_append) u
    | inr (old, e) ↦ rw (e, open_append) u
  ]

  pub await-Unmoved : (w : World) → Unmoved before d w → Unmoved before d (await w)
  unfolding await
  await-Unmoved w (u, all) = (u, (inr u, all))

  pub await_digest-Unmoved :
      (ctx : AttemptCtx) (w : World) → Unmoved before d w → Unmoved before d (await_digest ctx w)
  unfolding await_digest
  await_digest-Unmoved ctx w u = elim (Option-cases ctx.expected_sha256) [
    | inl e ↦ rw (e, await_digest) u
    | inr (h, e) ↦ rw (e, await_digest) (await-Unmoved w u)
  ]

  -- The loop over the body leaves the finished file.
  pub stream_body-Unmoved :
      (ctx : AttemptCtx) (total : Option ℕ) (r : List Round) (n since : ℕ) (w : World)
      → Unmoved before d w
      → Unmoved before d (stream_body ctx total r n since w).1
  unfolding stream_body tick
  stream_body-Unmoved ctx total [] n since w u = await-Unmoved w u
  stream_body-Unmoved ctx total (cancel_seen ∷ r) n since w u = await-Unmoved w u
  stream_body-Unmoved ctx total (broken ∷ r) n since w u = await-Unmoved w u
  stream_body-Unmoved ctx total (chunk b (some (k, e)) free ∷ r) n since w u =
      append_part-Unmoved (take k b) (await w) (await-Unmoved w u)
  stream_body-Unmoved ctx total (chunk b none free ∷ r) n since w u =
      let n' = saturating_add_u64 n (length b) in
      let since' = saturating_add_u64 since (length b) in
      let w' = tick n' total false (append_part b (await w)) in
      let u' : Unmoved before d w' = append_part-Unmoved b (await w) (await-Unmoved w u) in
      elim (Option-cases (space_error ctx free total n' since')) [
        | inl e ↦
            rw (e, stream_body)
              (stream_body-Unmoved ctx total r n'
                (if leb ctx.policy.check_interval since' then 0 else since') w' u')
        | inr (x, e) ↦ rw (e, stream_body) u'
      ]
