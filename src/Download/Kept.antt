-- ===== src/Download/Kept.antt =====
-- What the steps of an attempt do to the bytes of the `.part` file: they extend them.
pub mod Reasons
use lens_lm.Base.{
  ℕ, ◌+◌, ◌-◌, ◌<◌, ◌≡◌, ◌≢◌, refl, sym, ◌∙◌, ap, ◌⊎◌, inl, inr, Bool, true, false, Bool-cases,
  Option, none, some, Option-cases, List, [], ◌∷◌, ◌++◌, append-nil, append_assoc, take, leb, ltb,
  ◌==◌, ◌&&◌, length, if◌then◌else◌, ltb→lt, arith,
}
use lens_lm.Base.Text.{Str}
use lens_lm.Base.Outcome.{cancelled, integrity_check_failed}
use lens_lm.Download.{
  Bytes, Disk, World, AttemptFailure, retryable, fatal, saturating_add_u64, len_or_zero, tick,
  await, set_part, remove_part,
}
use lens_lm.Download.Headers.{content_range}
use lens_lm.Download.Answers.{
  Round, cancel_seen, broken, chunk, Response, Answers, AttemptCtx, AttemptResult, succeeded,
  failed, append_part, finalize, sync_and_finalize, tick_done, complete_part_matches,
  preflight_space,
}
use lens_lm.Download.Attempt.{
  Flow, body_ended, stopped, space_error, stream_body, open_append, await_digest, publish_body,
  end_body, receive_body, resumed_at, partial_content, range_not_satisfiable, is_success,
  range_rejected, resume_body, restart_body, on_reply, send_request, fetch_rest, complete_part,
  check_part, download_attempt,
}

-- The bytes of a file that may be missing.
abbrev pub stored : Option Bytes → Bytes
stored none = []
stored (some b) = b

abbrev pub Extends : Bytes → World → Type 0
Extends b w = (more : Bytes) × (stored w.disk.part ≡ b ++ more)

module _ (b : Bytes) where
  pub await-Extends : (w : World) → Extends b w → Extends b (await w)
  unfolding await
  await-Extends w h = h

  append_part-Extends : (more : Bytes) (w : World) → Extends b w → Extends b (append_part more w)
  unfolding append_part set_part
  append_part-Extends more w (m, h) = elim (Option-cases w.disk.part) [
    | inl e ↦
        let h' : [] ≡ b ++ m = rw e at h in
        rw (e, append_part) (m ++ more, rw (← append_assoc b m more, ← h') refl)
    | inr (old, e) ↦
        let h' : old ≡ b ++ m = rw e at h in
        rw (e, append_part) (m ++ more, rw (← append_assoc b m more, ← h') refl)
  ]

  pub open_append-Extends : (w : World) → Extends b w → Extends b (open_append w)
  unfolding open_append set_part
  open_append-Extends w (m, h) = elim (Option-cases w.disk.part) [
    | inl e ↦ rw (e, open_append) (m, rw e at h)
    | inr (old, e) ↦ rw (e, open_append) (m, h)
  ]

  pub await_digest-Extends :
      (ctx : AttemptCtx) (w : World) → Extends b w → Extends b (await_digest ctx w)
  unfolding await_digest await
  await_digest-Extends ctx w u = elim (Option-cases ctx.expected_sha256) [
    | inl e ↦ rw (e, await_digest) u
    | inr (h, e) ↦ rw (e, await_digest) u
  ]

  pub stream_body-Extends :
      (ctx : AttemptCtx) (total : Option ℕ) (r : List Round) (n since : ℕ) (w : World)
      → Extends b w
      → Extends b (stream_body ctx total r n since w).1
  unfolding stream_body tick
  stream_body-Extends ctx total [] n since w u = await-Extends w u
  stream_body-Extends ctx total (cancel_seen ∷ r) n since w u = await-Extends w u
  stream_body-Extends ctx total (broken ∷ r) n since w u = await-Extends w u
  stream_body-Extends ctx total (chunk c (some (k, e)) free ∷ r) n since w u =
      append_part-Extends (take k c) (await w) (await-Extends w u)
  stream_body-Extends ctx total (chunk c none free ∷ r) n since w u =
      let n' = saturating_add_u64 n (length c) in
      let since' = saturating_add_u64 since (length c) in
      let w' = tick n' total false (append_part c (await w)) in
      let u' : Extends b w' = append_part-Extends c (await w) (await-Extends w u) in
      elim (Option-cases (space_error ctx free total n' since')) [
        | inl e ↦
            rw (e, stream_body)
              (stream_body-Extends ctx total r n'
                (if leb ctx.policy.check_interval since' then 0 else since') w' u')
        | inr (x, e) ↦ rw (e, stream_body) u'
      ]
