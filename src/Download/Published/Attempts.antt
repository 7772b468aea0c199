-- ===== src/Download/Published/Attempts.antt =====
-- An attempt writes the finished file by the rename of a verified `.part` alone.
use lens_lm.Base.{
  ℕ, ◌≡◌, refl, sym, ◌∙◌, inl, inr, Bool, true, false, Bool-cases, Option, none, some, Option-cases,
  [], ltb, ◌==◌, ◌&&◌, ap, if◌then◌else◌, arith,
}
use lens_lm.Base.Text.{Str}
use lens_lm.Base.Outcome.{cancelled}
use lens_lm.Download.{len_or_zero, Bytes, Disk, World, fatal, tick, await, set_part}
use lens_lm.Download.Headers.{content_range}
use lens_lm.Download.Answers.{
  Response, Answers, AttemptCtx, AttemptResult, succeeded, failed, finalize, sync_and_finalize,
  tick_done, sha256_file, complete_part_matches, preflight_space,
}
use lens_lm.Download.Attempt.{
  resumed_at, partial_content, range_not_satisfiable, is_success, Flow, body_ended, stopped,
  await_digest, publish_body, end_body, receive_body, range_rejected, resume_body, restart_body,
  on_reply, send_request, fetch_rest, complete_part, check_part, download_attempt,
}
use lens_lm.Download.Published.{
  Unmoved, Matches, Attempted, remove_part-Unmoved, open_append-Unmoved, await-Unmoved,
  await_digest-Unmoved, stream_body-Unmoved,
}

module _ (digest : Bytes → Str) (ctx : AttemptCtx) (a : Answers) (before d : Option Bytes) where
  -- A digest that was compared with the one that is expected.
  compared :
      (hashes : Bool) (part : Option Bytes)
      → complete_part_matches digest ctx hashes part ≡ some true
      → (b : Bytes) → part ≡ some b
      → Matches digest ctx.expected_sha256 b
  unfolding complete_part_matches sha256_file
  compared hashes part h b e = elim (Option-cases ctx.expected_sha256) [
    | inl none_given ↦ rw none_given tt
    | inr (sha, given) ↦ rw given (ground (arith, h, e, given))
  ]

  abbrev Verified : World → Type 0
  Verified w = (b : Bytes) → w.disk.part ≡ some b → Matches digest ctx.expected_sha256 b

  finalize-Attempted :
      (w : World)
      → Verified w
      → Unmoved before d w
      → Attempted digest ctx.expected_sha256 before d (finalize a w)
  unfolding finalize
  finalize-Attempted w v u = elim (Option-cases w.disk.part) [
    | inl e ↦ rw (e, finalize) u
    | inr (b, e) ↦ elim (Bool-cases a.renames) [
      | inl f ↦ rw (e, f, finalize) ((b, refl, v b e), u.1)
      | inr f ↦ rw (e, f, finalize) u
    ]
  ]

  sync_and_finalize-Attempted :
      (w : World)
      → Verified w
      → Unmoved before d w
      → Attempted digest ctx.expected_sha256 before d (sync_and_finalize a w)
  unfolding sync_and_finalize
  sync_and_finalize-Attempted w v u = elim (Option-cases w.disk.part) [
    | inl e ↦ rw (e, sync_and_finalize) u
    | inr (b, e) ↦ elim (Option-cases a.open_error) [
      | inr (x, f) ↦ rw (e, f, sync_and_finalize) u
      | inl f ↦ elim (Option-cases a.sync_error) [
        | inr (x, g) ↦ rw (e, f, g, sync_and_finalize) (await-Unmoved before d w u)
        | inl g ↦
            rw (e, f, g, sync_and_finalize)
              (finalize-Attempted (await w) (unfold await in v) (await-Unmoved before d w u))
      ]
    ]
  ]

  tick_done-Attempted :
      (received : ℕ) (total : Option ℕ) (r : AttemptResult × World)
      → Attempted digest ctx.expected_sha256 before d r
      → Attempted digest ctx.expected_sha256 before d (tick_done received total r)
  unfolding tick_done tick
  tick_done-Attempted received total (succeeded, w) h = h
  tick_done-Attempted received total (failed f, w) h = h

  await_digest-disk : (w : World) → (await_digest ctx w).disk ≡ w.disk
  unfolding await_digest await
  await_digest-disk w = elim (Option-cases ctx.expected_sha256) [
    | inl e ↦ rw (e, await_digest) refl
    | inr (h, e) ↦ rw (e, await_digest) refl
  ]

  -- What was compared stays so behind the await.
  compared_at :
      (hashes : Bool) (w : World)
      → complete_part_matches digest ctx hashes w.disk.part ≡ some true
      → Verified (await_digest ctx w)
  compared_at hashes w h b e =
      compared hashes w.disk.part h b (ap (λ (x : Disk). x.part) (sym (await_digest-disk w)) ∙ e)

  publish_body-Attempted :
      (received : ℕ) (total : Option ℕ) (w : World)
      → Unmoved before d w
      → Attempted digest ctx.expected_sha256 before d (publish_body digest ctx a received total w)
  unfolding publish_body
  publish_body-Attempted received total w u =
      let u' = await_digest-Unmoved before d ctx w u in
      elim (Option-cases (complete_part_matches digest ctx a.hashes_body w.disk.part)) [
        | inl e ↦ rw (e, publish_body) u'
        | inr (false, e) ↦ rw (e, publish_body) (remove_part-Unmoved before d a.removes _ u')
        | inr (true, e) ↦
            rw (e, publish_body)
              (tick_done-Attempted received total _
                (finalize-Attempted (await_digest ctx w) (compared_at a.hashes_body w e) u'))
      ]

  end_body-Attempted :
      (total : Option ℕ) (f : Flow) (w : World)
      → Unmoved before d w
      → Attempted digest ctx.expected_sha256 before d (end_body digest ctx a total (f, w))
  unfolding end_body
  end_body-Attempted total (stopped f) w u = u
  end_body-Attempted total (body_ended received) w u = elim (Option-cases a.flush_error) [
    | inr (x, e) ↦ rw (e, end_body) u
    | inl e ↦ elim (Option-cases a.sync_error) [
      | inr (x, g) ↦ rw (e, g, end_body) (await-Unmoved before d w u)
      | inl g ↦
          rw (e, g, end_body)
            (publish_body-Attempted received total (await w) (await-Unmoved before d w u))
    ]
  ]

  receive_body-Attempted :
      (r : Response) (received : ℕ) (total : Option ℕ) (w : World)
      → Unmoved before d w
      → Attempted digest ctx.expected_sha256 before d (receive_body digest ctx a r received total w)
  unfolding receive_body
  receive_body-Attempted r received total w u =
      end_body-Attempted total _ _ (stream_body-Unmoved before d ctx total r.rounds received 0 w u)

  range_rejected-Attempted :
      (part_len : ℕ) (w : World)
      → Unmoved before d w
      → Attempted digest ctx.expected_sha256 before d (range_rejected digest ctx a part_len w)
  unfolding range_rejected
  range_rejected-Attempted part_len w u = elim (Option-cases ctx.expected_sha256) [
    | inl e ↦ rw (e, range_rejected) (remove_part-Unmoved before d a.removes w u)
    | inr (sha, e) ↦
        let u' = await-Unmoved before d w u in
        elim (Option-cases (complete_part_matches digest ctx a.hashes_rejected w.disk.part)) [
          | inl g ↦ rw (e, g, range_rejected) (remove_part-Unmoved before d a.removes _ u')
          | inr (false, g) ↦ rw (e, g, range_rejected) (remove_part-Unmoved before d a.removes _ u')
          | inr (true, g) ↦
              let v : Verified (await w) =
                unfold await in compared a.hashes_rejected w.disk.part g in
              rw (e, g, range_rejected)
                (rw (← e) (
                  tick_done-Attempted part_len ctx.expected_len _
                    (sync_and_finalize-Attempted (await w) v u')))
        ]
  ]

  resume_body-Attempted :
      (r : Response) (part_len : ℕ) (w : World)
      → Unmoved before d w
      → Attempted digest ctx.expected_sha256 before d (resume_body digest ctx a r part_len w)
  unfolding resume_body
  resume_body-Attempted r part_len w u = elim (Option-cases a.open_error) [
    | inr (x, e) ↦ rw (e, resume_body) u
    | inl e ↦
        rw (e, resume_body)
          (receive_body-Attempted r part_len _ _ (open_append-Unmoved before d w u))
  ]

  restart_body-Attempted :
      (r : Response) (w : World)
      → Unmoved before d w
      → Attempted digest ctx.expected_sha256 before d (restart_body digest ctx a r w)
  unfolding restart_body set_part
  restart_body-Attempted r w u = elim (Option-cases a.open_error) [
    | inr (x, e) ↦ rw (e, restart_body) u
    | inl e ↦ rw (e, restart_body) (receive_body-Attempted r 0 _ (set_part (some []) w) u)
  ]

  on_reply-Attempted :
      (r : Response) (part_len : ℕ) (w : World)
      → Unmoved before d w
      → Attempted digest ctx.expected_sha256 before d (on_reply digest ctx a r part_len w)
  unfolding on_reply
  on_reply-Attempted r part_len w u =
      let resumed = r.status == partial_content && resumed_at (content_range r.headers) part_len in
      elim (Bool-cases resumed) [
        | inl e ↦ rw (e, on_reply) (resume_body-Attempted r part_len w u)
        | inr e ↦ elim (Bool-cases (r.status == partial_content)) [
          | inl f ↦ rw (e, f, on_reply) (remove_part-Unmoved before d a.removes w u)
          | inr f ↦ elim (Bool-cases (r.status == range_not_satisfiable)) [
            | inl g ↦ rw (e, f, g, on_reply) (range_rejected-Attempted part_len w u)
            | inr g ↦ elim (Bool-cases (is_success r.status)) [
              | inl h ↦ rw (e, f, g, h, on_reply) (restart_body-Attempted r w u)
              | inr h ↦ rw (e, f, g, h, on_reply) u
            ]
          ]
        ]
      ]

  fetch_rest-Attempted :
      (part_len : ℕ) (w : World)
      → Unmoved before d w
      → Attempted digest ctx.expected_sha256 before d (fetch_rest digest ctx a part_len w)
  unfolding fetch_rest send_request
  fetch_rest-Attempted part_len w u = elim (Option-cases (preflight_space ctx a.free part_len)) [
    | inr (x, e) ↦ rw (e, fetch_rest) u
    | inl e ↦
        let u' = await-Unmoved before d w u in
        elim (Option-cases (a.reply (if ltb 0 part_len then some part_len else none))) [
          | inl f ↦ rw (e, f, fetch_rest, send_request) u'
          | inr (r, f) ↦
              rw (e, f, fetch_rest, send_request) (on_reply-Attempted r part_len (await w) u')
        ]
  ]

  complete_part-Attempted :
      (part_len : ℕ) (w : World)
      → Unmoved before d w
      → Attempted digest ctx.expected_sha256 before d (complete_part digest ctx a part_len w)
  unfolding complete_part
  complete_part-Attempted part_len w u =
      let u' = await_digest-Unmoved before d ctx w u in
      elim (Option-cases (complete_part_matches digest ctx a.hashes w.disk.part)) [
        | inl e ↦ rw (e, complete_part) u'
        | inr (false, e) ↦
            rw (e, complete_part)
              (fetch_rest-Attempted 0 _ (remove_part-Unmoved before d a.removes_stale _ u'))
        | inr (true, e) ↦
            rw (e, complete_part)
              (tick_done-Attempted part_len ctx.expected_len _
                (sync_and_finalize-Attempted (await_digest ctx w) (compared_at a.hashes w e) u'))
      ]

  check_part-Attempted :
      (part_len : ℕ) (w : World)
      → Unmoved before d w
      → Attempted digest ctx.expected_sha256 before d (check_part digest ctx a part_len w)
  unfolding check_part
  check_part-Attempted part_len w u = elim (Option-cases ctx.expected_len) [
    | inl e ↦ rw (e, check_part) (fetch_rest-Attempted part_len w u)
    | inr (n, e) ↦ elim (Bool-cases (ltb n part_len)) [
      | inl f ↦
          rw (e, f, check_part)
            (fetch_rest-Attempted 0 _ (remove_part-Unmoved before d a.removes_stale w u))
      | inr f ↦ elim (Bool-cases (part_len == n)) [
        | inl g ↦ rw (e, f, g, check_part) (complete_part-Attempted part_len w u)
        | inr g ↦ rw (e, f, g, check_part) (fetch_rest-Attempted part_len w u)
      ]
    ]
  ]

  pub download_attempt-Attempted :
      (w : World)
      → Unmoved before d w
      → Attempted digest ctx.expected_sha256 before d (download_attempt digest ctx a w)
  unfolding download_attempt tick
  download_attempt-Attempted w u =
      let n = len_or_zero a.readable w.disk.part in
      let w' = tick n ctx.expected_len false w in
      elim a.cancelled_before
        as (λ (b : Bool).
          Attempted digest ctx.expected_sha256 before d
            (if b then (failed (fatal cancelled), w) else check_part digest ctx a n w')) [
              | true ↦ u
              | false ↦ check_part-Attempted n w' u
            ]
