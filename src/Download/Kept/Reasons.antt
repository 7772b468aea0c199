-- ===== src/Download/Kept/Reasons.antt =====
-- What an attempt does to the bytes of the `.part` file, with the reasons to discard them.
use lens_lm.Base.{
  ℕ, ◌<◌, ◌≡◌, ◌≢◌, refl, sym, ◌∙◌, ap, ◌⊎◌, inl, inr, Bool, true, false, Bool-cases, Option, none,
  some, Option-cases, [], append-nil, ltb, ◌==◌, if◌then◌else◌, ltb→lt, arith,
}
use lens_lm.Base.Text.{Str}
use lens_lm.Base.Outcome.{cancelled, integrity_check_failed}
use lens_lm.Download.{Bytes, Disk, World, fatal, len_or_zero, tick, await, remove_part}
use lens_lm.Download.Headers.{content_range}
use lens_lm.Download.Answers.{
  Response, Answers, AttemptCtx, AttemptResult, succeeded, failed, finalize, sync_and_finalize,
  tick_done, complete_part_matches, preflight_space,
}
use lens_lm.Download.Attempt.{
  Flow, body_ended, stopped, await_digest, publish_body, end_body, receive_body, resumed_at,
  partial_content, range_not_satisfiable, is_success, resume_body, on_reply, send_request,
  fetch_rest, complete_part, check_part, download_attempt,
}
use lens_lm.Download.Kept.{
  stored, Extends, await-Extends, open_append-Extends, await_digest-Extends, stream_body-Extends,
}

-- What an attempt leaves that streams to the end, or has all there is.
abbrev Left : Bytes → AttemptResult × World → Type 0
Left b (v, w) = Extends b w ⊎ ((v ≡ succeeded) ⊎ (v ≡ failed (fatal integrity_check_failed)))

module _ (b : Bytes) (a : Answers) where
  finalize-Left : (w : World) → Extends b w → Left b (finalize a w)
  unfolding finalize
  finalize-Left w u = elim (Option-cases w.disk.part) [
    | inl e ↦ rw (e, finalize) (inl u)
    | inr (c, e) ↦ elim (Bool-cases a.renames) [
      | inl f ↦ rw (e, f, finalize) (inr (inl refl))
      | inr f ↦ rw (e, f, finalize) (inl u)
    ]
  ]

  sync_and_finalize-Left : (w : World) → Extends b w → Left b (sync_and_finalize a w)
  unfolding sync_and_finalize await
  sync_and_finalize-Left w u = elim (Option-cases w.disk.part) [
    | inl e ↦ rw (e, sync_and_finalize) (inl u)
    | inr (c, e) ↦ elim (Option-cases a.open_error) [
      | inr (x, f) ↦ rw (e, f, sync_and_finalize) (inl u)
      | inl f ↦ elim (Option-cases a.sync_error) [
        | inr (x, g) ↦ rw (e, f, g, sync_and_finalize) (inl u)
        | inl g ↦ rw (e, f, g, sync_and_finalize) (finalize-Left (await w) u)
      ]
    ]
  ]

  tick_done-Left :
      (received : ℕ) (total : Option ℕ) (r : AttemptResult × World)
      → Left b r
      → Left b (tick_done received total r)
  unfolding tick_done tick
  tick_done-Left received total (succeeded, w) h = inr (inl refl)
  tick_done-Left received total (failed f, w) h = h

  module _ (digest : Bytes → Str) (ctx : AttemptCtx) where
    publish_body-Left :
        (received : ℕ) (total : Option ℕ) (w : World)
        → Extends b w
        → Left b (publish_body digest ctx a received total w)
    unfolding publish_body
    publish_body-Left received total w u =
        let u' = await_digest-Extends b ctx w u in
        elim (Option-cases (complete_part_matches digest ctx a.hashes_body w.disk.part)) [
          | inl e ↦ rw (e, publish_body) (inl u')
          | inr (false, e) ↦ rw (e, publish_body) (inr (inr refl))
          | inr (true, e) ↦
              rw (e, publish_body) (tick_done-Left received total _ (finalize-Left _ u'))
        ]

    end_body-Left :
        (total : Option ℕ) (f : Flow) (w : World)
        → Extends b w
        → Left b (end_body digest ctx a total (f, w))
    unfolding end_body
    end_body-Left total (stopped f) w u = inl u
    end_body-Left total (body_ended received) w u = elim (Option-cases a.flush_error) [
      | inr (x, e) ↦ rw (e, end_body) (inl u)
      | inl e ↦ elim (Option-cases a.sync_error) [
        | inr (x, g) ↦ rw (e, g, end_body) (inl (await-Extends b w u))
        | inl g ↦ rw (e, g, end_body) (publish_body-Left received total _ (await-Extends b w u))
      ]
    ]

    resume_body-Left :
        (r : Response) (n : ℕ) (w : World) → Extends b w → Left b (resume_body digest ctx a r n w)
    unfolding resume_body receive_body
    resume_body-Left r n w u = elim (Option-cases a.open_error) [
      | inr (x, e) ↦ rw (e, resume_body) (inl u)
      | inl e ↦
          rw (e, resume_body)
            (end_body-Left _ _ _
              (stream_body-Extends b ctx _ r.rounds n 0 _ (open_append-Extends b w u)))
    ]

module _ (digest : Bytes → Str) (ctx : AttemptCtx) (a : Answers) (w0 : World) where
  abbrev pub part_len : ℕ
  part_len = len_or_zero a.readable w0.disk.part

  -- The reply to the request for the rest of the `.part`.
  abbrev pub Asked : Response → Type 0
  Asked r = a.reply (if ltb 0 part_len then some part_len else none) ≡ some r

  -- Why an attempt with this verdict may discard bytes.
  pub data Reason (v : AttemptResult) : Type 0 where
    published : v ≡ succeeded → Reason v
    mismatched : v ≡ failed (fatal integrity_check_failed) → Reason v
    oversized : (n : ℕ) → ctx.expected_len ≡ some n → n < part_len → Reason v
    stale :
        ctx.expected_len ≡ some part_len
        → complete_part_matches digest ctx a.hashes w0.disk.part ≡ some false
        → Reason v
    misaligned :
        (r : Response)
        → Asked r
        → r.status ≡ 206
        → resumed_at (content_range r.headers) part_len ≡ false
        → Reason v
    rejected : (r : Response) → Asked r → r.status ≡ 416 → Reason v
    restarted : (r : Response) → Asked r → is_success r.status ≡ true → r.status ≢ 206 → Reason v

  abbrev pub KeptBytes : AttemptResult × World → Type 0
  KeptBytes (v, w) = Extends (stored w0.disk.part) w ⊎ Reason v

  Left-KeptBytes : (r : AttemptResult × World) → Left (stored w0.disk.part) r → KeptBytes r
  Left-KeptBytes (v, w) (inl h) = inl h
  Left-KeptBytes (v, w) (inr (inl h)) = inr (published h)
  Left-KeptBytes (v, w) (inr (inr h)) = inr (mismatched h)

  on_reply-KeptBytes :
      (r : Response) (w : World)
      → Asked r
      → Extends (stored w0.disk.part) w
      → KeptBytes (on_reply digest ctx a r part_len w)
  unfolding on_reply
  on_reply-KeptBytes r w asked u =
      let resumed = resumed_at (content_range r.headers) part_len in
      elim (Bool-cases (r.status == partial_content)) [
        | inl f ↦ elim (Bool-cases resumed) [
          | inl e ↦
              rw (f, e, on_reply)
                (Left-KeptBytes (resume_body digest ctx a r part_len w)
                  (resume_body-Left (stored w0.disk.part) a digest ctx r part_len w u))
          | inr e ↦ rw (f, e, on_reply) (inr (misaligned r asked (ground (arith, f)) e))
        ]
        | inr f ↦ elim (Bool-cases (r.status == range_not_satisfiable)) [
          | inl g ↦ rw (f, g, on_reply) (inr (rejected r asked (ground (arith, g))))
          | inr g ↦ elim (Bool-cases (is_success r.status)) [
            | inl h ↦ rw (f, g, h, on_reply) (inr (restarted r asked h (ground (arith, f))))
            | inr h ↦ rw (f, g, h, on_reply) (inl u)
          ]
        ]
      ]

  fetch_rest-KeptBytes :
      (w : World) → Extends (stored w0.disk.part) w → KeptBytes (fetch_rest digest ctx a part_len w)
  unfolding fetch_rest send_request
  fetch_rest-KeptBytes w u = elim (Option-cases (preflight_space ctx a.free part_len)) [
    | inr (x, e) ↦ rw (e, fetch_rest) (inl u)
    | inl e ↦ elim (Option-cases (a.reply (if ltb 0 part_len then some part_len else none))) [
      | inl f ↦ rw (e, f, fetch_rest, send_request) (inl (await-Extends _ w u))
      | inr (r, f) ↦
          rw (e, f, fetch_rest, send_request)
            (on_reply-KeptBytes r (await w) f (await-Extends _ w u))
    ]
  ]

  complete_part-KeptBytes :
      (w : World)
      → w.disk ≡ w0.disk
      → Extends (stored w0.disk.part) w
      → ctx.expected_len ≡ some part_len
      → KeptBytes (complete_part digest ctx a part_len w)
  unfolding complete_part
  complete_part-KeptBytes w same u expected =
      let u' = await_digest-Extends _ ctx w u in
      elim (Option-cases (complete_part_matches digest ctx a.hashes w.disk.part)) [
        | inl h ↦ rw (h, complete_part) (inl u')
        | inr (false, h) ↦ inr (
            stale expected
              (ap (λ (x : Disk). complete_part_matches digest ctx a.hashes x.part) (sym same) ∙ h))
        | inr (true, h) ↦
            rw (h, complete_part)
              (Left-KeptBytes
                (tick_done part_len ctx.expected_len (sync_and_finalize a (await_digest ctx w)))
                (tick_done-Left _ a _ _ _ (sync_and_finalize-Left _ a _ u')))
      ]

  -- The length that is expected is taken apart.
  check_part-KeptBytes :
      (w : World) (expected : Option ℕ)
      → w.disk ≡ w0.disk
      → Extends (stored w0.disk.part) w
      → ctx.expected_len ≡ expected
      → KeptBytes (elim expected [
        | none ↦ fetch_rest digest ctx a part_len w
        | some n ↦
            if ltb n part_len
            then fetch_rest digest ctx a 0 (remove_part a.removes_stale w)
            else if part_len == n
            then complete_part digest ctx a part_len w
            else fetch_rest digest ctx a part_len w
      ])
  check_part-KeptBytes w none same u e = fetch_rest-KeptBytes w u
  check_part-KeptBytes w (some n) same u e = elim (Bool-cases (ltb n part_len)) [
    | inl f ↦ inr (oversized n e (ltb→lt n part_len f))
    | inr f ↦ elim (Bool-cases (part_len == n)) [
      | inr g ↦ rw (f, g) (fetch_rest-KeptBytes w u)
      | inl g ↦
          let n_eq : n ≡ part_len = ground (arith, g) in
          rw (f, g) (complete_part-KeptBytes w same u (e ∙ ap some n_eq))
    ]
  ]

  -- An attempt leaves a `.part` that begins with the bytes it found, whatever goes wrong, unless it
  -- has published the file, or found a digest that does not match, a `.part` over the expected
  -- length, a 206 from another offset, a 416, or another success status, which restarts the file.
  pub download_attempt-KeptBytes : KeptBytes (download_attempt digest ctx a w0)
  unfolding download_attempt check_part tick
  download_attempt-KeptBytes =
      let w' = tick part_len ctx.expected_len false w0 in
      let same : Extends (stored w0.disk.part) w0 = ([], sym (append-nil _)) in
      elim a.cancelled_before
        as (λ (c : Bool).
          KeptBytes
            (if c then (failed (fatal cancelled), w0) else check_part digest ctx a part_len w')) [
              | true ↦ inl same
              | false ↦ check_part-KeptBytes w' ctx.expected_len refl same refl
            ]
