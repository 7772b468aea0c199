-- ===== src/Download/Finishes/Attempts.antt =====
-- One attempt that an honest server answers.
use lens_lm.Base.{
  ℕ, ◌+◌, ◌<◌, ◌≡◌, refl, sym, ◌∙◌, ap, inl, inr, Bool, true, false, Bool-cases, Option, none, some,
  Option-cases, [], ◌∷◌, ◌++◌, append-nil, ltb, ◌==◌, length, length-append, if_false, arith,
}
use lens_lm.Base.Text.{Str}
use lens_lm.Download.{
  Bytes, World, retryable, fatal, len_or_zero, tick, await, set_part, eq_ignore_ascii_case,
}
use lens_lm.Download.Headers.{content_length_header}
use lens_lm.Download.Answers.{
  Response, Answers, AttemptCtx, AttemptResult, succeeded, failed, finalize, sync_and_finalize,
  tick_done, sha256_file, complete_part_matches,
}
use lens_lm.Download.Attempt.{
  or_given, Flow, body_ended, stopped, open_append, await_digest, publish_body, end_body,
  receive_body, partial_content, resume_body, restart_body, on_reply, send_request, fetch_rest,
  complete_part, check_part, download_attempt,
}
use lens_lm.Download.Kept.{stored}
use lens_lm.Download.Finishes.{
  Delivers, Honest, Serves, IsBegun, Served, Flowed, stream_body-Flowed,
}

append-empty : (b rest : Bytes) → length b ≡ 0 → b ++ rest ≡ rest
append-empty [] rest e = refl
append-empty (c ∷ b) rest e = absurd (omega arith)

-- A part of the artifact that has its length is the artifact.
all_stored :
    {artifact : Bytes} (p : Option Bytes) (rest : Bytes)
    → length (stored p) ≡ length artifact
    → 0 < length artifact
    → stored p ++ rest ≡ artifact
    → p ≡ some artifact
all_stored none rest e nonempty h = absurd (omega arith)
all_stored (some b) rest e nonempty h =
    let none_left : length rest ≡ 0 = omega (arith, length-append b rest, ap length h) in
    ap some (append-none b rest none_left ∙ h)
  where
    append-none : (b rest : Bytes) → length rest ≡ 0 → b ≡ b ++ rest
    append-none b [] e = sym (append-nil b)
    append-none b (c ∷ rest) e = absurd (omega arith)

module _ (digest : Bytes → Str) (ctx : AttemptCtx) (artifact sha : Bytes) (whole : Bool)
    (a : Answers) (given : ctx.expected_sha256 ≡ some sha)
    (genuine : eq_ignore_ascii_case (digest artifact) sha ≡ true)
    (expected : ctx.expected_len ≡ some (length artifact))
    (serves : Serves ctx artifact whole a) where
  matches :
      (hashes : Bool)
      → hashes ≡ true
      → complete_part_matches digest ctx hashes (some artifact) ≡ some true
  unfolding complete_part_matches sha256_file
  matches hashes h = rw (given, h, genuine) refl

  publish_whole : (w : World) → w.disk.part ≡ some artifact → Served artifact whole (finalize a w)
  unfolding finalize
  publish_whole w e = rw (e, serves.renames) refl

  tick_done-Served :
      (n : ℕ) (total : Option ℕ) (r : AttemptResult × World)
      → Served artifact whole r
      → Served artifact whole (tick_done n total r)
  unfolding tick_done tick
  tick_done-Served n total (succeeded, w) h = h
  tick_done-Served n total (failed (retryable e), w) h = h
  tick_done-Served n total (failed (fatal e), w) h = absurd h

  await_digest-part :
      (w : World) → w.disk.part ≡ some artifact → (await_digest ctx w).disk.part ≡ some artifact
  unfolding await_digest await
  await_digest-part w e = rw (given, await_digest) e

  end_body-Served :
      (total : Option ℕ) (f : Flow) (w : World)
      → Flowed artifact whole (f, w)
      → Served artifact whole (end_body digest ctx a total (f, w))
  unfolding end_body publish_body
  end_body-Served total (stopped (retryable e)) w h = h
  end_body-Served total (stopped (fatal e)) w h = absurd h
  end_body-Served total (body_ended n) w h =
      let matched : complete_part_matches digest ctx a.hashes_body (await w).disk.part ≡ some true =
        unfold await in rw h (matches a.hashes_body serves.hashes_body) in
      rw (serves.flushes, serves.syncs, matched, end_body, publish_body)
        (tick_done-Served n total _
          (publish_whole _ (await_digest-part (await w) (unfold await in h))))

  receive_body-Served :
      (r : Response) (n : ℕ) (total : Option ℕ) (b rest : Bytes) (w : World)
      → total ≡ some (length artifact)
      → w.disk.part ≡ some b
      → b ++ rest ≡ artifact
      → Delivers ctx (length artifact) whole rest r.rounds
      → Served artifact whole (receive_body digest ctx a r n total w)
  unfolding receive_body
  receive_body-Served r n total b rest w t e h d = rw t (
      end_body-Served (some (length artifact)) _ _
        (stream_body-Flowed artifact ctx whole (length artifact) r.rounds n 0 b rest w e h d))

  open_append-stored : (w : World) → (open_append w).disk.part ≡ some (stored w.disk.part)
  unfolding open_append set_part
  open_append-stored w = elim (Option-cases w.disk.part) [
    | inl e ↦ rw (e, open_append) refl
    | inr (b, e) ↦ rw (e, open_append) e
  ]

  resume_body-Served :
      (r : Response) (n : ℕ) (rest : Bytes) (w : World)
      → stored w.disk.part ++ rest ≡ artifact
      → Delivers ctx (length artifact) whole rest r.rounds
      → Served artifact whole (resume_body digest ctx a r n w)
  unfolding resume_body or_given
  resume_body-Served r n rest w h d =
      rw (serves.opens, resume_body)
        (receive_body-Served r n _ (stored w.disk.part) rest (open_append w) (rw expected refl)
          (open_append-stored w) h d)

  restart_body-Served :
      (r : Response) (rest : Bytes) (w : World)
      → rest ≡ artifact
      → or_given (content_length_header r.headers) ctx.expected_len ≡ some (length artifact)
      → Delivers ctx (length artifact) whole rest r.rounds
      → Served artifact whole (restart_body digest ctx a r w)
  unfolding restart_body
  restart_body-Served r rest w h t d =
      rw (serves.opens, restart_body)
        (receive_body-Served r 0 _ [] rest (set_part (some []) w) t (unfold set_part in refl) h d)

  on_reply-Served :
      (r : Response) (rest : Bytes) (w : World)
      → stored w.disk.part ++ rest ≡ artifact
      → Honest ctx (length artifact) whole (length (stored w.disk.part)) rest r
      → Served artifact whole (on_reply digest ctx a r (length (stored w.disk.part)) w)
  unfolding on_reply
  on_reply-Served r rest w h (inl (partial, at), d) =
      let p : (r.status == partial_content) ≡ true = ground (arith, partial) in
      rw (p, at, on_reply) (resume_body-Served r (length (stored w.disk.part)) rest w h d)
  on_reply-Served r rest w h (inr (start, ne, ne', success, t), d) =
      let p : (r.status == partial_content) ≡ false = ground (arith, ne) in
      let q : (r.status == 416) ≡ false = ground (arith, ne') in
      rw (p, q, success, on_reply)
        (restart_body-Served r rest w (sym (append-empty _ rest start) ∙ h) t d)

  fetch_rest-Served :
      (rest : Bytes) (w : World)
      → stored w.disk.part ++ rest ≡ artifact
      → 0 < length rest
      → Served artifact whole (fetch_rest digest ctx a (length (stored w.disk.part)) w)
  unfolding fetch_rest send_request await
  fetch_rest-Served rest w h left =
      let (r, asked, honest) = serves.replies (stored w.disk.part) rest h left in
      rw (serves.room (length (stored w.disk.part)), fetch_rest, asked, send_request)
        (on_reply-Served r rest (await w) h honest)

  -- A `.part` that is whole is published with no request.
  complete_part-Served :
      (w : World)
      → w.disk.part ≡ some artifact
      → Served artifact whole (complete_part digest ctx a (length artifact) w)
  unfolding complete_part sync_and_finalize await
  complete_part-Served w e =
      let matched : complete_part_matches digest ctx a.hashes w.disk.part ≡ some true =
        rw e (matches a.hashes serves.hashes) in
      let e' = await_digest-part w e in
      rw (matched, complete_part, e', serves.opens, serves.syncs, sync_and_finalize)
        (tick_done-Served (length artifact) ctx.expected_len _
          (publish_whole (await (await_digest ctx w)) e'))

  len_or_zero-stored : (p : Option Bytes) → len_or_zero a.readable p ≡ length (stored p)
  unfolding len_or_zero
  len_or_zero-stored none = refl
  len_or_zero-stored (some b) = rw serves.reads refl

  -- The `.part` is a part of the artifact, or all of it.
  check_part-Served :
      (rest : Bytes) (w : World)
      → 0 < length artifact
      → stored w.disk.part ++ rest ≡ artifact
      → Served artifact whole (check_part digest ctx a (length (stored w.disk.part)) w)
  unfolding check_part
  check_part-Served rest w nonempty h =
      let sizes : length (stored w.disk.part) + length rest ≡ length artifact =
        sym (length-append (stored w.disk.part) rest) ∙ ap length h in
      let below : ltb (length artifact) (length (stored w.disk.part)) ≡ false =
        ground (arith, sizes) in
      elim (Bool-cases (length (stored w.disk.part) == length artifact)) [
        | inr ne ↦
            rw (expected, below, ne, check_part)
              (fetch_rest-Served rest w h (ground (arith, ne, sizes)))
        | inl same ↦
            let n_eq : length (stored w.disk.part) ≡ length artifact = ground (arith, same) in
            let whole_part : w.disk.part ≡ some artifact =
              all_stored w.disk.part rest n_eq nonempty h in
            rw (expected, below, same, check_part, n_eq) (complete_part-Served w whole_part)
      ]

  pub download_attempt-Served :
      (w : World)
      → 0 < length artifact
      → IsBegun artifact w
      → Served artifact whole (download_attempt digest ctx a w)
  unfolding download_attempt tick
  download_attempt-Served w nonempty (rest, h) =
      if_false (Served artifact whole) a.cancelled_before _ serves.runs (
        rw (len_or_zero-stored w.disk.part) (
          check_part-Served rest (tick (length (stored w.disk.part)) ctx.expected_len false w)
            nonempty h))
