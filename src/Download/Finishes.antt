-- ===== src/Download/Finishes.antt =====
-- A call whose attempts are answered by an honest server ends, resuming where each one broke off.
pub mod Attempts
pub mod Calls
use lens_lm.Base.{
  ℕ, zero, suc, ◌+◌, ◌-◌, ◌<◌, ◌≤◌, ◌≡◌, ◌≢◌, refl, sym, ◌∙◌, ap, ◌⊎◌, inl, inr, Bool, true, false,
  Bool-cases, Option, none, some, Option-cases, List, [], ◌∷◌, ◌++◌, append-nil, append_assoc, leb,
  ltb, ◌==◌, ◌&&◌, length, length-append, if◌then◌else◌, arith,
}
use lens_lm.Base.Text.{Str}
use lens_lm.Download.{
  Bytes, Disk, World, AttemptFailure, retryable, fatal, saturating_add_u64, len_or_zero, tick,
  await, set_part, eq_ignore_ascii_case,
}
use lens_lm.Download.Headers.{content_range, content_length_header}
use lens_lm.Download.Answers.{
  Round, cancel_seen, broken, chunk, Response, Answers, AttemptCtx, AttemptResult, succeeded,
  failed, append_part, finalize, sync_and_finalize, tick_done, sha256_file, complete_part_matches,
  mid_stream_space_error, preflight_space,
}
use lens_lm.Download.Attempt.{
  or_given, Flow, body_ended, stopped, space_error, stream_body, open_append, await_digest,
  publish_body, end_body, receive_body, resumed_at, partial_content, is_success, resume_body,
  restart_body, on_reply, send_request, fetch_rest, complete_part, check_part, download_attempt,
}
use lens_lm.Download.Kept.{stored}

module _ (ctx : AttemptCtx) (size : ℕ) where
  -- A body that gives `rest` in any chunks: to its end, or with `whole` false a part of it, broken
  -- off. The disk takes each chunk, and holds the space that is checked for,
  -- `size` being the length of the artifact.
  abbrev pub Delivers : Bool → Bytes → List Round → Type 0
  Delivers whole rest [] = (whole ≡ true) × (rest ≡ [])
  Delivers whole rest (broken ∷ r) = whole ≡ false
  Delivers whole rest (cancel_seen ∷ r) = ⊥
  Delivers whole rest (chunk b (some e) free ∷ r) = ⊥
  Delivers whole rest (chunk b none free ∷ r) =
      ((n : ℕ) → mid_stream_space_error ctx free (some size) n ≡ none)
      × ((rest' : Bytes) × (b ++ rest' ≡ rest) × Delivers whole rest' r)

  -- The reply to a request for the bytes from `start` on, which are `rest`.
  abbrev pub Honest : Bool → ℕ → Bytes → Response → Type 0
  Honest whole start rest r =
      (((r.status ≡ 206) × (resumed_at (content_range r.headers) start ≡ true))
        ⊎ ((start ≡ 0)
            × (r.status ≢ 206)
            × (r.status ≢ 416)
            × (is_success r.status ≡ true)
            × (or_given (content_length_header r.headers) ctx.expected_len ≡ some size)))
      × Delivers whole rest r.rounds

module _ (ctx : AttemptCtx) where
  -- The answers to an attempt in which nothing fails but, with `whole` false, the connection.
  pub record Serves (artifact : Bytes) (whole : Bool) (a : Answers) : Type 0 where
    pub runs : a.cancelled_before ≡ false
    pub reads : a.readable ≡ true
    pub hashes : a.hashes ≡ true
    pub room : (n : ℕ) → preflight_space ctx a.free n ≡ none
    pub opens : a.open_error ≡ none
    pub flushes : a.flush_error ≡ none
    pub syncs : a.sync_error ≡ none
    pub hashes_body : a.hashes_body ≡ true
    pub renames : a.renames ≡ true
    pub sleeps : a.cancelled_asleep ≡ false
    pub replies :
        (done rest : Bytes)
        → done ++ rest ≡ artifact
        → 0 < length rest
        → (r : Response) × (a.reply (if ltb 0 (length done) then some (length done) else none)
            ≡ some r)
          × Honest ctx (length artifact) whole (length done) rest r

module _ (artifact : Bytes) where
  -- The `.part` holds the first bytes of the artifact, and the finished file is untouched.
  abbrev pub IsBegun : World → Type 0
  IsBegun w = (rest : Bytes) × (stored w.disk.part ++ rest ≡ artifact)

  abbrev pub Served : Bool → AttemptResult × World → Type 0
  Served whole (succeeded, w) = w.disk ≡ record { part = none; dest = some artifact }
  Served whole (failed (retryable e), w) = (whole ≡ false) × IsBegun w
  Served whole (failed (fatal e), w) = ⊥

  abbrev Flowed : Bool → Flow × World → Type 0
  Flowed whole (body_ended n, w) = w.disk.part ≡ some artifact
  Flowed whole (stopped (retryable e), w) = (whole ≡ false) × IsBegun w
  Flowed whole (stopped (fatal e), w) = ⊥

  append_part-some :
      (b c : Bytes) (w : World) → w.disk.part ≡ some b → (append_part c w).disk.part ≡ some (b ++ c)
  unfolding append_part set_part
  append_part-some b c w e = rw (e, append_part) refl

  pub stream_body-Flowed :
      (ctx : AttemptCtx) (whole : Bool) (size : ℕ) (r : List Round) (n since : ℕ) (b rest : Bytes)
      (w : World)
      → w.disk.part ≡ some b
      → b ++ rest ≡ artifact
      → Delivers ctx size whole rest r
      → Flowed whole (stream_body ctx (some size) r n since w)
  unfolding stream_body await tick
  stream_body-Flowed ctx whole size [] n since b rest w e h (all, at_end) =
      e ∙ ap some (sym (append-nil b) ∙ (rw at_end at h))
  stream_body-Flowed ctx whole size (cancel_seen ∷ r) n since b rest w e h d = absurd d
  stream_body-Flowed ctx whole size (broken ∷ r) n since b rest w e h d = (d, (rest, rw e h))
  stream_body-Flowed ctx whole size (chunk c (some x) free ∷ r) n since b rest w e h d = absurd d
  stream_body-Flowed ctx whole size (chunk c none free ∷ r) n since b rest w e h
        (room, (rest', split, d)) =
      let n' = saturating_add_u64 n (length c) in
      let since' = saturating_add_u64 since (length c) in
      let w' = tick n' (some size) false (append_part c (await w)) in
      let roomy : space_error ctx free (some size) n' since' ≡ none =
        unfold space_error in ground (arith, room n') in
      rw (roomy, stream_body)
        (stream_body-Flowed ctx whole size r n'
          (if leb ctx.policy.check_interval since' then 0 else since') (b ++ c) rest' w'
          (append_part-some b c (await w) e)
          (append_assoc b c rest' ∙ ap (λ (x : Bytes). b ++ x) split ∙ h) d)
