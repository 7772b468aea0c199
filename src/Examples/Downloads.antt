-- ===== src/Examples/Downloads.antt =====
-- Downloads that break off, resume and are refused. The digest of a file is the file itself here.
use lens_lm.Base.{
  ℕ, ◌<◌, ◌≡◌, refl, sym, inl, inr, true, false, Option, none, some, List, [], ◌∷◌, ◌++◌, length,
  length-append, ap, ltb, if◌then◌else◌, arith,
}
use lens_lm.Base.Text.{Str, codes, str_eq, is_whitespace}
use lens_lm.Base.Outcome.{ok}
use lens_lm.Download.{Bytes, Disk, default_policy, eq_ignore_ascii_case}
use lens_lm.Citation.Markers.{parse_part, all_digits, is_digit, value, trim, trim_start}
use lens_lm.Download.Headers.{
  Headers, content_length_header, content_range, range_text, range_numbers, split_once,
  strip_prefix, trim_separator, before_dash, parse_u64,
}
use lens_lm.Download.Headers.Reads.{IsNumber, content_range-range_header, with_range, range_header}
use lens_lm.Download.Answers.{
  Round, chunk, broken, Response, Answers, AttemptCtx, preflight_space, mid_stream_space_error,
}
use lens_lm.Download.Attempt.{is_success, resumed_at, or_given, download_attempt}
use lens_lm.Download.Call.{
  CallAnswers, attempt_ctx, expected_length, new_world, download_verified_with,
}
use lens_lm.Download.Published.Calls.{Published, download_verified_with-Published}
use lens_lm.Download.Kept.Reasons.{KeptBytes, download_attempt-KeptBytes}
use lens_lm.Download.Finishes.{Honest, Serves}
use lens_lm.Download.Finishes.Calls.{download_verified_with-Served}

abbrev artifact : Bytes
artifact = 7 ∷ 8 ∷ []

abbrev digest : Bytes → Str
digest b = b

abbrev no_headers : Headers
no_headers = record { content_length = none; content_range = none }

-- A HEAD reply that tells the length 2.
abbrev head_reply : Response
head_reply = record {
  status = 200;
  headers = record { content_length = some (codes "2"); content_range = none };
  rounds = [];
}

-- The body from the start and from the byte 1 on, and what stands behind the chunk.
abbrev body_reply : Option ℕ → List Round → List Round → Option Response
body_reply none first second = some (record { status = 200; headers = no_headers; rounds = first })
body_reply (some k) first second =
    some (record { status = 206; headers = with_range (codes "bytes 1-1/2"); rounds = second })

abbrev answers : List Round → List Round → Answers
answers first second = record {
  cancelled_before = false;
  readable = true;
  removes_stale = true;
  removes = true;
  hashes = true;
  hashes_rejected = true;
  free = none;
  reply = λ (start : Option ℕ). body_reply start first second;
  open_error = none;
  flush_error = none;
  sync_error = none;
  hashes_body = true;
  renames = true;
  cancelled_asleep = false;
}

abbrev cut_answers : Answers
cut_answers = answers (chunk (7 ∷ []) none none ∷ broken ∷ []) (broken ∷ [])

abbrev whole_answers : Answers
whole_answers =
    answers (chunk (7 ∷ []) none none ∷ chunk (8 ∷ []) none none ∷ [])
      (chunk (8 ∷ []) none none ∷ [])

abbrev call_answers : CallAnswers
call_answers = record {
  builds_client = true;
  head = some head_reply;
  creates_dir = true;
  part_readable = true;
  queued = λ (d : Disk). d;
  attempts = λ (n : ℕ). if ltb n 2 then cut_answers else whole_answers;
}

abbrev empty_disk : Disk
empty_disk = record { part = none; dest = none }

abbrev example_ctx : AttemptCtx
example_ctx = attempt_ctx (some artifact) default_policy (some 2)

head_length : expected_length (some head_reply) ≡ some 2
unfolding expected_length is_success content_length_header parse_u64 parse_part all_digits is_digit
    value
head_length = refl

genuine : eq_ignore_ascii_case (digest artifact) artifact ≡ true
unfolding eq_ignore_ascii_case str_eq
genuine = refl

resumes : resumed_at (content_range (with_range (codes "bytes 1-1/2"))) 1 ≡ true
unfolding resumed_at content_range range_text range_numbers split_once strip_prefix trim_separator
    before_dash parse_u64 parse_part all_digits is_digit value trim trim_start is_whitespace
resumes = refl

cut_replies :
    (done rest : Bytes)
    → done ++ rest ≡ artifact
    → 0 < length rest
    → (r : Response) × (cut_answers.reply (if ltb 0 (length done) then some (length done) else none)
        ≡ some r)
      × Honest example_ctx 2 false (length done) rest r
unfolding is_success or_given content_length_header mid_stream_space_error
cut_replies [] rest h left = (
  _,
  refl,
  (inr (refl, omega arith, omega arith, refl, refl), ((λ (n : ℕ). refl), (8 ∷ [], sym h, refl))),
)
cut_replies (a ∷ []) rest h left = (_, refl, (inl (refl, resumes), refl))
cut_replies (a ∷ b ∷ done) rest h left =
    absurd (omega (arith, length-append done rest, ap length h))

whole_replies :
    (done rest : Bytes)
    → done ++ rest ≡ artifact
    → 0 < length rest
    → (r : Response) × (whole_answers.reply
          (if ltb 0 (length done) then some (length done) else none)
        ≡ some r)
      × Honest example_ctx 2 true (length done) rest r
unfolding is_success or_given content_length_header mid_stream_space_error
whole_replies [] rest h left = (
  _,
  refl,
  (
    inr (refl, omega arith, omega arith, refl, refl),
    ((λ (n : ℕ). refl), (8 ∷ [], sym h, ((λ (n : ℕ). refl), ([], refl, (refl, refl))))),
  ),
)
whole_replies (a ∷ []) rest h left =
    let tail : 8 ∷ [] ≡ rest = cc in
    (_, refl, (inl (refl, resumes), ((λ (n : ℕ). refl), ([], tail, (refl, refl)))))
whole_replies (a ∷ b ∷ done) rest h left =
    absurd (omega (arith, length-append done rest, ap length h))

cut_answers-Serves : Serves example_ctx artifact false cut_answers
unfolding preflight_space
cut_answers-Serves = record {
  runs = refl;
  reads = refl;
  hashes = refl;
  room = λ (n : ℕ). refl;
  opens = refl;
  flushes = refl;
  syncs = refl;
  hashes_body = refl;
  renames = refl;
  sleeps = refl;
  replies = cut_replies;
}

whole_answers-Serves : Serves example_ctx artifact true whole_answers
unfolding preflight_space
whole_answers-Serves = record {
  runs = refl;
  reads = refl;
  hashes = refl;
  room = λ (n : ℕ). refl;
  opens = refl;
  flushes = refl;
  syncs = refl;
  hashes_body = refl;
  renames = refl;
  sleeps = refl;
  replies = whole_replies;
}

-- The first attempt breaks off behind a byte, and the second one fetches the other.
download_verified_with-Served_example :
    download_verified_with digest (some artifact) default_policy call_answers none empty_disk
    ≡ (ok tt, record { part = none; dest = some artifact })
download_verified_with-Served_example =
    download_verified_with-Served digest artifact artifact default_policy call_answers empty_disk 1
      genuine (omega arith) refl refl head_length refl refl (artifact, refl) (omega arith)
      (cut_answers-Serves, whole_answers-Serves)

-- The call is dropped at its fourth await.
download_verified_with-Published_example :
    Published digest (some artifact) call_answers empty_disk (
      download_verified_with digest (some artifact) default_policy call_answers (some 4) empty_disk)
download_verified_with-Published_example =
    download_verified_with-Published digest (some artifact) call_answers empty_disk default_policy
      (some 4)

download_attempt-KeptBytes_example :
    KeptBytes digest example_ctx cut_answers
      (new_world empty_disk)
      (download_attempt digest example_ctx cut_answers (new_world empty_disk))
download_attempt-KeptBytes_example =
    download_attempt-KeptBytes digest example_ctx cut_answers (new_world empty_disk)

hundred : IsNumber (codes "100")
unfolding all_digits is_digit value
hundred = (ground arith, refl, omega arith)

five_thousand : IsNumber (codes "5000")
unfolding all_digits is_digit value
five_thousand = (ground arith, refl, omega arith)

-- The equals sign is the one of a server that does not conform.
content_range-range_header_example :
    content_range (with_range (range_header (codes "=") (codes "100") (codes "199") (codes "5000")))
    ≡ some (value 0 (codes "100"), value 0 (codes "5000"))
content_range-range_header_example =
    content_range-range_header (codes "=") (codes "100") (codes "199") (codes "5000") (inl refl, tt)
      hundred (omega arith, (omega arith, (omega arith, tt))) five_thousand
