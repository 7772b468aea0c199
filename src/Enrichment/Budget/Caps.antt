-- ===== src/Enrichment/Budget/Caps.antt =====
-- A call that passes the check keeps the caps, but for what a reply uses over its projection.
use lens_lm.Base.{ℕ, suc, ◌+◌, ◌≤◌, ◌<◌, ◌≡◌, arith}
use lens_lm.Enrichment.Budget.{
  Budget, u32_max, fits, saturating_add, fetch_add, check_before_dispatch, record_call,
}

-- The caps hold with `slack` tokens to spare, and with it they are u32 numbers.
abbrev pub Within : ℕ → Budget → Type 0
Within slack b =
    (b.job_calls ≤ b.max_calls_per_job)
    × (b.job_tokens ≤ b.max_tokens_per_job + slack)
    × (b.session.tokens ≤ b.session.max_tokens + slack)
    × (b.max_calls_per_job < u32_max)
    × (b.max_tokens_per_job + slack < u32_max)
    × (b.session.max_tokens + slack < u32_max)

-- From the budget `b0` on, `calls` calls were recorded, whose replies used `tokens` tokens.
abbrev pub Recorded : Budget → Budget → ℕ → ℕ → Type 0
Recorded b0 b calls tokens =
    (b.max_calls_per_job ≡ b0.max_calls_per_job)
    × (b.max_tokens_per_job ≡ b0.max_tokens_per_job)
    × (b.session.max_tokens ≡ b0.session.max_tokens)
    × (b.job_calls ≡ b0.job_calls + calls)
    × (b.job_tokens ≡ b0.job_tokens + tokens)
    × (b.session.tokens ≡ b0.session.tokens + tokens)

pub record_call-Within :
    (slack projected used : ℕ) (b : Budget)
    → Within slack b
    → check_before_dispatch b projected ≡ fits
    → used ≤ projected + slack
    → Within slack (record_call b used)
unfolding check_before_dispatch record_call saturating_add fetch_add
record_call-Within slack projected used b w e h = grind (arith, e, h, w)

pub record_call-Recorded :
    (slack projected used : ℕ) (b0 b : Budget) (calls tokens : ℕ)
    → Within slack b
    → check_before_dispatch b projected ≡ fits
    → used ≤ projected + slack
    → Recorded b0 b calls tokens
    → Recorded b0 (record_call b used) (suc calls) (tokens + used)
unfolding check_before_dispatch record_call saturating_add fetch_add
record_call-Recorded slack projected used b0 b calls tokens w e h r = grind (arith, e, h, w, r)

-- There is room for a call that is allowed.
pub check-room :
    (slack projected : ℕ) (b : Budget)
    → Within slack b
    → check_before_dispatch b projected ≡ fits
    → b.job_calls + 1 ≤ b.max_calls_per_job
unfolding check_before_dispatch saturating_add
check-room slack projected b w e = grind (arith, e, w)
