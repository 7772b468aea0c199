-- ===== src/Enrichment/Budget.antt =====
-- lens-core/src/enrichment/meta.rs: SessionBudget and Budget. The counters are u32: a job's saturate,
-- and the session's, which are atomics, wrap. One job runs at a time, so that the session is a field.
pub mod Caps
use lens_lm.Base.{ℕ, ◌+◌, ◌%◌, ◌^◌, min, ltb, if◌then◌else◌}

abbrev pub u32_max : ℕ
u32_max = 4294967295

unfoldable pub saturating_add : ℕ → ℕ → ℕ
saturating_add a b = min (a + b) u32_max

unfoldable pub fetch_add : ℕ → ℕ → ℕ
fetch_add a b = (a + b) % 2 ^ 32

pub record SessionBudget : Type 0 where
  pub tokens : ℕ
  pub calls : ℕ
  pub max_tokens : ℕ

pub record Budget : Type 0 where
  pub session : SessionBudget
  pub job_tokens : ℕ
  pub job_calls : ℕ
  pub max_tokens_per_job : ℕ
  pub max_calls_per_job : ℕ

abbrev pub enrichment_max_tokens_per_job : ℕ
enrichment_max_tokens_per_job = 50000

abbrev pub enrichment_max_tokens_per_session : ℕ
enrichment_max_tokens_per_session = 500000

abbrev pub enrichment_max_calls_per_job : ℕ
enrichment_max_calls_per_job = 8

unfoldable pub session_new : SessionBudget
session_new = record { tokens = 0; calls = 0; max_tokens = enrichment_max_tokens_per_session }

unfoldable pub with_caps : SessionBudget → ℕ → ℕ → Budget
with_caps session max_tokens_per_job max_calls_per_job = record {
  session = session;
  job_tokens = 0;
  job_calls = 0;
  max_tokens_per_job = max_tokens_per_job;
  max_calls_per_job = max_calls_per_job;
}

unfoldable pub budget_new : SessionBudget → Budget
unfolding with_caps
budget_new session = with_caps session enrichment_max_tokens_per_job enrichment_max_calls_per_job

pub data BudgetCheck : Type 0 where
  fits exceeded : BudgetCheck

unfoldable pub check_before_dispatch : Budget → ℕ → BudgetCheck
unfolding saturating_add
check_before_dispatch b projected_tokens =
    if ltb b.max_calls_per_job (saturating_add b.job_calls 1)
    then exceeded
    else if ltb b.max_tokens_per_job (saturating_add b.job_tokens projected_tokens)
    then exceeded
    else if ltb b.session.max_tokens (saturating_add b.session.tokens projected_tokens)
    then exceeded
    else fits

-- Budget::record.
unfoldable pub record_call : Budget → ℕ → Budget
unfolding saturating_add fetch_add
record_call b tokens_used = record b {
  job_calls = saturating_add b.job_calls 1;
  job_tokens = saturating_add b.job_tokens tokens_used;
  session = record b.session {
    tokens = fetch_add b.session.tokens tokens_used;
    calls = fetch_add b.session.calls 1;
  };
}
