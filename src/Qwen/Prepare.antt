-- ===== src/Qwen/Prepare.antt =====
-- src-tauri/src/qwen/coordinator.rs: QwenPrepareCoordinator. Calls of run_single_flight interleave at
-- their awaits; each has a number, which also stands for its cancel token (`Arc::ptr_eq`). The
-- free-space probe, the size on disk and the end of run_prepare are what the steps choose.
pub mod SingleFlight
use lens_lm.Base.{
  ℕ, ◌+◌, ◌-◌, ◌^◌, ◌≡◌, min, Bool, true, false, Option, none, some, ltb, ◌==◌, if◌then◌else◌,
}
use lens_lm.Base.Outcome.{Outcome, ok, err, insufficient_space}

-- Where a call is. `checking` has the gate, `leaving` still has it and the slot is cleared; a call
-- that is dropped at an await leaves no result.
pub data Phase : Type 0 where
  idle waiting checking downloading : Phase
  leaving finished : Option (Outcome (Unit {0})) → Phase

-- The gate, the slot, the calls, the tokens, and whether the snapshot is on disk.
pub record Coordinator : Type 0 where
  pub gate : Option ℕ
  pub current : Option ℕ
  pub phase : ℕ → Phase
  pub is_cancelled : ℕ → Bool
  pub snapshot_present : Bool

abbrev pub coordinator_new : Bool → Coordinator
coordinator_new present = record {
  gate = none;
  current = none;
  phase = λ _. idle;
  is_cancelled = λ _. false;
  snapshot_present = present;
}

abbrev pub qwen_snapshot_approx_bytes : ℕ
qwen_snapshot_approx_bytes = 4500000000

abbrev pub put {ℓ} : {A : Type ℓ} → ℕ → A → (ℕ → A) → ℕ → A
put i a f j = if j == i then a else f j

-- saturating_sub, then saturating_add on u64.
unfoldable pub required_bytes : ℕ → ℕ → ℕ
required_bytes headroom on_disk =
    min (min (qwen_snapshot_approx_bytes - on_disk) (2 ^ 64 - 1) + headroom) (2 ^ 64 - 1)

-- A probe that fails does not stop the download.
unfoldable pub short_of_space : ℕ → Option ℕ → ℕ → Bool
unfolding required_bytes
short_of_space headroom none on_disk = false
short_of_space headroom (some available) on_disk = ltb available (required_bytes headroom on_disk)

unfoldable pub call : ℕ → Coordinator → Coordinator
call i s = record s { phase = put i waiting s.phase }

-- `self.gate.lock().await` returns.
unfoldable pub lock_gate : ℕ → Coordinator → Coordinator
lock_gate i s = record s { gate = some i; phase = put i checking s.phase }

-- From the second look at the disk to the start of run_prepare.
unfoldable pub check_disk : ℕ → Option ℕ → ℕ → ℕ → Coordinator → Coordinator
unfolding short_of_space
check_disk headroom available on_disk i s =
    if s.snapshot_present
    then record s { phase = put i (leaving (some (ok tt))) s.phase }
    else if short_of_space headroom available on_disk
    then record s { phase = put i (leaving (some (err insufficient_space))) s.phase }
    else record s { current = some i; phase = put i downloading s.phase }

-- `ClearGuard::drop`: only the owner's token is taken out of the slot.
unfoldable pub clear_guard_drop : ℕ → Option ℕ → Option ℕ
clear_guard_drop owner none = none
clear_guard_drop owner (some token) = if token == owner then none else some token

-- run_prepare ends, or its call is dropped: the guards drop, the slot's first.
unfoldable pub end_prepare : ℕ → Option (Outcome (Unit {0})) → Coordinator → Coordinator
unfolding clear_guard_drop
end_prepare i result s = record s {
  current = clear_guard_drop i s.current;
  phase = put i (leaving result) s.phase;
}

unfoldable pub unlock_gate : ℕ → Option (Outcome (Unit {0})) → Coordinator → Coordinator
unlock_gate i result s = record s { gate = none; phase = put i (finished result) s.phase }

unfoldable pub cancel : Coordinator → Coordinator × Bool
cancel s = elim s.current [
  | none ↦ (s, false)
  | some token ↦ (record s { is_cancelled = put token true s.is_cancelled }, true)
]

module _ (headroom : ℕ) where
  pub data Step : Coordinator → Coordinator → Type 0 where
    called : {s : Coordinator} (i : ℕ) → s.phase i ≡ idle → Step s (call i s)
    dropped :
        {s : Coordinator} (i : ℕ)
        → s.phase i ≡ waiting
        → Step s (record s { phase = put i (finished none) s.phase })
    locked :
        {s : Coordinator} (i : ℕ) → s.phase i ≡ waiting → s.gate ≡ none → Step s (lock_gate i s)
    checked :
        {s : Coordinator} (i : ℕ) (available : Option ℕ) (on_disk : ℕ)
        → s.phase i ≡ checking
        → Step s (check_disk headroom available on_disk i s)
    ended :
        {s : Coordinator} (i : ℕ) (result : Option (Outcome (Unit {0})))
        → s.phase i ≡ downloading
        → Step s (end_prepare i result s)
    unlocked :
        {s : Coordinator} (i : ℕ) (result : Option (Outcome (Unit {0})))
        → s.phase i ≡ leaving result
        → Step s (unlock_gate i result s)
    cancelled : {s : Coordinator} → Step s (cancel s).0
    -- The disk changes: a download is complete, or files are removed.
    disk : {s : Coordinator} (present : Bool) → Step s (record s { snapshot_present = present })

  pub data Reach : Coordinator → Type 0 where
    start : (present : Bool) → Reach (coordinator_new present)
    next : {s t : Coordinator} → Reach s → Step s t → Reach t
