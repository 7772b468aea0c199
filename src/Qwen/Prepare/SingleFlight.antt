-- ===== src/Qwen/Prepare/SingleFlight.antt =====
-- At most one call downloads, and the slot holds its token and no other.
use lens_lm.Base.{◌↔◌}
use lens_lm.Base.{
  ℕ, ◌≡◌, refl, ap, Bool, true, false, Bool-cases, Option-cases, inl, inr, Option, none, some, ◌==◌,
  arith,
}
use lens_lm.Base.Outcome.{Outcome}
use lens_lm.Qwen.Prepare.{
  Phase, idle, waiting, checking, downloading, leaving, finished, Coordinator, put, short_of_space,
  call, lock_gate, check_disk, clear_guard_drop, end_prepare, unlock_gate, cancel, Step, called,
  dropped, locked, checked, ended, unlocked, cancelled, disk, Reach, start, next,
}

abbrev pub has_gate : Phase → Bool
has_gate idle = false
has_gate waiting = false
has_gate checking = true
has_gate downloading = true
has_gate (leaving r) = true
has_gate (finished r) = false

abbrev pub is_downloading : Phase → Bool
is_downloading idle = false
is_downloading waiting = false
is_downloading checking = false
is_downloading downloading = true
is_downloading (leaving r) = false
is_downloading (finished r) = false

-- A call `j` in phase `p`: behind the gate it is the one that has it, and the slot holds its token
-- exactly when it downloads.
abbrev pub At : Option ℕ → Option ℕ → Phase → ℕ → Type 0
At gate current p j =
    (has_gate p ≡ true → gate ≡ some j)
    × (is_downloading p ≡ true → current ≡ some j)
    × (current ≡ some j → is_downloading p ≡ true)

abbrev pub IsSingleFlight : Coordinator → Type 0
IsSingleFlight s = (j : ℕ) → At s.gate s.current (s.phase j) j

put-At :
    (gate current : Option ℕ) (i : ℕ) (p : Phase) (f : ℕ → Phase)
    → At gate current p i
    → ((j : ℕ) → (j == i) ≡ false → At gate current (f j) j)
    → (j : ℕ) → At gate current (put i p f j) j
put-At gate current i p f here others j = elim (Bool-cases (j == i)) [
  | inl e ↦ let same : j ≡ i = ground arith in rw (e, same) here
  | inr e ↦ rw e (others j e)
]

downloading-has_gate : (p : Phase) → is_downloading p ≡ true → has_gate p ≡ true
downloading-has_gate idle h = cc
downloading-has_gate waiting h = cc
downloading-has_gate checking h = cc
downloading-has_gate downloading h = refl
downloading-has_gate (leaving r) h = cc
downloading-has_gate (finished r) h = cc

-- A call behind the gate is alone: the others have no gate and no download.
alone :
    (s : Coordinator) (i : ℕ)
    → IsSingleFlight s
    → has_gate (s.phase i) ≡ true
    → (j : ℕ) → (j == i) ≡ false
    → (has_gate (s.phase j) ≡ false) × (is_downloading (s.phase j) ≡ false)
alone s i inv has j ne = elim (Bool-cases (has_gate (s.phase j))) [
  | inl e ↦ absurd (ground (arith, (inv j).0 e, (inv i).0 has))
  | inr e ↦ (
    e,
    elim (Bool-cases (is_downloading (s.phase j))) [
      | inl d ↦ absurd (ground (arith, downloading-has_gate (s.phase j) d))
      | inr d ↦ d
    ],
  )
]

not_current :
    (s : Coordinator) (i : ℕ) (p : Phase)
    → IsSingleFlight s
    → s.phase i ≡ p
    → is_downloading p ≡ false
    → s.current ≡ some i
    → ⊥
not_current s i p inv at not_down h = let down = (inv i).2 h in cc

-- The call that downloads owns the slot, which its end clears.
clear-owner :
    (s : Coordinator) (i : ℕ)
    → IsSingleFlight s
    → s.phase i ≡ downloading
    → clear_guard_drop i s.current ≡ none
unfolding clear_guard_drop
clear-owner s i inv at =
    let mine : s.current ≡ some i = (inv i).1 (ap is_downloading at) in ground (arith, mine)

leave-IsSingleFlight :
    (s : Coordinator) (i : ℕ) (r : Option (Outcome (Unit {0})))
    → IsSingleFlight s
    → s.phase i ≡ checking
    → IsSingleFlight (record s { phase = put i (leaving r) s.phase })
leave-IsSingleFlight s i r inv at =
    put-At s.gate s.current i (leaving r) s.phase
      (
        λ _. (inv i).0 (ap has_gate at),
        λ h. cc,
        λ h. absurd (not_current s i checking inv at refl h),
      )
      λ j _. inv j

check_disk-IsSingleFlight :
    (headroom : ℕ) (available : Option ℕ) (on_disk : ℕ) (s : Coordinator) (i : ℕ)
    → IsSingleFlight s
    → s.phase i ≡ checking
    → IsSingleFlight (check_disk headroom available on_disk i s)
unfolding check_disk
check_disk-IsSingleFlight headroom available on_disk s i inv at =
    elim (Bool-cases s.snapshot_present) [
      | inl e ↦ rw e (leave-IsSingleFlight s i _ inv at)
      | inr e ↦ elim (Bool-cases (short_of_space headroom available on_disk)) [
        | inl e' ↦ rw (e, e') (leave-IsSingleFlight s i _ inv at)
        | inr e' ↦
            rw (e, e')
              (put-At s.gate (some i) i downloading s.phase
                (λ _. (inv i).0 (ap has_gate at), λ _. refl, λ _. refl)
                λ j ne.
                  let (_, quiet) = alone s i inv (ap has_gate at) j ne in
                  ((inv j).0, λ h. cc, λ h. absurd (ground (arith, h, ne))))
      ]
    ]

cancel-gate : (s : Coordinator) → (cancel s).0.gate ≡ s.gate
unfolding cancel
cancel-gate s = ground arith

cancel-current : (s : Coordinator) → (cancel s).0.current ≡ s.current
unfolding cancel
cancel-current s = ground arith

cancel-phase : (s : Coordinator) → (cancel s).0.phase ≡ s.phase
unfolding cancel
cancel-phase s = ground arith

Step-IsSingleFlight :
    (headroom : ℕ) {s t : Coordinator} → Step headroom s t → IsSingleFlight s → IsSingleFlight t
unfolding call lock_gate end_prepare unlock_gate
Step-IsSingleFlight headroom (called {s = s} i at) inv =
    put-At s.gate s.current i waiting s.phase
      (λ h. cc, λ h. cc, λ h. absurd (not_current s i idle inv at refl h)) λ j _. inv j
Step-IsSingleFlight headroom (dropped {s = s} i at) inv =
    put-At s.gate s.current i (finished none) s.phase
      (λ h. cc, λ h. cc, λ h. absurd (not_current s i waiting inv at refl h)) λ j _. inv j
Step-IsSingleFlight headroom (locked {s = s} i at free) inv =
    put-At (some i) s.current i checking s.phase
      (λ _. refl, λ h. cc, λ h. absurd (not_current s i waiting inv at refl h))
      λ j ne. (λ h. let its = (inv j).0 h in cc, (inv j).1, (inv j).2)
Step-IsSingleFlight headroom (checked {s = s} i available on_disk at) inv =
    check_disk-IsSingleFlight headroom available on_disk s i inv at
Step-IsSingleFlight headroom (ended {s = s} i result at) inv = rw (clear-owner s i inv at) (
    put-At s.gate none i (leaving result) s.phase
      (λ _. (inv i).0 (ap has_gate at), λ h. cc, λ h. cc)
      λ j ne. let (_, quiet) = alone s i inv (ap has_gate at) j ne in ((inv j).0, λ h. cc, λ h. cc))
Step-IsSingleFlight headroom (unlocked {s = s} i result at) inv =
    put-At none s.current i (finished result) s.phase
      (λ h. cc, λ h. cc, λ h. absurd (not_current s i (leaving result) inv at refl h))
      λ j ne.
        let (quiet, _) = alone s i inv (ap has_gate at) j ne in (λ h. cc, (inv j).1, (inv j).2)
Step-IsSingleFlight headroom (cancelled {s = s}) inv =
    λ j. rw (cancel-gate s, cancel-current s, cancel-phase s) (inv j)
Step-IsSingleFlight headroom (disk {s = s} present) inv = inv

Reach-IsSingleFlight : (headroom : ℕ) {s : Coordinator} → Reach headroom s → IsSingleFlight s
Reach-IsSingleFlight headroom (start present) = λ j. (λ h. cc, λ h. cc, λ h. cc)
Reach-IsSingleFlight headroom (next reach step) =
    Step-IsSingleFlight headroom step (Reach-IsSingleFlight headroom reach)

-- However the calls interleave: two calls that download are one call, and a call that downloads has
-- the gate and its own token in the slot.
pub Reach-alone :
    (headroom : ℕ) (s : Coordinator) (i j : ℕ)
    → Reach headroom s
    → s.phase i ≡ downloading
    → s.phase j ≡ downloading
    → (i ≡ j) × (s.gate ≡ some i) × (s.current ≡ some i)
Reach-alone headroom s i j reach at_i at_j =
    let inv = Reach-IsSingleFlight headroom reach in
    let mine = (inv i).0 (ap has_gate at_i) in
    let its = (inv j).0 (ap has_gate at_j) in
    (ground (arith, mine, its), mine, (inv i).1 (ap is_downloading at_i))

downloading_of : (p : Phase) → is_downloading p ≡ true → p ≡ downloading
downloading_of idle h = cc
downloading_of waiting h = cc
downloading_of checking h = cc
downloading_of downloading h = refl
downloading_of (leaving r) h = cc
downloading_of (finished r) h = cc

-- However the calls interleave: `cancel` returns true exactly when some call downloads, whose token
-- is then cancelled.
pub Reach-cancel :
    (headroom : ℕ) (s : Coordinator)
    → Reach headroom s
    → ((cancel s).1 ≡ true)
      ↔ ((i : ℕ) × (s.phase i ≡ downloading) × ((cancel s).0.is_cancelled i ≡ true))
unfolding cancel
Reach-cancel headroom s reach =
    let inv = Reach-IsSingleFlight headroom reach in
    (
      λ h. elim (Option-cases s.current) [
        | inl e ↦ absurd (ground (arith, e, h))
        | inr (i, e) ↦ (i, downloading_of (s.phase i) ((inv i).2 e), ground (arith, e))
      ],
      λ (i, at, _). let mine = (inv i).1 (ap is_downloading at) in ground (arith, mine),
    )
