-- ===== src/Examples/Scenes.antt =====
-- Runs of the scene chunks, the batches and the prepare coordinator.
use lens_lm.Base.{ℕ, ◌≤◌, ◌≡◌, ◌↔◌, refl, true, false, none, some, List, [], ◌∷◌, map, arith}
use lens_lm.Base.Outcome.{ok}
use lens_lm.Batching.{batch_by_char_budget}
use lens_lm.Batching.Packs
use lens_lm.Batching.Packs.{batch_by_char_budget-IsPacked}
use lens_lm.Qwen.Prepare.{
  Coordinator, coordinator_new, downloading, call, lock_gate, check_disk, short_of_space, cancel,
  called, locked, checked, Reach, start, next,
}
use lens_lm.Qwen.Prepare.SingleFlight.{Reach-alone, Reach-cancel}
use lens_lm.Tts.Scene.{scene_chunks}
use lens_lm.Tts.Scene.Partition.{Partition, scene_chunks-Partition, scene_chunks-fewest}

abbrev turns : List ℕ
turns = 4 ∷ 5 ∷ 3 ∷ []

scene_chunks-Partition_example :
    (rs : List (ℕ × ℕ)) × (scene_chunks turns 9 (λ n. n) ≡ ok rs)
    × Partition 9 0 (map (λ n. n) turns) rs
scene_chunks-Partition_example =
    scene_chunks-Partition 9 (λ n. n) turns (omega arith, (omega arith, (omega arith, tt)))

scene_chunks-fewest_example : 2 ≤ 3
unfolding scene_chunks
scene_chunks-fewest_example =
    scene_chunks-fewest 9 (λ n. n) turns ((0, 2) ∷ (2, 3) ∷ [])
      ((4 ∷ []) ∷ (5 ∷ []) ∷ (3 ∷ []) ∷ []) (omega arith, (omega arith, (omega arith, tt))) refl
      refl (omega arith, (omega arith, (omega arith, tt)))

abbrev lens : List ℕ
lens = 3 ∷ 4 ∷ 9 ∷ []

batch_by_char_budget-IsPacked_example :
    let batches : List (List ℕ) = batch_by_char_budget 10 1 (λ n. n) lens in
    (Packs.concat batches ≡ lens) × Packs.IsPacked 10 1 (λ n. n) batches
batch_by_char_budget-IsPacked_example = batch_by_char_budget-IsPacked 10 1 (λ n. n) lens

-- Two calls: the second waits while the first downloads.
abbrev one_downloads : Coordinator
one_downloads = check_disk 9 none 0 0 (lock_gate 0 (call 1 (call 0 (coordinator_new false))))

one_downloads-Reach : Reach 9 one_downloads
unfolding call lock_gate
one_downloads-Reach =
    next (next (next (next (start false) (called 0 refl)) (called 1 refl)) (locked 0 refl refl))
      (checked 0 none 0 refl)

Reach-alone_example :
    (◌≡◌ {A = ℕ} 0 0) × (one_downloads.gate ≡ some 0) × (one_downloads.current ≡ some 0)
unfolding check_disk call lock_gate short_of_space
Reach-alone_example = Reach-alone 9 one_downloads 0 0 one_downloads-Reach refl refl

Reach-cancel_example : ((cancel one_downloads).1 ≡ true) ↔ (
    (i : ℕ) × (one_downloads.phase i ≡ downloading)
    × ((cancel one_downloads).0.is_cancelled i ≡ true))
Reach-cancel_example = Reach-cancel 9 one_downloads one_downloads-Reach
