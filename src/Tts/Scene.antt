-- ===== src/Tts/Scene.antt =====
-- lens-core/src/tts/chunk.rs: scene_chunks. A turn is any value, and usize sums are unbounded.
pub mod Partition
pub mod Fewest
use lens_lm.Base.{ℕ, ◌+◌, Bool, ◌&&◌, List, [], ◌∷◌, ◌++◌, ltb, if◌then◌else◌}
use lens_lm.Base.Outcome.{Outcome, ok, err, validation}

module _ {T : Type 0} (char_limit : ℕ) (sized_len : T → ℕ) where
  -- The loop at turn `i`: a range (start, end) for each chunk.
  unfoldable pub scene_loop : List T → ℕ → ℕ → ℕ → List (ℕ × ℕ) → Outcome (List (ℕ × ℕ))
  scene_loop [] i start acc chunks = ok (if ltb start i then chunks ++ (start, i) ∷ [] else chunks)
  scene_loop (turn ∷ r) i start acc chunks =
      let len = sized_len turn in
      let full = ltb start i && ltb char_limit (acc + len) in
      let rest =
        scene_loop r (i + 1) (if full then i else start) ((if full then 0 else acc) + len)
          (if full then chunks ++ (start, i) ∷ [] else chunks) in
      if ltb char_limit len then err validation else rest

unfoldable pub scene_chunks : {T : Type 0} → List T → ℕ → (T → ℕ) → Outcome (List (ℕ × ℕ))
unfolding scene_loop
scene_chunks turns char_limit sized_len = scene_loop char_limit sized_len turns 0 0 0 []
