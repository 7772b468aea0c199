-- ===== src/Chunk/Parent/Push.antt =====
-- flush_if and push_block: the state of the packing between two blocks.
use lens_lm.Base.{
  ℕ, ◌+◌, ◌≤◌, ◌≡◌, ◌≢◌, ◌∙◌, refl, sym, Bool, true, false, List, [], ◌∷◌, ◌++◌, append_assoc,
  append-nil, arith, some,
}
use lens_lm.Base.Outcome.{ok, ◌>>=◌}
use lens_lm.Base.Text.{Str, slice}
use lens_lm.Base.Text.Spans.{slice-Boundary}
use lens_lm.Chunk.Types.{Tokenizer, Block}
use lens_lm.Chunk.Ends.{Ends, Ends-bind}
use lens_lm.Chunk.Parent.{
  ParentWindow, Packing, parent_limit, is_empty, flush_parent_window, split_oversized_parent_block,
  flush_if, push_block,
}
use lens_lm.Chunk.Parent.Placed.{
  PlacedTo-append, TokenSum-append, content, content-append, window_content, WindowsTo-weaken,
}
use lens_lm.Chunk.Parent.Flush.{PackedAt, IsPacking, IsFlushed, flush-IsFlushed}
use lens_lm.Chunk.Parent.Oversized.{split_oversized_parent_block-IsFlushed}

module _ (tokenizer : Tokenizer) (src : Str) where
  -- A flush leaves nothing open; without it the state stays.
  abbrev pub After : Bool → Packing → Packing → Type 0
  After true p q = (q.current_blocks ≡ []) × (q.current_tokens ≡ 0)
  After false p q = q ≡ p

  pub flush_if-IsPacking :
      (hi : ℕ) (d : Str) (test : Bool) (ws : List ParentWindow) (cur : List Block) (cs ce toks : ℕ)
      → (test ≡ true → is_empty cur ≡ false)
      → PackedAt tokenizer src hi d ws cur cs ce toks
      → let p : Packing = record {
        windows = ws;
        current_blocks = cur;
        current_char_start = cs;
        current_char_end = ce;
        current_tokens = toks;
      } in
        Ends tokenizer (λ q. IsPacking tokenizer src hi d q × After test p q) (flush_if test src p)
  unfolding flush_if is_empty
  flush_if-IsPacking hi d false ws cur cs ce toks ne inv = (inv, refl)
  flush_if-IsPacking hi d true ws [] cs ce toks ne inv = absurd (true_ne_false (ne refl))
    where
      true_ne_false : true ≢ false
      true_ne_false h = cc
  flush_if-IsPacking hi d true ws (b ∷ r) cs ce toks ne inv =
      Ends-bind tokenizer (IsFlushed tokenizer src hi d) _
        (flush_parent_window src (b ∷ r) cs ce ws) _
        (flush-IsFlushed tokenizer src hi d ws b r cs ce toks inv)
        λ ws' _ (before, all). (
          (hi, before, omega arith, tt, refl, omega arith, append-nil (window_content ws') ∙ all),
          (refl, refl),
        )

  content_push :
      (ws : List ParentWindow) (cur : List Block) (b : Block) (d : Str)
      → window_content ws ++ content cur ≡ d
      → window_content ws ++ content (cur ++ b ∷ []) ≡ d ++ b.text
  content_push ws cur b d e =
      rw (content-append cur (b ∷ []), append-nil b.text, ← e)
        (sym (append_assoc (window_content ws) (content cur) b.text))

  pub push_block-IsPacking :
      (hi : ℕ) (d : Str) (b : Block) (n : ℕ) (ws : List ParentWindow) (cur : List Block)
      (cs ce toks : ℕ)
      → tokenizer.encode b.text ≡ some n
      → hi ≤ b.char_start
      → slice src b.char_start b.char_end ≡ some b.text
      → toks + n ≤ parent_limit
      → PackedAt tokenizer src hi d ws cur cs ce toks
      → IsPacking tokenizer src b.char_end (d ++ b.text) (
          push_block b n (record {
            windows = ws;
            current_blocks = cur;
            current_char_start = cs;
            current_char_end = ce;
            current_tokens = toks;
          }))
  unfolding push_block is_empty
  push_block-IsPacking hi d b n ws [] cs ce toks counted h sl small
        (mid, before, placed, open_at, toks_sum, _, all) =
      let (at_b, at_e, len) = slice-Boundary src _ _ _ sl in
      (
        mid,
        before,
        (omega arith, sl, omega arith),
        (refl, refl, at_e),
        TokenSum-append tokenizer [] b toks n toks_sum counted,
        small,
        content_push ws [] b d all,
      )
  push_block-IsPacking hi d b n ws (x ∷ r) cs ce toks counted h sl small
        (mid, before, placed, (cs_eq, ce_eq, at_hi), toks_sum, _, all) =
      let (at_b, at_e, len) = slice-Boundary src _ _ _ sl in
      (
        mid,
        before,
        PlacedTo-append src mid hi b.char_end (x ∷ r) (b ∷ []) placed (h, sl, omega arith),
        (cs_eq, refl, at_e),
        TokenSum-append tokenizer (x ∷ r) b toks n toks_sum counted,
        small,
        content_push ws (x ∷ r) b d all,
      )

  pub nothing_open :
      (hi : ℕ) (d : Str) (ws : List ParentWindow) (cur : List Block) (cs ce toks : ℕ)
      → cur ≡ []
      → PackedAt tokenizer src hi d ws cur cs ce toks
      → IsFlushed tokenizer src hi d ws
  nothing_open hi d ws [] cs ce toks e (mid, before, le, _, _, _, all) = (
    WindowsTo-weaken tokenizer src 0 mid hi ws before le,
    sym (append-nil (window_content ws)) ∙ all,
  )
  nothing_open hi d ws (b ∷ r) cs ce toks e inv = cc

  IsFlushed-open :
      (hi : ℕ) (d : Str) (ws : List ParentWindow) (cur : List Block) (cs ce toks : ℕ)
      → cur ≡ []
      → toks ≡ 0
      → IsFlushed tokenizer src hi d ws
      → PackedAt tokenizer src hi d ws cur cs ce toks
  IsFlushed-open hi d ws [] cs ce toks e z (before, all) =
      (hi, before, omega arith, tt, z, omega arith, append-nil (window_content ws) ∙ all)
  IsFlushed-open hi d ws (b ∷ r) cs ce toks e z flushed = cc

  pub pack_oversized-IsPacking :
      (hi : ℕ) (d : Str) (q : Packing) (b : Block)
      → IsPacking tokenizer src hi d q
      → q.current_blocks ≡ []
      → q.current_tokens ≡ 0
      → hi ≤ b.char_start
      → slice src b.char_start b.char_end ≡ some b.text
      → Ends tokenizer (IsPacking tokenizer src b.char_end (d ++ b.text)) (do
        windows ← split_oversized_parent_block src b tokenizer parent_limit q.windows
        ok (record q { windows = windows }))
  pack_oversized-IsPacking hi d q b inv none_open no_tokens h sl =
      Ends-bind tokenizer (IsFlushed tokenizer src b.char_end (d ++ b.text)) _
        (split_oversized_parent_block src b tokenizer parent_limit q.windows) _
        (split_oversized_parent_block-IsFlushed tokenizer src hi d q.windows b
          (nothing_open hi d q.windows q.current_blocks q.current_char_start q.current_char_end
            q.current_tokens none_open inv)
          h sl)
        λ ws' _ flushed.
          IsFlushed-open b.char_end (d ++ b.text) ws' q.current_blocks q.current_char_start
            q.current_char_end q.current_tokens none_open no_tokens flushed
