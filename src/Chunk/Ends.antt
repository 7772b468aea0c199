-- ===== src/Chunk/Ends.antt =====
-- Total correctness of a call of the chunker: it does not panic, an `ok` has the property, and an
-- error is that of the tokenizer on some text.
use lens_lm.Base.{ℕ, ◌≤◌, ◌≡◌, ◌≢◌, refl, inl, inr, none, some, Option-cases}
use lens_lm.Base.Outcome.{Outcome, ok, err, panic, parse, LensError, ◌>>=◌}
use lens_lm.Base.Text.{Str, slice}
use lens_lm.Base.Text.Spans.{Boundary, slice_total}
use lens_lm.Chunk.Types.{Tokenizer, token_count, index}

abbrev pub Refuses : Tokenizer → LensError → Type 0
Refuses tokenizer e = (e ≡ parse) × ((t : Str) × (tokenizer.encode t ≡ none))

module _ (tokenizer : Tokenizer) where
  abbrev pub Ends {ℓ} : {A : Type ℓ} → (A → Type 0) → Outcome A → Type 0
  Ends P (ok a) = P a
  Ends P (err e) = Refuses tokenizer e
  Ends P panic = ⊥

  pub Ends-bind {ℓ κ} :
      {A : Type ℓ} {B : Type κ} (P : A → Type 0) (Q : B → Type 0) (m : Outcome A)
      (f : A → Outcome B)
      → Ends P m
      → ((a : A) → m ≡ ok a → P a → Ends Q (f a))
      → Ends Q (m >>= f)
  Ends-bind P Q (ok a) f h k = k a refl h
  Ends-bind P Q (err e) f h k = h
  Ends-bind P Q panic f h k = h

  pub Ends-map {ℓ} :
      {A : Type ℓ} (P Q : A → Type 0) (m : Outcome A)
      → Ends P m
      → ((a : A) → m ≡ ok a → P a → Q a)
      → Ends Q m
  Ends-map P Q (ok a) h k = k a refl h
  Ends-map P Q (err e) h k = h
  Ends-map P Q panic h k = h

  pub Ends-at {ℓ} :
      {A : Type ℓ} (P : A → Type 0) (m : Outcome A) (a : A) → Ends P m → m ≡ ok a → P a
  Ends-at P (ok b) a h e = rw (← ok_inj e) h
    where
      ok_inj : ok b ≡ ok a → b ≡ a
      ok_inj q = cc
  Ends-at P (err x) a h e = cc
  Ends-at P panic a h e = cc

  pub Ends-token_count :
      (t : Str) → Ends (λ n. tokenizer.encode t ≡ some n) (token_count tokenizer t)
  unfolding token_count
  Ends-token_count t = elim (Option-cases (tokenizer.encode t)) [
    | inl e ↦ rw (e, token_count) (refl, (t, e))
    | inr (n, e) ↦ rw (e, token_count)
  ]

  pub Ends-index :
      (s : Str) (i j : ℕ)
      → Boundary s i
      → Boundary s j
      → i ≤ j
      → Ends (λ t. slice s i j ≡ some t) (index s i j)
  unfolding index
  Ends-index s i j bi bj h = let (t, e) = slice_total s i j bi bj h in rw (e, index)

  -- With a tokenizer that never fails the call returns.
  pub Ends-returns {ℓ} :
      {A : Type ℓ} (P : A → Type 0) (m : Outcome A)
      → ((t : Str) → tokenizer.encode t ≢ none)
      → Ends P m
      → (a : A) × (m ≡ ok a) × P a
  Ends-returns P (ok a) total h = (a, refl, h)
  Ends-returns P (err e) total (_, (t, fails)) = absurd (total t fails)
  Ends-returns P panic total h = absurd h
