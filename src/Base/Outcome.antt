-- ===== src/Base/Outcome.antt =====
-- What a Rust call ends in: `Ok`, an `Err` with a `LensError` (lens-core/src/error.rs), or a panic,
-- such as that of a slice at an index that is no char boundary. Messages are not modelled.

pub data LensError : Type 0 where
  validation internal io parse model network vector unsupported_media_codec : LensError
  media_decode_failed empty_audio transcription cancelled tts reindexing : LensError
  insufficient_space integrity_check_failed : LensError

pub data Outcome {ℓ} (A : Type ℓ) : Type ℓ where
  ok : A → Outcome A
  err : LensError → Outcome A
  panic : Outcome A

infixl 5 ◌>>=◌
abbrev pub ◌>>=◌ {ℓ κ} : {A : Type ℓ} {B : Type κ} → Outcome A → (A → Outcome B) → Outcome B
ok a >>= f = f a
err e >>= f = err e
panic >>= f = panic
