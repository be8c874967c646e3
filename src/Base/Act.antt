-- ===== src/Base/Act.antt =====
-- An action of the operator: it reads the trace of the calls made so far, newest first, since the
-- answer of an outside system may depend on it, and returns its value with the longer trace.
use mathlib.Core.List.{List}

abbrev pub Act {ℓ} : Type ℓ → Type ℓ → Type ℓ
Act E A = List E → A × List E

module _ {ℓ} {E A : Type ℓ} where
  abbrev pub pure : A → Act E A
  pure a h = (a, h)

module _ {ℓ} {E A B : Type ℓ} where
  infixl 5 ◌>>=◌ ◌>>◌
  abbrev pub ◌>>=◌ : Act E A → (A → Act E B) → Act E B
  ◌>>=◌ m f h = let (a, h') = m h in f a h'

  abbrev pub ◌>>◌ : Act E A → Act E B → Act E B
  ◌>>◌ m n h = n (m h).1
