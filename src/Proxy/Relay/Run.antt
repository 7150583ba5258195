-- ===== src/Proxy/Relay/Run.antt =====
-- Handlers of proxy/relay.py as programs: a result or an exception, and the events on the way.
use nf_safety_hub.Prelude.{
  ℕ, Bool, true, false, if◌then◌else◌, List, [], ◌++◌, All, All-append, ◌≡◌, refl,
}

pub data Outcome {ℓ} (A : Type ℓ) : Type ℓ where
  ok : A → Outcome A
  raised : ℕ → Outcome A

abbrev pub Run : Type 0 → Type 0 → Type 0
Run E A = List E × Outcome A

module _ {E A : Type 0} where
  unfoldable pub pure : A → Run E A
  pure a = ([], ok a)

  unfoldable pub lift : Outcome A → Run E A
  lift r = ([], r)

  unfoldable pub emit : List E → A → Run E A
  emit es a = (es, ok a)

module _ {E A B : Type 0} where
  abbrev after : List E → Outcome A → (A → Run E B) → Run E B
  after es (raised n) f = (es, raised n)
  after es (ok a) f = let (fs, r) = f a in (es ++ fs, r)

  infixl 5 ◌>>=◌ ◌>>◌
  -- opening this opens `pure`, `lift` and `emit` too
  unfoldable pub ◌>>=◌ : Run E A → (A → Run E B) → Run E B
  unfolding pure lift emit
  ◌>>=◌ m f = let (es, r) = m in after es r f

  abbrev pub ◌>>◌ : Run E A → Run E B → Run E B
  m >> n = m >>= λ _. n

module _ {E A B : Type 0} (P : E → Type 0) where
  All-after :
      (es : List E) (r : Outcome A) (f : A → Run E B)
      → All P es
      → ((a : A) → r ≡ ok a → All P (f a).0)
      → All P (after es r f).0
  All-after es (raised n) f h k = h
  All-after es (ok a) f h k = All-append P es (f a).0 h (k a refl)

  -- What holds of the events of both parts holds of those of the whole.
  pub All-bind :
      (m : Run E A) (f : A → Run E B)
      → All P m.0
      → ((a : A) → m.1 ≡ ok a → All P (f a).0)
      → All P (m >>= f).0
  unfolding ◌>>=◌
  All-bind m f h k = let (es, r) = m in All-after es r f h k

module _ {E A : Type 0} (P : E → Type 0) where
  pub All-if_run : (b : Bool) (m n : Run E A) → All P m.0 → All P n.0 → All P (if b then m else n).0
  All-if_run true m n hm hn = hm
  All-if_run false m n hm hn = hn

module _ {E : Type 0} (P : E → Type 0) where
  pub All-if : (b : Bool) (xs ys : List E) → All P xs → All P ys → All P (if b then xs else ys)
  All-if true xs ys hx hy = hx
  All-if false xs ys hx hy = hy
