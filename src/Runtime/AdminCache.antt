-- ===== src/Runtime/AdminCache.antt =====
-- runtime/admin_cache.py: `AdminStatsCache`. The loader gives, at each time, a value that is not
-- `None`; the lock makes a call one step.
use nf_safety_hub.Prelude.{
  ℕ, ◌+◌, ◌≤◌, ◌<◌, Option, none, some, List, [], ◌∷◌, if◌then◌else◌, ltb, ◌≡◌, refl, arith, ◌⊎◌,
  inl, inr, Bool-cases,
}

pub record AdminStatsCache (T : Type 0) : Type 0 where
  pub ttl_seconds : ℕ
  pub expires_at : ℕ
  pub value : Option T

module _ {T : Type 0} where
  unfoldable pub new : ℕ → AdminStatsCache T
  new ttl_seconds = record { ttl_seconds = ttl_seconds; expires_at = 0; value = none }

  abbrev load : (ℕ → T) → ℕ → AdminStatsCache T → T × AdminStatsCache T
  load loader now c =
      (loader now, record c { value = some (loader now); expires_at = now + c.ttl_seconds })

  abbrev cached_or_load : (ℕ → T) → ℕ → AdminStatsCache T → Option T → T × AdminStatsCache T
  cached_or_load loader now c none = load loader now c
  cached_or_load loader now c (some v) = if ltb now c.expires_at then (v, c) else load loader now c

  unfoldable pub get_or_set : (ℕ → T) → ℕ → AdminStatsCache T → T × AdminStatsCache T
  get_or_set loader now c = cached_or_load loader now c c.value

  unfoldable pub clear : AdminStatsCache T → AdminStatsCache T
  clear c = record c { value = none; expires_at = 0 }

-- A call: `get_or_set` so many seconds after the one before, or `clear`.
pub data Call : Type 0 where
  gets : (seconds : ℕ) → Call
  clears : Call

module _ {T : Type 0} (loader : ℕ → T) where
  -- the time and the cache after the calls
  unfoldable pub run : List Call → ℕ → AdminStatsCache T → ℕ × AdminStatsCache T
  unfolding get_or_set clear
  run [] now c = (now, c)
  run (gets seconds ∷ calls) now c =
      run calls (now + seconds) (get_or_set loader (now + seconds) c).1
  run (clears ∷ calls) now c = run calls now (clear c)

  -- A cached value was loaded at some time up to now, and expires the set time after that.
  abbrev IsFresh : ℕ → ℕ → AdminStatsCache T → Type 0
  IsFresh ttl now c =
      (c.ttl_seconds ≡ ttl)
      × ((c.value ≡ none)
          ⊎ ((t : ℕ) × (c.value ≡ some (loader t)) × (t ≤ now) × (c.expires_at ≡ t + ttl)))

  -- The value was loaded just now, or less than the set time ago.
  abbrev pub IsRecent : ℕ → ℕ → T → Type 0
  IsRecent ttl now v = (t : ℕ) × (v ≡ loader t) × ((t ≡ now) ⊎ ((t ≤ now) × (now < t + ttl)))

  get-IsFresh :
      (ttl before now : ℕ) (c : AdminStatsCache T) (o : Option T)
      → c.value ≡ o
      → before ≤ now
      → IsFresh ttl before c
      → IsRecent ttl now (cached_or_load loader now c o).0
        × IsFresh ttl now (cached_or_load loader now c o).1
  get-IsFresh ttl before now c none e le (s, h) =
      ((now, refl, inl refl), (s, inr (now, refl, omega arith, rw s refl)))
  get-IsFresh ttl before now c (some v) e le (s, h) = elim (Bool-cases (ltb now c.expires_at)) [
    | inl f ↦ elim h [
      | inl n ↦ absurd (cc (n, e))
      | inr (t, w, past, x) ↦
          let lt : now < t + ttl = ground (arith, f, x) in
          rw f (
            (t, cc (e, w), inr (omega (arith, past, le), lt)),
            (s, inr (t, w, omega (arith, past, le), x)),
          )
    ]
    | inr f ↦ rw f ((now, refl, inl refl), (s, inr (now, refl, omega arith, rw s refl)))
  ]

  run-IsFresh :
      (ttl : ℕ) (calls : List Call) (now : ℕ) (c : AdminStatsCache T)
      → IsFresh ttl now c
      → IsFresh ttl (run calls now c).0 (run calls now c).1
  unfolding run
  run-IsFresh ttl [] now c h = h
  run-IsFresh ttl (gets seconds ∷ calls) now c h =
      run-IsFresh ttl calls (now + seconds) _
        (get-IsFresh ttl now (now + seconds) c c.value refl (omega arith) h).1
  run-IsFresh ttl (clears ∷ calls) now c h = run-IsFresh ttl calls now _ (h.0, inl refl)

  -- Whatever calls came before, and however much time passes between them, the value that is returned
  -- was loaded just now or less than the set time ago.
  pub get_or_set-IsRecent :
      (ttl : ℕ) (calls : List Call) (seconds : ℕ)
      → IsRecent ttl
          ((run calls 0 (new ttl)).0 + seconds)
          (get_or_set loader ((run calls 0 (new ttl)).0 + seconds) (run calls 0 (new ttl)).1).0
  unfolding get_or_set
  get_or_set-IsRecent ttl calls seconds =
      (get-IsFresh ttl (run calls 0 (new ttl)).0 ((run calls 0 (new ttl)).0 + seconds)
        (run calls 0 (new ttl)).1 _ refl (omega arith)
        (run-IsFresh ttl calls 0 (new ttl) (unfold new in (refl, inl refl)))).0
