-- ===== src/Prelude/Text.antt =====
-- Python's `str` as a list of code points, with the methods that the program calls.
pub mod Decimal
use Prim.Native.Nat.{ℕ, ◌+◌}
use Prim.Native.Char.{code}
use Prim.Native.String.{String}
use mathlib.Core.Path.{◌≡◌, refl}
use mathlib.Core.Logic.{◌↔◌}
use mathlib.Core.Bool.{Bool, true, false, ◌&&◌, ◌||◌}
use mathlib.Core.List.{List, [], ◌∷◌, ◌++◌, reverse}
use native.Mathlib.Omega.{arith}
use nf_safety_hub.Prelude.Tests.{ltb, leb, eqb, if◌then◌else◌}

abbrev pub Text : Type 0
Text = List ℕ

-- A literal of the source.
unfoldable pub str : String → Text
str String.[] = []
str (String.◌∷◌ c s) = code c ∷ str s

infix 50 ◌==◌
unfoldable pub ◌==◌ : Text → Text → Bool
[] == [] = true
[] == (y ∷ ys) = false
(x ∷ xs) == [] = false
(x ∷ xs) == (y ∷ ys) = eqb x y && xs == ys

pub eq→path : (s t : Text) → (s == t) ≡ true → s ≡ t
unfolding ◌==◌
eq→path [] [] h = refl
eq→path [] (y ∷ ys) h = cc
eq→path (x ∷ xs) [] h = cc
eq→path (x ∷ xs) (y ∷ ys) h = ground (arith, eq→path xs ys)

pub eq_refl : (s : Text) → (s == s) ≡ true
unfolding ◌==◌
eq_refl [] = refl
eq_refl (x ∷ xs) = ground (arith, eq_refl xs)

pub eq_iff : (s t : Text) → ((s == t) ≡ true) ↔ (s ≡ t)
eq_iff s t = (eq→path s t, λ e. rw e (eq_refl t))

-- `s in {a, b, …}`
unfoldable pub is_one_of : Text → List Text → Bool
is_one_of s [] = false
is_one_of s (t ∷ ts) = s == t || is_one_of s ts

-- `text.startswith(prefix)`
unfoldable pub starts_with : Text → Text → Bool
starts_with text [] = true
starts_with [] (p ∷ ps) = false
starts_with (c ∷ cs) (p ∷ ps) = eqb c p && starts_with cs ps

starts_with→append : (t p : Text) → starts_with t p ≡ true → (rest : Text) × (t ≡ p ++ rest)
unfolding starts_with
starts_with→append t [] h = (t, refl)
starts_with→append [] (p ∷ ps) h = cc
starts_with→append (c ∷ cs) (p ∷ ps) h =
    let (rest, e) = starts_with→append cs ps (ground arith) in (rest, ground arith)

starts_with-append : (p rest : Text) → starts_with (p ++ rest) p ≡ true
unfolding starts_with
starts_with-append [] rest = refl
starts_with-append (p ∷ ps) rest = ground (arith, starts_with-append ps rest)

pub starts_with_iff : (t p : Text) → (starts_with t p ≡ true) ↔ ((rest : Text) × (t ≡ p ++ rest))
starts_with_iff t p = (starts_with→append t p, λ h. rw h.1 (starts_with-append p h.0))

-- `str.lower` on Latin-1 text, which is what HTTP header fields are decoded to.
abbrev lower_code : ℕ → ℕ
lower_code c =
    if leb 65 c && leb c 90 || leb 192 c && leb c 222 && (ltb c 215 || ltb 215 c) then c + 32 else c

unfoldable pub lower : Text → Text
lower [] = []
lower (c ∷ cs) = lower_code c ∷ lower cs

-- `str.isspace` of one code point.
unfoldable pub is_space : ℕ → Bool
is_space c =
    leb 9 c && leb c 13
    || leb 28 c && leb c 32
    || eqb c 133
    || eqb c 160
    || eqb c 5760
    || leb 8192 c && leb c 8202
    || eqb c 8232
    || eqb c 8233
    || eqb c 8239
    || eqb c 8287
    || eqb c 12288

unfoldable pub lstrip : Text → Text
unfolding is_space
lstrip [] = []
lstrip (c ∷ cs) = let rest = lstrip cs in if is_space c then rest else c ∷ cs

-- `text.strip()`
unfoldable pub strip : Text → Text
unfolding lstrip
strip text = reverse (lstrip (reverse (lstrip text)))

pub record Split : Type 0 where
  pub before : Text
  pub separated : Bool
  pub after : Text

abbrev extend : ℕ → Split → Split
extend c p = record p { before = c ∷ p.before }

-- `text.partition(sep)` for a separator of one character; `separated` says whether it was found.
unfoldable pub partition : ℕ → Text → Split
partition sep [] = record { before = []; separated = false; after = [] }
partition sep (c ∷ cs) =
    let rest = partition sep cs in
    if eqb c sep then record { before = []; separated = true; after = cs } else extend c rest

-- `sep.join(parts)`
unfoldable pub join : Text → List Text → Text
join sep [] = []
join sep (p ∷ []) = p
join sep (p ∷ q ∷ ps) = p ++ (sep ++ join sep (q ∷ ps))
