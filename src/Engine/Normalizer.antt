-- ===== src/Engine/Normalizer.antt =====
-- engine/normalizer.py: `TextNormalizer`. `urllib.parse.unquote`, `html.unescape` and NFKC are the
-- Python library's tables and enter as parameters; the rest is written out.
pub mod Clean
use nf_safety_hub.Prelude.{
  Bool, false, not, ◌&&◌, ◌||◌, ℕ, zero, suc, [], ◌∷◌, if◌then◌else◌, filter, is_empty, leb, eqb,
}
use nf_safety_hub.Prelude.Text.{Text, ◌==◌, strip, is_space}

unfoldable pub is_zero_width : ℕ → Bool
is_zero_width c = eqb c 0x200b || eqb c 0x200c || eqb c 0x200d || eqb c 0xfeff || eqb c 0x2060

-- `CONTROL_CHAR_PATTERN`
unfoldable pub is_control : ℕ → Bool
is_control c = leb c 8 || eqb c 11 || eqb c 12 || leb 14 c && leb c 31 || eqb c 127

-- `WHITESPACE_PATTERN.sub(" ", text)`: a run of white space becomes one space; `inside` says that
-- the run has begun.
unfoldable pub collapse_spaces : Bool → Text → Text
collapse_spaces inside [] = []
collapse_spaces inside (c ∷ cs) =
    let rest = collapse_spaces (is_space c) cs in
    if is_space c then (if inside then rest else 32 ∷ rest) else c ∷ rest

module _ (unquote unescape nfkc : Text → Text) where
  -- the loop of `_decode_repeatedly`, with the rounds that are left
  unfoldable pub decode_rounds : ℕ → Text → Text
  decode_rounds zero decoded = decoded
  decode_rounds (suc n) decoded =
      let more = decode_rounds n (unquote decoded) in
      if unquote decoded == decoded then decoded else more

  unfoldable pub decode_repeatedly : Text → Text
  unfolding decode_rounds
  decode_repeatedly = decode_rounds 2

  unfoldable pub normalize : Text → Text
  unfolding decode_repeatedly is_zero_width is_control collapse_spaces
  normalize text =
      if is_empty text
      then []
      else strip (
          collapse_spaces false (
            filter (λ c. not (is_control c))
              (filter (λ c. not (is_zero_width c)) (nfkc (unescape (decode_repeatedly text))))))
