-- ===== src/Engine/Regex/Laws.antt =====
-- What `RegexScanner` of engine/rules_regex.py detects and hands to the masking of messages.
use nf_safety_hub.Prelude.{
  map_option, filter, In-filter, In-map, Bool, Option, none, some, List, [], ◌∷◌, In, here, there,
  ◌≡◌, ◌≢◌, refl,
}
use nf_safety_hub.Prelude.Text.{Text, str, eq_refl}
use nf_safety_hub.Proxy.Desensitize.{Pattern, Span}
use nf_safety_hub.Engine.Regex.{
  Rule, Compiled, compile_rule, compile_rules, last_match, get_last?, build_result, scan,
  desensitize_patterns, is_level, add,
}

In-add {ℓ} : {A : Type ℓ} {a : A} (o : Option A) (xs : List A) → In a xs → In a (add o xs)
In-add none xs i = i
In-add (some b) xs i = there i

In-compile_rules :
    (compile : Text → Bool → Option Pattern) (rule : Rule) (pattern : Pattern) (rules : List Rule)
    → In rule rules
    → compile_rule compile rule ≡ some pattern
    → In (pattern, rule) (compile_rules compile rules)
unfolding compile_rules
In-compile_rules compile rule pattern [] i e = elim i [ ]
In-compile_rules compile rule pattern (r ∷ rs) here e = rw (e, compile_rules) here
In-compile_rules compile rule pattern (r ∷ rs) (there i) e =
    In-add (map_option (λ p. (p, r)) (compile_rule compile r)) (compile_rules compile rs)
      (In-compile_rules compile rule pattern rs i e)

last_of_matches : (ms : List Span) → ms ≢ [] → (m : Span) × (get_last? ms ≡ some m) × In m ms
last_of_matches [] ne = absurd (ne refl)
last_of_matches (m ∷ []) ne = (m, refl, here)
last_of_matches (m ∷ n ∷ ms) ne =
    let (l, e, i) = last_of_matches (n ∷ ms) (λ h. cc) in (l, e, there i)

In-scan :
    (text : Text) (rule : Rule) (pattern : Pattern) (m : Span) (compiled : Compiled)
    → get_last? (pattern text) ≡ some m
    → In (pattern, rule) compiled
    → In (build_result rule text m) (scan compiled text)
unfolding scan
In-scan text rule pattern m [] last j = elim j [ ]
In-scan text rule pattern m (c ∷ cs) last here = rw (last, scan) here
In-scan text rule pattern m ((p, r) ∷ cs) last (there j) =
    In-add (map_option (build_result r text) (last_match p text)) (scan cs text)
      (In-scan text rule pattern m cs last j)

-- Every rule that is enabled and compiles has a result wherever its pattern matches: one for the
-- rule's last match, with the rule's level, which is "block" where it names none.
pub scan_lem :
    (compile : Text → Bool → Option Pattern) (rules : List Rule) (rule : Rule) (pattern : Pattern)
    (text : Text)
    → In rule rules
    → compile_rule compile rule ≡ some pattern
    → pattern text ≢ []
    → (m : Span) × In m (pattern text)
      × (get_last? (pattern text) ≡ some m)
      × In (build_result rule text m) (scan (compile_rules compile rules) text)
scan_lem compile rules rule pattern text i e ne =
    let (m, last, found) = last_of_matches (pattern text) ne in
    (
      m,
      found,
      last,
      In-scan text rule pattern m (compile_rules compile rules) last
          (In-compile_rules compile rule pattern rules i e),
    )

-- Where such a rule is one of level "desensitize", its pattern is among those that mask messages.
pub In-desensitize_patterns :
    (compile : Text → Bool → Option Pattern) (rules : List Rule) (rule : Rule) (pattern : Pattern)
    → In rule rules
    → compile_rule compile rule ≡ some pattern
    → rule.level ≡ some (str "desensitize")
    → In pattern (desensitize_patterns (compile_rules compile rules))
unfolding desensitize_patterns
In-desensitize_patterns compile rules rule pattern i e level =
    In-map (λ (c : Pattern × Rule). c.0)
      (filter (is_level (str "desensitize")) (compile_rules compile rules))
      (In-filter (is_level (str "desensitize")) (compile_rules compile rules)
        (In-compile_rules compile rule pattern rules i e) (rw level (eq_refl (str "desensitize"))))
