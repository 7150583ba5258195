-- ===== src/Engine/Keyword/Detection.antt =====
-- What `KeywordScanner.scan` of engine/rules_keyword.py detects.
use nf_safety_hub.Prelude.{
  map_option, ℕ, ◌+◌, ◌≤◌, Bool, true, Option, none, some, List, [], ◌∷◌, ◌++◌, length,
  length-append, drop, drop-append_self, any, any-append, filter, In, In-filter, here, there,
  get_or_else, ◌≡◌, ◌≢◌, refl, ap, arith, inl, inr,
}
use nf_safety_hub.Prelude.Text.{Text, str, eq_refl, starts_with, starts_with_iff}
use nf_safety_hub.Engine.Results.{ScannerResult, blocked}
use nf_safety_hub.Engine.Keyword.{
  Rule, match_position, build_result, add_result, fold_case, scan_keywords, scan_rule, scan_rules,
  scan,
}
use nf_safety_hub.Engine.Keyword.Match.{IsAbsent, match_position_contains}

-- The keyword stands somewhere in the text.
pub record Occurs (keyword text : Text) : Type 0 where
  pub before : Text
  pub after : Text
  pub split : text ≡ before ++ (keyword ++ after)

found_of_Occurs :
    (keyword text : Text)
    → keyword ≢ []
    → Occurs keyword text
    → (p : ℕ × ℕ) × (match_position text keyword (str "contains") ≡ some p)
found_of_Occurs keyword text ne o = elim (match_position_contains text keyword ne) [
  | inl (_, absent) ↦ absurd (contradiction absent)
  | inr (i, found, _) ↦ ((i, i + length keyword), found)
]
  where
    contradiction : IsAbsent text keyword → ⊥
    contradiction absent =
        let there_ : starts_with (drop (length o.before) text) keyword ≡ true = rw o.split (
          rw (drop-append_self o.before (keyword ++ o.after))
            ((starts_with_iff (keyword ++ o.after) keyword).1 (o.after, refl))) in
        let bound : length o.before ≤ length text =
          omega (arith, ap (λ t. length t) o.split, length-append o.before (keyword ++ o.after)) in
        cc (there_, absent (length o.before) bound)

blocked-build_result :
    (rule : Rule) (keyword : Text) (position : ℕ × ℕ)
    → get_or_else rule.level (str "block") ≡ str "block"
    → blocked (build_result rule keyword position) ≡ true
unfolding blocked build_result
blocked-build_result rule keyword position h = rw h (eq_refl (str "block"))

add_result-blocked :
    (stop : Bool) (r : ScannerResult) (more : List ScannerResult)
    → blocked r ≡ true
    → any blocked (add_result stop (some r) more) ≡ true
add_result-blocked stop r more h = ground arith

add_result-keeps :
    (stop : Bool) (rule : Rule) (keyword : Text) (found : Option (ℕ × ℕ))
    (more : List ScannerResult)
    → get_or_else rule.level (str "block") ≡ str "block"
    → any blocked more ≡ true
    → any blocked (add_result stop (map_option (build_result rule keyword) found) more) ≡ true
add_result-keeps stop rule keyword none more level h = h
add_result-keeps stop rule keyword (some p) more level h =
    add_result-blocked stop (build_result rule keyword p) more
      (blocked-build_result rule keyword p level)

module _ (lower : Text → Text) where
  -- A rule that blocks on any occurrence of its keywords.
  pub record Blocks (rule : Rule) : Type 0 where
    pub enabled : get_or_else rule.enabled true ≡ true
    pub level : get_or_else rule.level (str "block") ≡ str "block"
    pub mode : get_or_else rule.match_mode (str "contains") ≡ str "contains"

  scan_keywords-blocked :
      (rule : Rule) (search_text keyword : Text) (keywords : List Text)
      → Blocks rule
      → In keyword keywords
      → fold_case lower rule keyword ≢ []
      → Occurs (fold_case lower rule keyword) search_text
      → any blocked (scan_keywords lower rule search_text keywords) ≡ true
  unfolding scan_keywords
  scan_keywords-blocked rule search_text keyword [] b i ne o = elim i [ ]
  scan_keywords-blocked rule search_text keyword (k ∷ ks) b here ne o =
      let (p, found) = found_of_Occurs (fold_case lower rule keyword) search_text ne o in
      rw (b.mode, scan_keywords)
        (rw (found, scan_keywords)
          (add_result-blocked (get_or_else rule.stop_on_first true) (build_result rule keyword p)
            (scan_keywords lower rule search_text ks)
            (blocked-build_result rule keyword p b.level)))
  scan_keywords-blocked rule search_text keyword (k ∷ ks) b (there i) ne o =
      add_result-keeps (get_or_else rule.stop_on_first true) rule k
        (match_position search_text (fold_case lower rule k)
          (get_or_else rule.match_mode (str "contains")))
        (scan_keywords lower rule search_text ks) b.level
        (scan_keywords-blocked rule search_text keyword ks b i ne o)

  scan_rules-blocked :
      (text : Text) (rule : Rule) (rules : List Rule)
      → In rule rules
      → any blocked (scan_rule lower text rule) ≡ true
      → any blocked (scan_rules lower text rules) ≡ true
  unfolding scan_rules
  scan_rules-blocked text rule [] i h = elim i [ ]
  scan_rules-blocked text rule (r ∷ rs) here h = rw any-append (ground (arith, h))
  scan_rules-blocked text rule (r ∷ rs) (there i) h =
      rw any-append (ground (arith, scan_rules-blocked text rule rs i h))

  -- No keyword of an enabled rule of level "block" and mode "contains" passes: if one, in the case
  -- that the rule compares, is not empty and stands anywhere in the text, in that case, the scan has
  -- a blocking result, whatever the other rules are and with or without `stop_on_first`.
  pub keyword_scan-blocked :
      (rules : List Rule) (text : Text) (rule : Rule) (keyword : Text)
      → In rule rules
      → Blocks rule
      → In keyword (get_or_else rule.keywords [])
      → fold_case lower rule keyword ≢ []
      → Occurs (fold_case lower rule keyword) (fold_case lower rule text)
      → any blocked (scan lower rules text) ≡ true
  unfolding scan
  keyword_scan-blocked rules text rule keyword i b k ne o =
      scan_rules-blocked text rule (filter (λ r. get_or_else r.enabled true) rules)
        (In-filter (λ r. get_or_else r.enabled true) rules i b.enabled)
        (unfold scan_rule in
          scan_keywords-blocked rule (fold_case lower rule text) keyword
            (get_or_else rule.keywords []) b k ne o)
