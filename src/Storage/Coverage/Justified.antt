-- ===== src/Storage/Coverage/Justified.antt =====
-- storage/data_governance.py: what a mark of `_mark_covered_by_group` says about the table.
use nf_safety_hub.Prelude.{
  ℕ, ◌<◌, true, Option, List, [], ◌∷◌, map, In, here, there, All, is_empty, eqb, eqb_iff, length,
  false, ◌≢◌, ◌≡◌, refl, ap, ◌∙◌, subst, arith, ◌⊎◌, inl, inr, Bool-cases,
}
use nf_safety_hub.Prelude.Text.{Text}
use nf_safety_hub.Json.{Value}
use nf_safety_hub.Json.Equality.{equals}
use nf_safety_hub.Storage.Coverage.{
  Conversation, pending, begins_with, is_prefix_trajectory, cover, parse_trajectory,
}

-- the columns that a mark leaves as they are
abbrev pub without_marks : Conversation → Conversation
without_marks c = record c { covered_by_conversation_id = []; analysis_status = pending }

-- An id names one conversation.
abbrev pub AreDistinct : List Conversation → Type 0
AreDistinct rows = (c d : Conversation) → In c rows → In d rows → c.id ≡ d.id → c ≡ d

-- The conversation is one of the rows, marks aside.
abbrev pub IsKnown : List Conversation → Conversation → Type 0
IsKnown rows c = In (without_marks c) rows

-- The second list begins with items that are equal, as Python's `==` has it, to those of the first.
abbrev pub Begins : List Value → List Value → Type 0
Begins [] _ = Unit
Begins (c ∷ cs) [] = ⊥
Begins (c ∷ cs) (v ∷ vs) = (equals v c ≡ true) × Begins cs vs

-- A trajectory that is not empty, and goes on in the other.
pub record IsContinued (candidate trajectory : List Value) : Type 0 where
  pub some_messages : candidate ≢ []
  pub is_longer : length candidate < length trajectory
  pub begins : Begins candidate trajectory

begins_with-Begins :
    (candidate trajectory : List Value)
    → begins_with trajectory candidate ≡ true
    → Begins candidate trajectory
unfolding begins_with
begins_with-Begins [] trajectory h = tt
begins_with-Begins (c ∷ cs) [] h = absurd (cc h)
begins_with-Begins (c ∷ cs) (v ∷ vs) h =
    (ground (arith, h), begins_with-Begins cs vs (ground (arith, h)))

is_prefix_trajectory-IsContinued :
    (candidate trajectory : List Value)
    → is_prefix_trajectory candidate trajectory ≡ true
    → IsContinued candidate trajectory
unfolding is_prefix_trajectory
is_prefix_trajectory-IsContinued candidate trajectory h = record {
  some_messages =
      λ e. let q : is_empty candidate ≡ false = ground (arith, h) in cc (q, ap is_empty e);
  is_longer = ground (arith, h);
  begins = begins_with-Begins candidate trajectory (ground (arith, h));
}

module _ (loads : Text → Option Value) (rows : List Conversation) where
  -- The conversation that covers this one: a later one of its user and key, whose messages begin with
  -- its own or with messages that Python's `==` takes for them.
  pub record Coverer (d : Conversation) : Type 0 where
    pub by : Conversation
    pub is_known : In by rows
    pub is_named : d.covered_by_conversation_id ≡ by.conversation_id
    pub has_user : d.user_id ≡ by.user_id
    pub has_key : d.api_key_id ≡ by.api_key_id
    pub is_later : d.id < by.id
    pub is_continued :
        IsContinued (parse_trajectory loads d.trajectory) (parse_trajectory loads by.trajectory)

  abbrev pub IsJustified : Conversation → Type 0
  IsJustified d = (is_empty d.covered_by_conversation_id ≡ true) ⊎ Coverer d

  -- The table holds these rows, and each of its marks is justified.
  abbrev pub IsSound : List Conversation → Type 0
  IsSound table = (map without_marks table ≡ rows) × All IsJustified table

  abbrev pub IsCandidate : Conversation → Conversation → Type 0
  IsCandidate by c =
      IsKnown rows c
      × ((c.user_id ≡ by.user_id) × ((c.api_key_id ≡ by.api_key_id) × (c.id < by.id)))

  pub IsKnown-from :
      (table : List Conversation)
      → ((c : Conversation) → In c (map without_marks table) → In c rows)
      → All (IsKnown rows) table
  IsKnown-from [] sub = tt
  IsKnown-from (c ∷ cs) sub = (sub (without_marks c) here, IsKnown-from cs (λ d i. sub d (there i)))

  cover-IsJustified :
      (by candidate d : Conversation)
      → AreDistinct rows
      → IsKnown rows by
      → IsCandidate by candidate
      → is_prefix_trajectory
          (parse_trajectory loads candidate.trajectory)
          (parse_trajectory loads by.trajectory)
        ≡ true
      → IsKnown rows d
      → IsJustified d
      → IsJustified (cover candidate.id by.conversation_id d)
  cover-IsJustified by candidate d distinct known (kc, (user, (key, later))) p kd h =
      elim (Bool-cases (eqb d.id candidate.id)) [
        | inr e ↦ rw e h
        | inl e ↦
            let same =
              distinct (without_marks d) (without_marks candidate) kd kc
                ((eqb_iff d.id candidate.id).0 e) in
            rw e (
              inr (record {
                by = without_marks by;
                is_known = known;
                is_named = refl;
                has_user = ap (λ c. c.user_id) same ∙ user;
                has_key = ap (λ c. c.api_key_id) same ∙ key;
                is_later = omega (arith, ap (λ c. c.id) same, later);
                is_continued = is_prefix_trajectory-IsContinued _ _ (
                    ap
                      (λ c.
                        is_prefix_trajectory (parse_trajectory loads c.trajectory)
                          (parse_trajectory loads by.trajectory))
                      same
                    ∙ p);
              }))
      ]

  cover-without_marks :
      (id : ℕ) (by : Text) (c : Conversation) → without_marks (cover id by c) ≡ without_marks c
  cover-without_marks id by c = elim (Bool-cases (eqb c.id id)) [
    | inl e ↦ rw e refl
    | inr e ↦ rw e refl
  ]

  map-cover-without_marks :
      (id : ℕ) (by : Text) (table : List Conversation)
      → map without_marks (map (cover id by) table) ≡ map without_marks table
  map-cover-without_marks id by [] = refl
  map-cover-without_marks id by (c ∷ cs) =
      rw (cover-without_marks id by c)
        (ap (λ t. without_marks c ∷ t) (map-cover-without_marks id by cs))

  All-map-cover :
      (by candidate : Conversation) (table : List Conversation)
      → AreDistinct rows
      → IsKnown rows by
      → IsCandidate by candidate
      → is_prefix_trajectory
          (parse_trajectory loads candidate.trajectory)
          (parse_trajectory loads by.trajectory)
        ≡ true
      → All (IsKnown rows) table
      → All IsJustified table
      → All IsJustified (map (cover candidate.id by.conversation_id) table)
  All-map-cover by candidate [] distinct known is_candidate p ks h = tt
  All-map-cover by candidate (d ∷ ds) distinct known is_candidate p ks h = (
    cover-IsJustified by candidate d distinct known is_candidate p ks.0 h.0,
    All-map-cover by candidate ds distinct known is_candidate p ks.1 h.1,
  )

  pub cover-IsSound :
      (by candidate : Conversation) (table : List Conversation)
      → AreDistinct rows
      → IsKnown rows by
      → IsCandidate by candidate
      → is_prefix_trajectory
          (parse_trajectory loads candidate.trajectory)
          (parse_trajectory loads by.trajectory)
        ≡ true
      → IsSound table
      → IsSound (map (cover candidate.id by.conversation_id) table)
  cover-IsSound by candidate table distinct known is_candidate p (e, h) = (
    map-cover-without_marks candidate.id by.conversation_id table ∙ e,
    All-map-cover by candidate table distinct known is_candidate p
        (IsKnown-from table (λ c i. subst (λ t. In c t) e i)) h,
  )
