-- ===== src/Storage/Training/Provenance.antt =====
-- storage/training.py: which payloads become training data, and what is kept of them.
use nf_safety_hub.Prelude.{
  ℕ, ◌+◌, true, false, ◌||◌, or-eq-false_iff, &&-eq-true_iff, Option, none, some, List, [], ◌∷◌,
  ◌++◌, In, In-cons, In-append, In-append_right, here, there, is_empty, ◌≡◌, refl, sym, subst,
  arith, ◌⊎◌, inl, inr, Bool-cases,
}
use nf_safety_hub.Prelude.Text.{Text, str, ◌==◌, eq→path, is_one_of}
use nf_safety_hub.Json.{string}
use nf_safety_hub.Storage.Training.{
  ArchivePayload, TrainingConversation, is_training_candidate, Writer, serialize_json, messages_of,
  answer_to, new_conversation, conversation_from_payload, kept, conversations_from,
  write_many_from_archive_payloads,
}
use nf_safety_hub.Storage.Training.Normalize.{message_of, append_assistant_message}

module _ (w : Writer) where
  -- The row holds a chat that was neither blocked nor lacks an answer: its messages, the answer, and both.
  pub record Provenance (payloads : List ArchivePayload) (c : TrainingConversation) : Type 0 where
    pub payload : ArchivePayload
    pub is_given : In payload payloads
    pub is_chat : payload.capability ≡ str "chat"
    pub is_unblocked : payload.is_blocked ≡ false
    pub is_taken :
        (payload.action_taken ≡ str "passed") ⊎ (payload.action_taken ≡ str "desensitized")
    pub has_messages : is_empty (messages_of w payload) ≡ false
    pub has_answer : is_empty c.assistant_response ≡ false
    pub keeps_messages : c.messages ≡ serialize_json w (messages_of w payload)
    pub keeps_answer : c.assistant_response ≡ answer_to w payload
    pub keeps_both :
        c.trajectory
        ≡ serialize_json w (
            messages_of w payload
            ++ message_of (str "assistant") (string c.assistant_response) ∷ [])

  either_of : (s a b : Text) → is_one_of s (a ∷ b ∷ []) ≡ true → (s ≡ a) ⊎ (s ≡ b)
  unfolding is_one_of
  either_of s a b h = elim (Bool-cases (s == a)) [
    | inl e ↦ inl (eq→path s a e)
    | inr e ↦ inr (eq→path s b (ground arith))
  ]

  later :
      {p : ArchivePayload} {ps : List ArchivePayload} {c : TrainingConversation}
      → Provenance ps c
      → Provenance (p ∷ ps) c
  later h = record {
    payload = h.payload;
    is_given = there h.is_given;
    is_chat = h.is_chat;
    is_unblocked = h.is_unblocked;
    is_taken = h.is_taken;
    has_messages = h.has_messages;
    has_answer = h.has_answer;
    keeps_messages = h.keeps_messages;
    keeps_answer = h.keeps_answer;
    keeps_both = h.keeps_both;
  }

  new_conversation-Provenance :
      (uuid : Text) (now : ℕ) (p : ArchivePayload) (ps : List ArchivePayload)
      → is_training_candidate p ≡ true
      → (is_empty (messages_of w p) || is_empty (answer_to w p)) ≡ false
      → Provenance (p ∷ ps) (new_conversation w uuid now p)
  unfolding is_training_candidate new_conversation append_assistant_message
  new_conversation-Provenance uuid now p ps e f =
      let (chat, rest) = (&&-eq-true_iff _ _).0 e in
      let (taken, unblocked) = (&&-eq-true_iff _ _).0 rest in
      let (messages, answer) = (or-eq-false_iff _ _).0 f in
      record {
        payload = p;
        is_given = here;
        is_chat = eq→path _ _ chat;
        is_unblocked = ground arith;
        is_taken = either_of _ _ _ taken;
        has_messages = messages;
        has_answer = answer;
        keeps_messages = refl;
        keeps_answer = refl;
        keeps_both = refl;
      }

  In-kept :
      (uuid : Text) (now : ℕ) (p : ArchivePayload) (ps : List ArchivePayload)
      (cs : List TrainingConversation) (c : TrainingConversation)
      → In c (kept w (conversation_from_payload w uuid now p) cs)
      → Provenance (p ∷ ps) c ⊎ In c cs
  unfolding conversation_from_payload
  In-kept uuid now p ps cs c i = elim (Bool-cases (is_training_candidate p)) [
    | inr e ↦ inr (rw e at i)
    | inl e ↦ elim (Bool-cases (is_empty (messages_of w p) || is_empty (answer_to w p))) [
      | inl f ↦ inr (rw (e, f) at i)
      | inr f ↦ elim (In-cons c (new_conversation w uuid now p) cs (rw (e, f) at i)) [
        | inl same ↦ inl (
            subst (λ t. Provenance (p ∷ ps) t) (sym same)
              (new_conversation-Provenance uuid now p ps e f))
        | inr j ↦ inr j
      ]
    ]
  ]

  conversations_from-Provenance :
      (uuids : ℕ → Text) (now : ℕ → ℕ) (n : ℕ) (ps : List ArchivePayload) (c : TrainingConversation)
      → In c (conversations_from w uuids now n ps)
      → Provenance ps c
  unfolding conversations_from
  conversations_from-Provenance uuids now n [] c i = elim i [ ]
  conversations_from-Provenance uuids now n (p ∷ ps) c i =
      elim (In-kept (uuids n) (now n) p ps (conversations_from w uuids now (n + 1) ps) c i) [
        | inl h ↦ h
        | inr j ↦ later (conversations_from-Provenance uuids now (n + 1) ps c j)
      ]

  -- A conversation that is stored after a batch was stored before it or comes from one of its payloads:
  -- a chat that was passed or desensitized and not blocked, with its normalized messages and answer.
  pub write_many-Provenance :
      (uuids : ℕ → Text) (now : ℕ → ℕ) (table : List TrainingConversation)
      (payloads : List ArchivePayload) (c : TrainingConversation)
      → In c (write_many_from_archive_payloads w uuids now table payloads)
      → In c table ⊎ Provenance payloads c
  unfolding write_many_from_archive_payloads
  write_many-Provenance uuids now table payloads c i =
      elim (In-append c table (conversations_from w uuids now 0 payloads) i) [
        | inl j ↦ inl j
        | inr j ↦ inr (conversations_from-Provenance uuids now 0 payloads c j)
      ]

  In-kept_later :
      {c : TrainingConversation} (o : Option TrainingConversation) (cs : List TrainingConversation)
      → In c cs
      → In c (kept w o cs)
  In-kept_later none cs i = i
  In-kept_later (some d) cs i = there i

  conversations_from-In :
      (uuids : ℕ → Text) (now : ℕ → ℕ) (n : ℕ) (ps : List ArchivePayload) (p : ArchivePayload)
      → In p ps
      → is_training_candidate p ≡ true
      → (is_empty (messages_of w p) || is_empty (answer_to w p)) ≡ false
      → (k : ℕ) × In (new_conversation w (uuids k) (now k) p) (conversations_from w uuids now n ps)
  unfolding conversations_from conversation_from_payload
  conversations_from-In uuids now n [] p i e f = elim i [ ]
  conversations_from-In uuids now n (q ∷ ps) p here e f = (n, rw (e, f) here)
  conversations_from-In uuids now n (q ∷ ps) p (there i) e f =
      let (k, j) = conversations_from-In uuids now (n + 1) ps p i e f in
      (k, In-kept_later (conversation_from_payload w (uuids n) (now n) q) _ j)

  -- Each chat of a batch that was passed or desensitized and not blocked, and has messages and an
  -- answer, is stored.
  pub write_many_from_archive_payloads-In :
      (uuids : ℕ → Text) (now : ℕ → ℕ) (table : List TrainingConversation)
      (payloads : List ArchivePayload) (p : ArchivePayload)
      → In p payloads
      → is_training_candidate p ≡ true
      → (is_empty (messages_of w p) || is_empty (answer_to w p)) ≡ false
      → (k : ℕ) × In
          (new_conversation w (uuids k) (now k) p)
          (write_many_from_archive_payloads w uuids now table payloads)
  unfolding write_many_from_archive_payloads
  write_many_from_archive_payloads-In uuids now table payloads p i e f =
      let (k, j) = conversations_from-In uuids now 0 payloads p i e f in
      (k, In-append_right table (conversations_from w uuids now 0 payloads) j)
