-- ===== src/Proxy/Desensitize/Body.antt =====
-- What `desensitize_chat_request_body` of proxy/relay.py changes in a request body, and what not.
use nf_safety_hub.Prelude.{
  ℕ, Bool, true, false, Option, none, some, List, [], map, ◌≡◌, ◌≢◌, refl, subst, ap, arith, ◌⊎◌,
  inl, inr,
}
use nf_safety_hub.Prelude.Text.{Text, str, eq_iff, eq_refl}
use nf_safety_hub.Json.{
  Value, null, array, object, Items, nil, cons, Fields, write, get-write, get, get_value,
}
use nf_safety_hub.Proxy.Extract.{has_role, content_parts}
use nf_safety_hub.Proxy.Desensitize.{
  Pattern, desensitize_roles, desensitize_text, desensitize_content, desensitize_message,
  desensitize_messages, desensitize_chat_request_body,
}
use nf_safety_hub.Proxy.Desensitize.Laws.{content_parts-desensitize_content}

module _ (digit : ℕ → Bool) (patterns : List Pattern) where
  -- A message of a masked role: the text read from it is masked, and its other keys are as before.
  pub record IsMasked (before after : Fields) : Type 0 where
    pub texts :
        content_parts (get_value (str "content") after)
        ≡ map (desensitize_text digit patterns) (content_parts (get_value (str "content") before))
    pub others : (key : Text) → key ≢ str "content" → get key after ≡ get key before

  -- One message before and after: masked if it is a dict of a masked role, and unchanged if not.
  abbrev pub Rewritten : Value → Value → Type 0
  Rewritten before after =
      ((fs : Fields) × (gs : Fields) × (before ≡ object fs)
        × (after ≡ object gs)
        × (has_role desensitize_roles fs ≡ some true)
        × IsMasked fs gs)
      ⊎ ((before ≡ after)
          × ((fs : Fields) → before ≡ object fs → has_role desensitize_roles fs ≡ some false))

  abbrev pub AllRewritten : Items → Items → Type 0
  AllRewritten nil nil = Unit
  AllRewritten (cons m ms) (cons m' ms') = Rewritten m m' × AllRewritten ms ms'
  AllRewritten _ _ = ⊥

  write-IsMasked :
      (fs : Fields)
      → IsMasked fs (
          write
            (str "content")
            (desensitize_content digit patterns (get_value (str "content") fs))
            fs)
  write-IsMasked fs = record {
    texts =
        rw
          (get-write (str "content") (str "content")
            (desensitize_content digit patterns (get_value (str "content") fs)) fs)
          (rw (eq_refl (str "content"))
            (content_parts-desensitize_content digit patterns (get_value (str "content") fs)));
    others = λ key ne. ground (
      arith,
      get-write (str "content") key
          (desensitize_content digit patterns (get_value (str "content") fs)) fs,
      eq_iff (str "content") key,
    );
  }

  object-Rewritten :
      (fs : Fields) (m' : Value) (role : Option Bool)
      → has_role desensitize_roles fs ≡ role
      → desensitize_message digit patterns (object fs) ≡ some m'
      → Rewritten (object fs) m'
  unfolding desensitize_message
  object-Rewritten fs m' none e h = absurd (ground arith)
  object-Rewritten fs m' (some false) e h =
      inr (ground arith, λ gs p. subst (λ x. has_role desensitize_roles x ≡ some false) (cc) e)
  object-Rewritten fs m' (some true) e h = inl (
    fs,
    write (str "content") (desensitize_content digit patterns (get_value (str "content") fs)) fs,
    refl,
    ground arith,
    e,
    write-IsMasked fs,
  )

  desensitize_message-Rewritten :
      (m m' : Value) → desensitize_message digit patterns m ≡ some m' → Rewritten m m'
  unfolding desensitize_message
  desensitize_message-Rewritten (object fs) m' h =
      object-Rewritten fs m' (has_role desensitize_roles fs) refl h
  desensitize_message-Rewritten _ m' h = inr (ground arith, λ fs p. absurd (cc))

  desensitize_messages-AllRewritten :
      (ms ms' : Items) → desensitize_messages digit patterns ms ≡ some ms' → AllRewritten ms ms'
  unfolding desensitize_messages
  desensitize_messages-AllRewritten nil nil h = tt
  desensitize_messages-AllRewritten nil (cons x xs) h = absurd (cc)
  desensitize_messages-AllRewritten (cons m ms) ms' h =
      go (desensitize_message digit patterns m) (desensitize_messages digit patterns ms) refl refl
        ms' h (desensitize_messages-AllRewritten ms)
    where
      go :
          (o : Option Value) (p : Option Items)
          → desensitize_message digit patterns m ≡ o
          → desensitize_messages digit patterns ms ≡ p
          → (ns : Items) → desensitize_messages digit patterns (cons m ms) ≡ some ns
          → ((xs : Items) → desensitize_messages digit patterns ms ≡ some xs → AllRewritten ms xs)
          → AllRewritten (cons m ms) ns
      go none p eo ep ns e ih = absurd (ground arith)
      go (some n) none eo ep ns e ih = absurd (ground arith)
      go (some n) (some xs) eo ep ns e ih =
          let made : cons n xs ≡ ns = ground arith in
          subst (AllRewritten (cons m ms)) made (desensitize_message-Rewritten m n eo, ih xs ep)

  -- Where there are patterns and the messages are a list, the rewritten body differs from the given
  -- one at most under "messages"; there it has as many messages, those of a masked role with the
  -- text that is read from them masked and their other keys kept, and every other one unchanged.
  pub desensitize_chat_request_body_lem :
      (body after : Fields) (messages : Items)
      → patterns ≢ []
      → get (str "messages") body ≡ some (array messages)
      → desensitize_chat_request_body digit patterns body ≡ some after
      → ((key : Text) → key ≢ str "messages" → get key after ≡ get key body)
        × ((rewritten : Items) × (get (str "messages") after ≡ some (array rewritten))
            × AllRewritten messages rewritten)
  unfolding desensitize_chat_request_body
  desensitize_chat_request_body_lem body after messages ne given h =
      go (desensitize_messages digit patterns messages) refl
    where
      go :
          (o : Option Items)
          → desensitize_messages digit patterns messages ≡ o
          → ((key : Text) → key ≢ str "messages" → get key after ≡ get key body)
            × ((rewritten : Items) × (get (str "messages") after ≡ some (array rewritten))
                × AllRewritten messages rewritten)
      go none e = absurd (ground arith)
      go (some ms) e =
          let made : write (str "messages") (array ms) body ≡ after = ground arith in
          rw (← made) (
            λ key other. ground (
              arith,
              get-write (str "messages") key (array ms) body,
              eq_iff (str "messages") key,
            ),
            (
              ms,
              ground (
                arith,
                get-write (str "messages") (str "messages") (array ms) body,
                eq_refl (str "messages"),
              ),
              desensitize_messages-AllRewritten messages ms e,
            ),
          )

  differs :
      (message after : Fields)
      → object after ≡ object message
      → get (str "content") after ≡ some null
      → get (str "content") message ≡ none
      → ⊥
  differs message after e written missing =
      let same : after ≡ message = ground (arith, e) in
      cc (ap (get (str "content")) same, written, missing)

  -- A message of a masked role without a "content" is rewritten to one that has a "content", which is
  -- `None`, and so is another message, also where no pattern matches anything.
  pub desensitize_message-missing :
      (message : Fields)
      → has_role desensitize_roles message ≡ some true
      → get (str "content") message ≡ none
      → (after : Fields) × ((desensitize_message digit patterns (object message)
            ≡ some (object after))
          × ((get (str "content") after ≡ some null) × (object after ≢ object message)))
  unfolding desensitize_message desensitize_content
  desensitize_message-missing message role missing =
      let content = desensitize_content digit patterns (get_value (str "content") message) in
      let masked : content ≡ null = rw missing refl in
      let after = write (str "content") null message in
      let written : get (str "content") after ≡ some null =
        ground (
          arith,
          get-write (str "content") (str "content") null message,
          eq_refl (str "content"),
        ) in
      (
        after,
        (ground (arith, role, masked), (written, λ e. differs message after e written missing)),
      )
