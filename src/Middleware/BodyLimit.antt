-- ===== src/Middleware/BodyLimit.antt =====
-- middleware/request_limit.py: `RequestBodyLimitMiddleware`. What `int(...)` makes of a
-- Content-Length is a parameter of the model, and so is `call_next`, which the framework provides; the
-- messages of a request are those of its `receive`. Whether the application reads through the limited
-- request is up to `call_next`.
use nf_safety_hub.Prelude.{
  ℕ, ◌+◌, ◌*◌, ◌≤◌, ◌<◌, max, Bool, true, false, Option, none, some, List, [], ◌∷◌, if◌then◌else◌,
  is_empty, ltb, length, ◌≡◌, refl, arith, Bool-cases, inl, inr, ◌⊎◌, ap,
}
use nf_safety_hub.Prelude.Text.{Text}

-- A message: a part of the body, or another kind, such as a disconnect.
pub data Message : Type 0 where
  part : Text → Message
  other : Message

-- What `int(content_length)` gives: a `ValueError`, a negative number or a natural one.
pub data Parsed : Type 0 where
  invalid : Parsed
  negative : Parsed
  number : ℕ → Parsed

-- `max_bytes`, from the setting in megabytes
unfoldable pub max_bytes_of : ℕ → ℕ
max_bytes_of megabytes = max 1 megabytes * 1024 * 1024

abbrev exceeds : ℕ → Parsed → Bool
exceeds max_bytes invalid = true
exceeds max_bytes negative = false
exceeds max_bytes (number n) = ltb max_bytes n

-- the check of the header, `none` where it is absent
unfoldable pub header_too_large : (Text → Parsed) → ℕ → Option Text → Bool
header_too_large parse_int max_bytes none = false
header_too_large parse_int max_bytes (some value) =
    if is_empty value then false else exceeds max_bytes (parse_int value)

abbrev push : Message → Option (List Message) → Option (List Message)
push m none = none
push m (some ms) = some (m ∷ ms)

-- `limited_receive` over all the messages that are asked for; `none` is `RequestBodyTooLarge`
unfoldable pub receive_all : ℕ → ℕ → List Message → Option (List Message)
receive_all max_bytes received [] = some []
receive_all max_bytes received (other ∷ ms) = push other (receive_all max_bytes received ms)
receive_all max_bytes received (part body ∷ ms) =
    let rest = push (part body) (receive_all max_bytes (received + length body) ms) in
    if ltb max_bytes (received + length body) then none else rest

-- what a reader of the limited request gets, from its first message on
unfoldable pub limited_request : ℕ → List Message → Option (List Message)
unfolding receive_all
limited_request max_bytes messages = receive_all max_bytes 0 messages

-- `dispatch`, `none` for the answer 413. `call_next` is given what reading the limited request gives,
-- and returns none where it raises `RequestBodyTooLarge`.
unfoldable pub dispatch :
    {A : Type 0}
    → (Text → Parsed)
    → (call_next : Option (List Message) → Option A) → ℕ
    → Option Text
    → List Message
    → Option A
unfolding header_too_large limited_request max_bytes_of
dispatch parse_int call_next megabytes content_length messages =
    if header_too_large parse_int (max_bytes_of megabytes) content_length
    then none
    else call_next (limited_request (max_bytes_of megabytes) messages)

abbrev pub total : List Message → ℕ
total [] = 0
total (other ∷ ms) = total ms
total (part body ∷ ms) = length body + total ms

-- What one reading of the messages gives, from the bytes received before.
receive_all-cases :
    (max_bytes received : ℕ) (ms : List Message)
    → received ≤ max_bytes
    → ((received + total ms ≤ max_bytes) × (receive_all max_bytes received ms ≡ some ms))
      ⊎ ((max_bytes < received + total ms) × (receive_all max_bytes received ms ≡ none))
unfolding receive_all
receive_all-cases max_bytes received [] h = inl (omega arith, refl)
receive_all-cases max_bytes received (other ∷ ms) h =
    elim (receive_all-cases max_bytes received ms h) [
      | inl p ↦ inl (p.0, ap (push other) p.1)
      | inr p ↦ inr (p.0, ap (push other) p.1)
    ]
receive_all-cases max_bytes received (part body ∷ ms) h =
    elim (Bool-cases (ltb max_bytes (received + length body))) [
      | inl e ↦ inr ((ground arith), rw e refl)
      | inr e ↦ elim (receive_all-cases max_bytes (received + length body) ms (ground arith)) [
        | inl p ↦ inl ((omega (arith, p.0)), (rw (e, p.1) refl))
        | inr p ↦ inr ((omega (arith, p.0)), (rw (e, p.1) refl))
      ]
    ]

-- Reading the limited request gives all its messages unchanged exactly when the bodies among them have
-- at most the limit together, and raises otherwise.
pub limited_request_lem :
    (max_bytes : ℕ) (messages : List Message)
    → ((total messages ≤ max_bytes) × (limited_request max_bytes messages ≡ some messages))
      ⊎ ((max_bytes < total messages) × (limited_request max_bytes messages ≡ none))
unfolding limited_request
limited_request_lem max_bytes messages =
    elim (receive_all-cases max_bytes 0 messages (omega arith)) [
      | inl p ↦ inl (omega (arith, p.0), p.1)
      | inr p ↦ inr (omega (arith, p.0), p.1)
    ]
