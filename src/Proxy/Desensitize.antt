-- ===== src/Proxy/Desensitize.antt =====
-- proxy/relay.py: masking of the request's messages (`desensitize_chat_request_body` and below).
-- The regular expression engine is Python's: a compiled pattern is the function that lists the
-- spans of its matches in a text, in order and disjoint, as `finditer` and `sub` find them, and
-- `digit` is what `\d` matches.
pub mod Mask
pub mod Laws
pub mod Body
use nf_safety_hub.Prelude.{
  ℕ, zero, suc, ◌+◌, ◌-◌, ◌*◌, Bool, true, false, not, Option, none, some, List, [], ◌∷◌, ◌++◌,
  if◌then◌else◌, is_empty, filter, take, drop, length, replicate, leb,
}
use nf_safety_hub.Prelude.Text.{Text, str, ◌==◌}
use nf_safety_hub.Prelude.Dict.{Dict, assign}
use nf_safety_hub.Json.{
  Value, null, string, array, object, Items, nil, cons, Fields, end, field, write, get, get_value,
}
use nf_safety_hub.Proxy.Extract.{has_role}

pub record Span : Type 0 where
  pub start : ℕ
  pub stop : ℕ

abbrev pub Pattern : Type 0
Pattern = Text → List Span

unfoldable pub desensitize_roles : List Text
desensitize_roles = str "user" ∷ str "tool" ∷ str "function" ∷ []

-- the code point of "*"
abbrev star : ℕ
star = 42

module _ (digit : ℕ → Bool) where
  -- `_mask_phone_match`, on the matched text
  unfoldable pub mask_phone_match : Text → Text
  mask_phone_match value =
      let digits = filter digit value in
      if leb (length digits) 7
      then replicate (length value) star
      else take 3 digits ++ (replicate 4 star ++ drop (length digits - 4) digits)

  -- `pattern.sub(_mask_phone_match, text)`, from position `pos`, where `rest` begins
  unfoldable pub sub_from : ℕ → Text → List Span → Text
  sub_from pos rest [] = rest
  sub_from pos rest (m ∷ ms) =
      take (m.start - pos) rest
      ++ (mask_phone_match (take (m.stop - m.start) (drop (m.start - pos) rest))
          ++ sub_from m.stop (drop (m.stop - pos) rest) ms)

  unfoldable pub desensitize_text : List Pattern → Text → Text
  unfolding sub_from mask_phone_match
  desensitize_text [] text = text
  desensitize_text (pattern ∷ patterns) text =
      desensitize_text patterns (sub_from 0 text (pattern text))

  module _ (patterns : List Pattern) where
    -- the value under "text" of an item: masked if it is a string
    abbrev pub desensitize_string : Value → Value
    desensitize_string (string s) = string (desensitize_text patterns s)
    desensitize_string v = v

    -- the new value under one key of an item, `inner` being the value masked as a content
    abbrev pub field_value : Text → Value → Value → Value
    field_value k v inner =
        if k == str "text" then desensitize_string v else if k == str "content" then inner else v

    -- `desensitize_content`. The keys of a dict are distinct, so that the walk over its fields
    -- meets "text" and "content" once each.
    unfoldable mutual
      pub desensitize_content : Value → Value
      desensitize_content (string s) = string (desensitize_text patterns s)
      desensitize_content (array xs) = array (desensitize_items xs)
      desensitize_content v = v

      pub desensitize_items : Items → Items
      desensitize_items nil = nil
      desensitize_items (cons x xs) = cons (desensitize_item x) (desensitize_items xs)

      pub desensitize_item : Value → Value
      desensitize_item (string s) = string (desensitize_text patterns s)
      desensitize_item (object fs) = object (desensitize_fields fs)
      desensitize_item v = v

      pub desensitize_fields : Fields → Fields
      desensitize_fields end = end
      desensitize_fields (field k v fs) =
          let inner = desensitize_content v in
          let later = desensitize_fields fs in field k (field_value k v inner) later

    -- One message of the loop of `desensitize_chat_request_body`. A missing "content" is written
    -- as `None`. `none` is the `TypeError` of the role test.
    unfoldable pub desensitize_message : Value → Option Value
    desensitize_message (object message) = elim (has_role desensitize_roles message) [
      | none ↦ none
      | some false ↦ some (object message)
      | some true ↦ some (
          object (
            write (str "content") (desensitize_content (get_value (str "content") message))
              message))
    ]
    desensitize_message v = some v

    unfoldable pub desensitize_messages : Items → Option Items
    desensitize_messages nil = some nil
    desensitize_messages (cons m ms) = elim (desensitize_message m) [
      | none ↦ none
      | some m' ↦ elim (desensitize_messages ms) [ none ↦ none | some ms' ↦ some (cons m' ms') ]
    ]

    abbrev with_messages : Fields → Option Items → Option Fields
    with_messages body none = none
    with_messages body (some ms) = some (write (str "messages") (array ms) body)

    unfoldable pub desensitize_chat_request_body : Fields → Option Fields
    unfolding desensitize_messages
    desensitize_chat_request_body body =
        if is_empty patterns then some body else elim (get (str "messages") body) [
          | some (array messages) ↦ with_messages body (desensitize_messages messages)
          | _ ↦ some body
        ]
