-- ===== src/Proxy/Desensitize/Laws.antt =====
-- Masking and extraction of proxy/relay.py fit together: what is read from a masked content is the
-- masked text of what was read before.
use nf_safety_hub.Prelude.{
  map_option, ℕ, Bool, false, Option, none, some, List, [], map, if◌then◌else◌, ◌≡◌, refl, sym,
  arith, get_or_else,
}
use nf_safety_hub.Prelude.Text.{Text, str, ◌==◌, eq_iff}
use nf_safety_hub.Prelude.Dict.{lookup}
use nf_safety_hub.Json.{
  Value, string, array, object, Items, nil, cons, Fields, end, field, get, or_null,
}
use nf_safety_hub.Proxy.Extract.{content_parts, list_parts, item_parts, text_or, parts_of_content}
use nf_safety_hub.Proxy.Desensitize.{
  Pattern, desensitize_text, desensitize_string, field_value, desensitize_content,
  desensitize_items, desensitize_item, desensitize_fields,
}
use mathlib.Core.List.{map-append}

text_ne_content : (str "text" == str "content") ≡ false
unfolding str ◌==◌
text_ne_content = refl

module _ (digit : ℕ → Bool) (patterns : List Pattern) where
  abbrev masked_text : Text → Text
  masked_text = desensitize_text digit patterns

  get-desensitize_fields :
      (fs : Fields)
      → get (str "text") (desensitize_fields digit patterns fs)
        ≡ map_option (desensitize_string digit patterns) (get (str "text") fs)
  unfolding desensitize_content lookup
  get-desensitize_fields end = refl
  get-desensitize_fields (field k v fs) = ground (arith, get-desensitize_fields fs)

  text_or-desensitize :
      (found : Option Value) (parts : List Text)
      → text_or
          (or_null (map_option (desensitize_string digit patterns) found))
          (map masked_text parts)
        ≡ map masked_text (text_or (or_null found) parts)
  text_or-desensitize none parts = refl
  text_or-desensitize (some (string s)) parts = refl
  text_or-desensitize (some _) parts = refl

  get_or_else-map :
      (o : Option (List Text))
      → get_or_else (map_option (map masked_text) o) [] ≡ map masked_text (get_or_else o [])
  get_or_else-map none = refl
  get_or_else-map (some ps) = refl

  parts_of_one :
      (k : Text) (v inner : Value) (fs : Fields) (later : Option (List Text))
      → content_parts inner ≡ map masked_text (content_parts v)
      → (if k == str "content"
          then some (content_parts (field_value digit patterns k v inner))
          else map_option (map masked_text) later)
        ≡ map_option
            (map masked_text)
            (if k == str "content" then some (content_parts v) else later)
  parts_of_one k v inner fs later h = ground (
    arith,
    eq_iff k (str "content"),
    eq_iff k (str "text"),
    text_ne_content,
    eq_iff (str "text") (str "content"),
  )

  mutual
    unfolding desensitize_content content_parts

    parts-desensitize :
        (v : Value)
        → content_parts (desensitize_content digit patterns v) ≡ map masked_text (content_parts v)
    parts-desensitize (string s) = refl
    parts-desensitize (array xs) = parts-desensitize_items xs
    parts-desensitize (object fs) = refl
    parts-desensitize _ = refl

    parts-desensitize_items :
        (xs : Items)
        → list_parts (desensitize_items digit patterns xs) ≡ map masked_text (list_parts xs)
    parts-desensitize_items nil = refl
    parts-desensitize_items (cons x xs) = rw (parts-desensitize_item x) (
        rw (parts-desensitize_items xs)
          (sym (map-append masked_text (item_parts x) (list_parts xs))))

    parts-desensitize_item :
        (v : Value)
        → item_parts (desensitize_item digit patterns v) ≡ map masked_text (item_parts v)
    parts-desensitize_item (string s) = refl
    parts-desensitize_item (object fs) = rw (get-desensitize_fields fs) (
        rw (parts-desensitize_fields fs) (
          rw (get_or_else-map (parts_of_content fs))
            (text_or-desensitize (get (str "text") fs) (get_or_else (parts_of_content fs) []))))
    parts-desensitize_item _ = refl

    parts-desensitize_fields :
        (fs : Fields)
        → parts_of_content (desensitize_fields digit patterns fs)
          ≡ map_option (map masked_text) (parts_of_content fs)
    parts-desensitize_fields end = refl
    parts-desensitize_fields (field k v fs) = rw (parts-desensitize_fields fs) (
        parts_of_one k v (desensitize_content digit patterns v) fs (parts_of_content fs)
          (parts-desensitize v))

  -- The texts read from a masked message content are the masked texts that are read from the
  -- content, one by one and in order, whatever the nesting of its lists and dicts: nothing that the
  -- scan of a message reads is left unmasked.
  pub content_parts-desensitize_content :
      (content : Value)
      → content_parts (desensitize_content digit patterns content)
        ≡ map (desensitize_text digit patterns) (content_parts content)
  content_parts-desensitize_content content = parts-desensitize content
