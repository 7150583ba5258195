-- ===== src/Tests/Messages.antt =====
-- Request bodies and headers for proxy/.
use nf_safety_hub.Prelude.{
  ℕ, leb, length, map, reverse, Bool, true, none, some, [], ◌∷◌, All, ◌≡◌, ◌≢◌, ◌↔◌, refl, ◌&&◌,
}
use nf_safety_hub.Prelude.Text.{Text, str, is_one_of, ◌==◌}
use nf_safety_hub.Prelude.Dict.{lookup, assign}
use nf_safety_hub.Json.{
  null, string, array, object, Items, nil, cons, Fields, end, field, items, get,
}
use nf_safety_hub.Engine.Results.{AggregatedScanResult}
use nf_safety_hub.Proxy.Extract.{extract_latest_text_from_messages, content_parts, has_role}
use nf_safety_hub.Proxy.Extract.Laws.{IsLatest, extract-IsLatest}
use nf_safety_hub.Proxy.Desensitize.{
  Pattern, desensitize_content, desensitize_text, desensitize_message,
  desensitize_chat_request_body, desensitize_roles,
}
use nf_safety_hub.Proxy.Desensitize.Laws.{content_parts-desensitize_content}
use nf_safety_hub.Proxy.Desensitize.Body.{
  AllRewritten, desensitize_chat_request_body_lem, desensitize_message-missing,
}
use nf_safety_hub.Proxy.Headers.{Headers, build_upstream_headers}
use nf_safety_hub.Proxy.Headers.Upstream.{Allowed, build_upstream_headers-Allowed}
use nf_safety_hub.Proxy.Fake.{Templates}

abbrev digit : ℕ → Bool
digit c = leb 48 c && leb c 57

-- finds a phone number that is the whole text
abbrev whole_text : Pattern
whole_text text = record { start = 0; stop = length text } ∷ []

abbrev phone : Text
phone = str "13812345678"

abbrev user_message : Fields
user_message = field (str "role") (string (str "user")) (field (str "content") (string phone) end)

abbrev system_message : Fields
system_message =
    field (str "role") (string (str "system")) (field (str "content") (string phone) end)

abbrev bare_message : Fields
bare_message = field (str "role") (string (str "user")) end

abbrev messages : Items
messages = cons (object user_message) (cons (object system_message) nil)

abbrev body : Fields
body = field (str "model") (string (str "m")) (field (str "messages") (array messages) end)

phone-not_empty : phone ≢ []
unfolding str
phone-not_empty e = absurd (cc e)

extract-IsLatest_example :
    (extract_latest_text_from_messages (array messages) ≡ some phone)
    ↔ IsLatest (reverse (items messages)) phone
extract-IsLatest_example = extract-IsLatest messages phone phone-not_empty

content_parts-desensitize_content_example :
    content_parts (desensitize_content digit (whole_text ∷ []) (array (cons (string phone) nil)))
    ≡ map
        (desensitize_text digit (whole_text ∷ []))
        (content_parts (array (cons (string phone) nil)))
content_parts-desensitize_content_example =
    content_parts-desensitize_content digit (whole_text ∷ []) (array (cons (string phone) nil))

abbrev masked_body : Fields
masked_body = field (str "model") (string (str "m")) (
    field (str "messages")
      (array (
        cons
          (object (
            field (str "role") (string (str "user"))
              (field (str "content") (string (str "138****5678")) end)))
          (cons (object system_message) nil)))
      end)

body-masked : desensitize_chat_request_body digit (whole_text ∷ []) body ≡ some masked_body
unfolding desensitize_chat_request_body lookup ◌==◌ str desensitize_message has_role is_one_of
    desensitize_roles assign desensitize_content desensitize_text
body-masked = refl

body-messages : get (str "messages") body ≡ some (array messages)
unfolding lookup str ◌==◌
body-messages = refl

patterns-not_empty : (whole_text ∷ []) ≢ []
patterns-not_empty e = absurd (cc e)

desensitize_chat_request_body_lem_example :
    ((key : Text) → key ≢ str "messages" → get key masked_body ≡ get key body)
    × ((rewritten : Items) × (get (str "messages") masked_body ≡ some (array rewritten))
        × AllRewritten digit (whole_text ∷ []) messages rewritten)
desensitize_chat_request_body_lem_example =
    desensitize_chat_request_body_lem digit (whole_text ∷ []) body masked_body messages
      patterns-not_empty body-messages body-masked

bare_message-role : has_role desensitize_roles bare_message ≡ some true
unfolding has_role desensitize_roles lookup str ◌==◌ is_one_of
bare_message-role = refl

bare_message-content : get (str "content") bare_message ≡ none
unfolding lookup str ◌==◌
bare_message-content = refl

desensitize_message-missing_example :
    (after : Fields) × ((desensitize_message digit (whole_text ∷ []) (object bare_message)
        ≡ some (object after))
      × ((get (str "content") after ≡ some null) × (object after ≢ object bare_message)))
desensitize_message-missing_example =
    desensitize_message-missing digit (whole_text ∷ []) bare_message bare_message-role
      bare_message-content

abbrev headers : Headers
headers =
    (str "Host", str "a")
    ∷ (str "AUTHORIZATION", str "Bearer client")
    ∷ (str "Accept", str "b")
    ∷ (str "X-Admin-Token", str "c")
    ∷ []

build_upstream_headers-Allowed_example :
    All
      (Allowed (some (str "key")))
      (build_upstream_headers headers (some (str "id")) (some (str "key")))
build_upstream_headers-Allowed_example =
    build_upstream_headers-Allowed headers (some (str "id")) (some (str "key"))

accept-not_authorization : str "Accept" ≢ str "Authorization"
unfolding str
accept-not_authorization e = absurd (cc e)

accept-not_request_id : str "Accept" ≢ str "X-Request-ID"
unfolding str
accept-not_request_id e = absurd (cc e)

abbrev templates : Templates
templates = record { block = str "blocked"; warn = str "warned" }

abbrev no_results : AggregatedScanResult
no_results = record { results = []; normalized_text = [] }
