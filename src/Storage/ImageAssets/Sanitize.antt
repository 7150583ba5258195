-- ===== src/Storage/ImageAssets/Sanitize.antt =====
-- What `sanitize_image_response_payload` of storage/image_assets.py takes away, and what not.
use nf_safety_hub.Prelude.{
  ℕ, suc, Option, none, some, ◌++◌, map, if◌then◌else◌, ◌≡◌, refl, map_option,
}
use mathlib.Core.List.{map-append}
use nf_safety_hub.Prelude.Text.{Text, str, ◌==◌, eq_refl}
use nf_safety_hub.Json.{
  Value, string, array, object, Items, nil, cons, Fields, get_value, get-write,
}
use nf_safety_hub.Storage.ImageAssets.{
  ImageAssetSource, text_of, url_source, b64_source, item_sources, items_sources, data_sources,
  extract_image_asset_sources, archived_image, redact, sanitize_item, sanitize_items, with_data,
  sanitize_image_response_payload,
}

-- A source with its image text replaced, if it has one.
abbrev pub redacted : ImageAssetSource → ImageAssetSource
redacted s = record s {
  b64_json = if s.source_type == str "b64_json" then archived_image else s.b64_json;
}

map-sources :
    (index : ℕ) (url b64 : Option Text)
    → map redacted (url_source index url ++ b64_source index b64)
      ≡ url_source index url ++ b64_source index (map_option (λ t. archived_image) b64)
unfolding str ◌==◌
map-sources index none none = refl
map-sources index none (some b64) = refl
map-sources index (some url) none = refl
map-sources index (some url) (some b64) = refl

url-redact :
    (item : Fields) (b64 : Option Text)
    → text_of (get_value (str "url") (redact item b64)) ≡ text_of (get_value (str "url") item)
unfolding str ◌==◌
url-redact item none = refl
url-redact item (some b64) =
    rw (get-write (str "b64_json") (str "url") (string archived_image) item) refl

b64-redact :
    (item : Fields) (b64 : Option Text)
    → text_of (get_value (str "b64_json") item) ≡ b64
    → text_of (get_value (str "b64_json") (redact item b64)) ≡ map_option (λ t. archived_image) b64
unfolding str ◌==◌ archived_image
b64-redact item none e = e
b64-redact item (some b64) e =
    rw (get-write (str "b64_json") (str "b64_json") (string archived_image) item) refl

item_sources-sanitize_item :
    (index : ℕ) (item : Value)
    → item_sources index (sanitize_item item) ≡ map redacted (item_sources index item)
unfolding item_sources sanitize_item
item_sources-sanitize_item index (object item) =
    let b64 = text_of (get_value (str "b64_json") item) in
    rw
      (
        url-redact item b64,
        b64-redact item b64 refl,
        map-sources index (text_of (get_value (str "url") item)) b64,
      )
      refl
item_sources-sanitize_item index _ = refl

items_sources-sanitize_items :
    (index : ℕ) (items : Items)
    → items_sources index (sanitize_items items) ≡ map redacted (items_sources index items)
unfolding items_sources sanitize_items
items_sources-sanitize_items index nil = refl
items_sources-sanitize_items index (cons item items) =
    rw
      (
        item_sources-sanitize_item index item,
        items_sources-sanitize_items (suc index) items,
        map-append,
      )
      refl

data_sources-with_data :
    (payload : Fields) (v : Value)
    → get_value (str "data") payload ≡ v
    → data_sources (get_value (str "data") (with_data payload v)) ≡ map redacted (data_sources v)
unfolding items_sources
data_sources-with_data payload (array items) e =
    rw
      (
        get-write (str "data") (str "data") (array (sanitize_items items)) payload,
        eq_refl (str "data"),
      )
      (items_sources-sanitize_items 0 items)
data_sources-with_data payload _ e = rw e refl

-- The images of a sanitised answer are those of the answer, with the same URLs in the same places, but
-- with the placeholder for the content of each one that had some.
pub extract-sanitize :
    (payload : Value)
    → extract_image_asset_sources (sanitize_image_response_payload payload)
      ≡ map redacted (extract_image_asset_sources payload)
unfolding extract_image_asset_sources sanitize_image_response_payload
extract-sanitize (object payload) =
    data_sources-with_data payload (get_value (str "data") payload) refl
extract-sanitize _ = refl
