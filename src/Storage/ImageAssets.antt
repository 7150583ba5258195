-- ===== src/Storage/ImageAssets.antt =====
-- storage/image_assets.py: `ImageAssetArchiver` and the functions below it.
-- The network, the parser of URLs, the tables of `ipaddress` and SHA-256 are a record of functions.
-- What a download fetches and what is written are lists, in order. `none` stands for an exception.
pub mod Fetch
pub mod Archive
pub mod Sanitize
use nf_safety_hub.Prelude.{
  ℕ, zero, suc, ◌+◌, ◌*◌, Bool, true, false, not, ◌&&◌, ◌||◌, Option, none, some, List, [], ◌∷◌,
  ◌++◌, if◌then◌else◌, is_empty, take, drop, length, ltb, leb, all, eqb,
}
use nf_safety_hub.Prelude.Text.{Text, str, ◌==◌, starts_with, lower, strip, partition, is_one_of}
use nf_safety_hub.Prelude.Text.Decimal.{decimal}
use nf_safety_hub.Json.{
  Value, null, string, array, object, Items, nil, cons, Fields, get_value, write,
}

pub record ImageAssetSource : Type 0 where
  pub index : ℕ
  pub source_type : Text
  pub url : Text
  pub b64_json : Text

-- What `ipaddress` says of an address.
pub record Ip : Type 0 where
  pub is_private : Bool
  pub is_loopback : Bool
  pub is_link_local : Bool
  pub is_multicast : Bool
  pub is_reserved : Bool
  pub is_unspecified : Bool

-- `urlparse`; the host is empty if there is none.
pub record ParsedUrl : Type 0 where
  pub scheme : Text
  pub hostname : Text

-- A header that is missing is empty.
pub record Response : Type 0 where
  pub status_code : ℕ
  pub location : Text
  pub content_type : Text
  pub content : Text

pub record Web : Type 0 where
  pub urlparse : Text → ParsedUrl
  pub ip_address : Text → Option Ip
  -- what the names resolve to and the servers answer, by the number of the check before it
  pub getaddrinfo : ℕ → Text → Option (List Text)
  pub get : ℕ → Text → Option Response
  pub join : Text → Text → Text
  pub b64decode : Text → Option Text
  pub sha256 : Text → Text
  -- whether the directory and the file can be written
  pub writable : Text → Bool
  pub max_size_bytes : ℕ

-- `_validate_public_ip`, whether it passes
unfoldable pub is_public_ip : Ip → Bool
is_public_ip ip = not (
    ip.is_private
    || (ip.is_loopback
        || (ip.is_link_local || (ip.is_multicast || (ip.is_reserved || ip.is_unspecified)))))

-- `_detect_mime_type`
unfoldable pub detect_mime_type : Text → Text
detect_mime_type content =
    if starts_with content (0x89 ∷ str "PNG" ++ 13 ∷ 10 ∷ 26 ∷ 10 ∷ [])
    then str "image/png"
    else if starts_with content (0xff ∷ 0xd8 ∷ 0xff ∷ [])
    then str "image/jpeg"
    else if starts_with content (str "GIF87a") || starts_with content (str "GIF89a")
    then str "image/gif"
    else if starts_with content (str "RIFF") && take 4 (drop 8 content) == str "WEBP"
    then str "image/webp"
    else str "application/octet-stream"

-- `_extension_for_mime_type`
unfoldable pub extension_for_mime_type : Text → Text
extension_for_mime_type mime_type =
    if mime_type == str "image/png"
    then str ".png"
    else if mime_type == str "image/jpeg"
    then str ".jpg"
    else if mime_type == str "image/gif"
    then str ".gif"
    else if mime_type == str "image/webp"
    then str ".webp"
    else str ".bin"

-- a text that is not empty, under a key of an item
abbrev pub text_of : Value → Option Text
text_of (string []) = none
text_of (string (c ∷ cs)) = some (c ∷ cs)
text_of _ = none

abbrev pub url_source : ℕ → Option Text → List ImageAssetSource
url_source index none = []
url_source index (some url) =
    record { index = index; source_type = str "url"; url = url; b64_json = [] } ∷ []

abbrev pub b64_source : ℕ → Option Text → List ImageAssetSource
b64_source index none = []
b64_source index (some b64) =
    record { index = index; source_type = str "b64_json"; url = []; b64_json = b64 } ∷ []

-- the sources of one item
unfoldable pub item_sources : ℕ → Value → List ImageAssetSource
item_sources index (object item) =
    url_source index (text_of (get_value (str "url") item))
    ++ b64_source index (text_of (get_value (str "b64_json") item))
item_sources index _ = []

unfoldable pub items_sources : ℕ → Items → List ImageAssetSource
items_sources index nil = []
items_sources index (cons item items) = item_sources index item ++ items_sources (suc index) items

abbrev pub data_sources : Value → List ImageAssetSource
data_sources (array items) = items_sources 0 items
data_sources _ = []

unfoldable pub extract_image_asset_sources : Value → List ImageAssetSource
unfolding items_sources
extract_image_asset_sources (object payload) = data_sources (get_value (str "data") payload)
extract_image_asset_sources _ = []

unfoldable pub archived_image : Text
archived_image = str "[archived:image_b64]"

abbrev pub redact : Fields → Option Text → Fields
redact item none = item
redact item (some b64) = write (str "b64_json") (string archived_image) item

unfoldable pub sanitize_item : Value → Value
sanitize_item (object item) = object (redact item (text_of (get_value (str "b64_json") item)))
sanitize_item v = v

unfoldable pub sanitize_items : Items → Items
unfolding sanitize_item
sanitize_items nil = nil
sanitize_items (cons item items) = cons (sanitize_item item) (sanitize_items items)

abbrev pub with_data : Fields → Value → Fields
with_data payload (array items) = write (str "data") (array (sanitize_items items)) payload
with_data payload _ = payload

unfoldable pub sanitize_image_response_payload : Value → Value
unfolding sanitize_items
sanitize_image_response_payload (object payload) =
    object (with_data payload (get_value (str "data") payload))
sanitize_image_response_payload v = v
