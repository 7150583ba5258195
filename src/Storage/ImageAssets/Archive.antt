-- ===== src/Storage/ImageAssets/Archive.antt =====
-- storage/image_assets.py: `archive_response`, from the images of an answer to their records.
use nf_safety_hub.Prelude.{
  ℕ, ◌≤◌, true, Option, none, some, List, [], ◌++◌, map, if◌then◌else◌, is_empty, length, ltb, take,
  ◌≡◌,
}
use nf_safety_hub.Prelude.Text.{Text, str, ◌==◌}
use nf_safety_hub.Prelude.Text.Decimal.{decimal}
use nf_safety_hub.Json.{Value}
use nf_safety_hub.Storage.ImageAssets.{
  Web, ImageAssetSource, detect_mime_type, extension_for_mime_type, extract_image_asset_sources,
}
use nf_safety_hub.Storage.ImageAssets.Fetch.{download_url}

-- What became of a source: a file with its path, hash, type and content, or a failure.
pub data Outcome : Type 0 where
  completed : (local_path sha256 mime_type content : Text) → Outcome
  failed : Outcome

-- The row of an `ImageAsset`, without its times and the text of its error.
pub record ImageAsset : Type 0 where
  pub request_id : Text
  pub source : ImageAssetSource
  pub outcome : Outcome

module _ (w : Web) where
  abbrev detected : Option Text → Option (Text × Text)
  detected none = none
  detected (some content) = some (content, detect_mime_type content)

  -- the content of a source and its type
  unfoldable pub source_content : ImageAssetSource → Option (Text × Text)
  source_content s =
      if s.source_type == str "b64_json"
      then detected (w.b64decode s.b64_json)
      else if s.source_type == str "url"
      then (download_url w s.url).1
      else none

  unfoldable pub path_of : Text → ℕ → Text → Text → Text
  path_of request_id index file_hash mime_type =
      request_id
      ++ str "/"
      ++ decimal index
      ++ str "_"
      ++ take 16 file_hash
      ++ extension_for_mime_type mime_type

  abbrev pub stored : Text → ImageAssetSource → Option (Text × Text) → Outcome
  stored request_id s none = failed
  stored request_id s (some (content, mime_type)) =
      let file_hash = w.sha256 content in
      let path = path_of request_id s.index file_hash mime_type in
      if ltb w.max_size_bytes (length content)
      then failed
      else if w.writable path
      then completed path file_hash mime_type content
      else failed

  -- `_archive_source` with the `except` around it; the database takes every row
  unfoldable pub archive_source : Text → ImageAssetSource → ImageAsset
  unfolding source_content path_of
  archive_source request_id s = record {
    request_id = request_id;
    source = s;
    outcome = stored request_id s (source_content s);
  }

  -- `archive_response`
  unfoldable pub archive_response : Text → Value → List ImageAsset
  unfolding archive_source
  archive_response request_id payload =
      if is_empty request_id
      then []
      else map (archive_source request_id) (extract_image_asset_sources payload)

  -- A completed asset is within the limit, under the hash of its content.
  abbrev pub IsKept : Outcome → Type 0
  IsKept failed = Unit
  IsKept (completed path file_hash mime_type content) =
      (length content ≤ w.max_size_bytes)
      × (file_hash ≡ w.sha256 content)
      × (w.writable path ≡ true)
