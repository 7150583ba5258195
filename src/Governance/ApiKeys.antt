-- ===== src/Governance/ApiKeys.antt =====
-- governance/api_keys.py: `ApiKeyService` over the table of keys. SHA-256, Fernet and the provider of
-- upstream keys are parameters. A method runs on the table as one step; the id, the time and the
-- random tokens that it draws are arguments. Calls of the provider's `revoke_key` are recorded.
pub mod Operations
use nf_safety_hub.Prelude.{
  ℕ, ◌+◌, ◌-◌, Bool, true, false, not, ◌&&◌, ◌||◌, Option, none, some, List, [], ◌∷◌, ◌++◌, map,
  filter, find, any, if◌then◌else◌, is_empty, is_some, get_or_else, length, take, drop, leb, ltb,
}
use nf_safety_hub.Prelude.Text.{Text, str, ◌==◌, starts_with, strip}

-- A row, without the three columns that the service neither reads nor writes.
pub record ApiKeyRecord : Type 0 where
  pub id : Text
  pub key_hash : Text
  pub key_prefix : Text
  pub key_suffix : Text
  pub name : Text
  pub owner_user_id : Text
  pub owner_department : Option Text
  pub cost_center : Option Text
  pub status : Text
  pub provider_name : Text
  pub upstream_key_id : Option Text
  pub upstream_key_prefix : Text
  pub upstream_key_encrypted : Text
  pub safetyhub_key_encrypted : Text
  pub is_decoupled : Bool
  pub expires_at : Option ℕ
  pub created_at : ℕ
  pub revoked_at : Option ℕ

pub record ApiKeyCreate : Type 0 where
  pub name : Text
  pub owner_user_id : Text
  pub upstream_key : Text
  pub reuse_upstream_key : Bool
  pub expires_at : Option ℕ
  pub provider_name : Text
  pub owner_department : Option Text
  pub cost_center : Option Text
  pub create_mode : Text

-- `UpstreamKeyInfo`, without what is not read
pub record UpstreamKeyInfo : Type 0 where
  pub key_id : Text
  pub key_secret : Option Text

-- `create_key` is `none` and `revoke_key` is `false` where the provider raises.
pub record KeyProvider : Type 0 where
  pub provider_name : Text
  pub create_key : (name owner_user_id : Text) → (expires_at : Option ℕ) → Option UpstreamKeyInfo
  pub revoke_key : Text → Bool

pub record Service : Type 0 where
  pub sha256 : Text → Text
  pub fernet_encrypt : Text → Text
  pub fernet_decrypt : Text → Option Text
  pub key_provider : Option KeyProvider

-- What a method draws: `uuid4`, `utc_now` and the tokens of `token_urlsafe`, one a round.
pub record Draws : Type 0 where
  pub uuid : Text
  pub now : ℕ
  pub tokens : List Text

pub record Store : Type 0 where
  pub rows : List ApiKeyRecord
  pub revoked_upstream : List Text

pub record ApiKeyCreateResult : Type 0 where
  pub record_ : ApiKeyRecord
  pub safetyhub_key : Option Text

-- A result, `None`, or an exception.
pub data Result (A : Type 0) : Type 0 where
  returned : A → Result A
  missing : Result A
  failed : Text → Result A

unfoldable pub find_by_id : Text → List ApiKeyRecord → Option ApiKeyRecord
find_by_id id rows = find (λ r. r.id == id) rows

unfoldable pub find_by_hash : Text → List ApiKeyRecord → Option ApiKeyRecord
find_by_hash key_hash rows = find (λ r. r.key_hash == key_hash) rows

-- the changes of attributes of one record, committed
unfoldable pub update_row :
    Text → (ApiKeyRecord → ApiKeyRecord) → List ApiKeyRecord → List ApiKeyRecord
update_row id f rows = map (λ r. if r.id == id then f r else r) rows

-- `key_prefix`
unfoldable pub prefix_of : Text → Text
prefix_of raw_key = take 12 (strip raw_key)

-- `key_suffix`
unfoldable pub suffix_of : Text → Text
suffix_of raw_key = drop (length (strip raw_key) - 6) (strip raw_key)

-- `is_record_active`
unfoldable pub is_record_active : ApiKeyRecord → ℕ → Bool
is_record_active record_ now =
    record_.status == str "active"
    && not (elim record_.expires_at [ none ↦ false | some t ↦ leb t now ])

-- `_validate_key`, whether it passes
unfoldable pub is_valid_key : Text → Bool
is_valid_key raw_key = leb 8 (length raw_key)

abbrev pub non_empty : Text → Text → Text
non_empty [] default = default
non_empty (c ∷ cs) default = c ∷ cs

module _ (s : Service) where
  unfoldable pub hash_api_key : Text → Text
  hash_api_key raw_key = s.sha256 (strip raw_key)

  -- `ApiKeyCrypto.encrypt`
  unfoldable pub encrypt : Text → Text
  encrypt value = str "v2:" ++ s.fernet_encrypt value

  -- `ApiKeyCrypto.decrypt`, `none` for its `ValueError`
  unfoldable pub decrypt : Text → Option Text
  decrypt value = if starts_with value (str "v2:") then s.fernet_decrypt (drop 3 value) else none

  -- `_build_api_key_record`
  unfoldable pub build_api_key_record :
      ApiKeyCreate → (upstream_key safetyhub_key : Text) → Option Text → Draws → ApiKeyRecord
  build_api_key_record payload upstream_key safetyhub_key upstream_key_id d = record {
    id = str "ak_" ++ d.uuid;
    key_hash = hash_api_key safetyhub_key;
    key_prefix = prefix_of safetyhub_key;
    key_suffix = suffix_of safetyhub_key;
    name = strip payload.name;
    owner_user_id = strip payload.owner_user_id;
    owner_department = payload.owner_department;
    cost_center = payload.cost_center;
    status = str "active";
    provider_name = non_empty (strip payload.provider_name) (str "passthrough");
    upstream_key_id = upstream_key_id;
    upstream_key_prefix = prefix_of upstream_key;
    upstream_key_encrypted = encrypt upstream_key;
    safetyhub_key_encrypted = encrypt safetyhub_key;
    is_decoupled = not (safetyhub_key == upstream_key);
    expires_at = payload.expires_at;
    created_at = d.now;
    revoked_at = none;
  }

  -- `_generate_unique_safetyhub_key`, over the tokens of its rounds
  unfoldable pub generate_unique : List Text → List ApiKeyRecord → Option Text
  generate_unique [] rows = none
  generate_unique (token ∷ tokens) rows =
      let later = generate_unique tokens rows in
      let key = str "sk-sh-" ++ token in
      if is_some (find_by_hash (hash_api_key key) rows) then later else some key

  -- the key of a new record: the given one, if it is not empty, or a generated one
  unfoldable pub actual_key : Option Text → Draws → List ApiKeyRecord → Option Text
  unfolding generate_unique
  actual_key none d rows = generate_unique (take 10 d.tokens) rows
  actual_key (some []) d rows = generate_unique (take 10 d.tokens) rows
  actual_key (some (c ∷ cs)) d rows = some (c ∷ cs)

  -- `session.add` and `commit`, which raises where the primary key is taken
  unfoldable pub insert : ApiKeyRecord → List ApiKeyRecord → Option (List ApiKeyRecord)
  insert r rows =
      if is_some (find_by_hash r.key_hash rows)
      then none
      else if is_some (find_by_id r.id rows)
      then none
      else some (r ∷ rows)
