-- ===== src/Governance/ApiKeys/Operations.antt =====
-- governance/api_keys.py: the methods of `ApiKeyService` that change the table.
pub mod Creation
pub mod Lifecycle
pub mod Revocation
use nf_safety_hub.Prelude.{
  ℕ, Bool, true, false, not, ◌&&◌, ◌||◌, Option, none, some, List, [], ◌∷◌, ◌++◌, filter,
  if◌then◌else◌, is_empty, get_or_else,
}
use nf_safety_hub.Prelude.Text.{Text, str, ◌==◌, starts_with, strip}
use nf_safety_hub.Governance.ApiKeys.{
  ApiKeyRecord, ApiKeyCreate, ApiKeyCreateResult, UpstreamKeyInfo, KeyProvider, Service, Draws,
  Store, Result, returned, missing, failed, find_by_id, find_by_hash, update_row, prefix_of,
  is_valid_key, hash_api_key, encrypt, build_api_key_record, actual_key, insert,
}

-- What `update` may be given for a field: the value of a column, or a name that is not allowed.
pub data Field : Type 0 where
  name owner_user_id owner_department cost_center : Option Text → Field
  expires_at : Option ℕ → Field
  not_allowed : Field

-- the attribute of a text column that must not become empty
abbrev stripped_or : Option Text → Text → Text
stripped_or none old = old
stripped_or (some value) old = if is_empty (strip value) then old else strip value

-- one round of the loop of `update`
unfoldable pub set_field : Field → ApiKeyRecord → ApiKeyRecord
set_field (name value) r = record r { name = stripped_or value r.name }
set_field (owner_user_id value) r = record r { owner_user_id = stripped_or value r.owner_user_id }
set_field (owner_department value) r = record r { owner_department = value }
set_field (cost_center value) r = record r { cost_center = value }
set_field (expires_at value) r = record r { expires_at = value }
set_field not_allowed r = r

unfoldable pub set_fields : List Field → ApiKeyRecord → ApiKeyRecord
unfolding set_field
set_fields [] r = r
set_fields (f ∷ fs) r = set_fields fs (set_field f r)

unfoldable pub mark_revoked : ℕ → ApiKeyRecord → ApiKeyRecord
mark_revoked now r = record r { status = str "revoked"; revoked_at = some now }

abbrev update_found : Store → Text → List Field → Option ApiKeyRecord → Store × Result ApiKeyRecord
update_found st id fields none = (st, missing)
update_found st id fields (some r) =
    (record st { rows = update_row id (set_fields fields) st.rows }, returned (set_fields fields r))

-- `update`
unfoldable pub update : Store → Text → List Field → Store × Result ApiKeyRecord
update st id fields = update_found st id fields (find_by_id id st.rows)

-- `delete_revoked`
abbrev delete_found : Store → Text → Option ApiKeyRecord → Store × Result Bool
delete_found st id none = (st, missing)
delete_found st id (some r) =
    if r.status == str "revoked"
    then (record st { rows = filter (λ r. not (r.id == id)) st.rows }, returned true)
    else (st, failed (str "only revoked api key can be deleted"))

unfoldable pub delete_revoked : Store → Text → Store × Result Bool
delete_revoked st id = delete_found st id (find_by_id id st.rows)

module _ (s : Service) where
  abbrev created :
      Store
      → ApiKeyRecord
      → Text
      → Bool
      → Option (List ApiKeyRecord)
      → Store × Result ApiKeyCreateResult
  created st r key reveal none = (st, failed (str "safetyhub api key already exists"))
  created st r key reveal (some rows) = (
    record st { rows = rows },
    returned (record { record_ = r; safetyhub_key = if reveal then some key else none }),
  )

  abbrev create_with :
      Store
      → ApiKeyCreate
      → Text
      → Option Text
      → Bool
      → Draws
      → Option Text
      → Store × Result ApiKeyCreateResult
  create_with st payload upstream_key key_id reveal d none =
      (st, failed (str "failed to generate unique safetyhub api key"))
  create_with st payload upstream_key key_id reveal d (some key) =
      let r = build_api_key_record s payload upstream_key key key_id d in
      created st r key reveal (insert s r st.rows)

  -- `_create_record`, with what `reveal_safetyhub_key` comes to
  unfoldable pub create_record :
      Store
      → ApiKeyCreate
      → Text
      → Option Text
      → Option Text
      → Bool
      → Draws
      → Store × Result ApiKeyCreateResult
  create_record st payload upstream_key safetyhub_key key_id reveal d =
      create_with st payload upstream_key key_id reveal d (actual_key s safetyhub_key d st.rows)

  abbrev rollback : Text → Store × Result ApiKeyCreateResult → Store × Result ApiKeyCreateResult
  rollback key_id (st, failed message) =
      if is_empty key_id
      then (st, failed message)
      else (record st { revoked_upstream = key_id ∷ st.revoked_upstream }, failed message)
  rollback key_id (st, r) = (st, r)

  abbrev create_upstream :
      Store → ApiKeyCreate → KeyProvider → Draws → Text → Text → Store × Result ApiKeyCreateResult
  create_upstream st payload p d key_id secret =
      if is_valid_key secret
      then rollback key_id (
          create_record st (record payload { provider_name = p.provider_name }) secret
            (if payload.reuse_upstream_key then some secret else none) (some key_id) true d)
      else (st, failed (str "api key is too short"))

  abbrev create_provided :
      Store
      → ApiKeyCreate
      → KeyProvider
      → Draws
      → Option UpstreamKeyInfo
      → Store × Result ApiKeyCreateResult
  create_provided st payload p d none = (st, failed (str "key provider failed"))
  create_provided st payload p d (some info) = elim info.key_secret [
    | none ↦ (st, failed (str "key provider did not return upstream key secret"))
    | some secret ↦
        if is_empty secret
        then (st, failed (str "key provider did not return upstream key secret"))
        else create_upstream st payload p d info.key_id secret
  ]

  abbrev create_with_provider :
      Store → ApiKeyCreate → Draws → Option KeyProvider → Store × Result ApiKeyCreateResult
  create_with_provider st payload d none = (st, failed (str "key provider is not configured"))
  create_with_provider st payload d (some p) =
      create_provided st payload p d
        (p.create_key (strip payload.name) (strip payload.owner_user_id) payload.expires_at)

  -- `create_from_provider`
  unfoldable pub create_from_provider :
      Store → ApiKeyCreate → Draws → Store × Result ApiKeyCreateResult
  unfolding create_record
  create_from_provider st payload d = create_with_provider st payload d s.key_provider

  -- `create`
  unfoldable pub create : Store → ApiKeyCreate → Draws → Store × Result ApiKeyCreateResult
  unfolding create_from_provider
  create st payload d =
      let key = strip payload.upstream_key in
      if payload.create_mode == str "provider"
      then create_from_provider st payload d
      else if is_valid_key key
      then create_record st payload key (if payload.reuse_upstream_key then some key else none) none
          (not payload.reuse_upstream_key) d
      else (st, failed (str "api key is too short"))

  -- the key that the provider has to revoke, if the record is one of its
  abbrev upstream_key_of : KeyProvider → ApiKeyRecord → Text
  upstream_key_of p r =
      if r.provider_name == p.provider_name then get_or_else r.upstream_key_id [] else []

  abbrev revoke_row : Store → Text → ApiKeyRecord → ℕ → Store × Result ApiKeyRecord
  revoke_row st id r now =
      (record st { rows = update_row id (mark_revoked now) st.rows }, returned (mark_revoked now r))

  abbrev revoke_found :
      Option KeyProvider → Store → Text → ApiKeyRecord → ℕ → Store × Result ApiKeyRecord
  revoke_found none st id r now = revoke_row st id r now
  revoke_found (some p) st id r now =
      let key_id = upstream_key_of p r in
      if is_empty key_id
      then revoke_row st id r now
      else if p.revoke_key key_id
      then revoke_row (record st { revoked_upstream = key_id ∷ st.revoked_upstream }) id r now
      else (st, failed (str "key provider failed"))

  abbrev revoke_if : Store → Text → ℕ → Option ApiKeyRecord → Store × Result ApiKeyRecord
  revoke_if st id now none = (st, missing)
  revoke_if st id now (some r) = revoke_found s.key_provider st id r now

  -- `revoke`
  unfoldable pub revoke : Store → Text → ℕ → Store × Result ApiKeyRecord
  revoke st id now = revoke_if st id now (find_by_id id st.rows)

  unfoldable pub set_upstream_key : Text → ApiKeyRecord → ApiKeyRecord
  set_upstream_key raw_key r = record r {
    upstream_key_encrypted = encrypt s raw_key;
    upstream_key_prefix = prefix_of raw_key;
    is_decoupled = true;
  }

  abbrev replace_found : Store → Text → Text → Option ApiKeyRecord → Store × Result ApiKeyRecord
  replace_found st id raw_key none = (st, missing)
  replace_found st id raw_key (some r) = (
    record st { rows = update_row id (set_upstream_key raw_key) st.rows },
    returned (set_upstream_key raw_key r),
  )

  -- `replace_upstream_key`
  unfoldable pub replace_upstream_key : Store → Text → Text → Store × Result ApiKeyRecord
  replace_upstream_key st id new_upstream_key =
      let raw_key = strip new_upstream_key in
      if is_valid_key raw_key
      then replace_found st id raw_key (find_by_id id st.rows)
      else (st, failed (str "api key is too short"))

  abbrev only : List ApiKeyRecord → Option ApiKeyRecord
  only (r ∷ []) = some r
  only _ = none

  abbrev or_else : Option ApiKeyRecord → Option ApiKeyRecord → Option ApiKeyRecord
  or_else none other = other
  or_else (some r) other = some r

  -- `_find_for_bulk_replace`
  unfoldable pub find_for_bulk_replace : List ApiKeyRecord → Text → Option ApiKeyRecord
  find_for_bulk_replace rows identifier =
      let value = strip identifier in
      if is_empty value
      then none
      else or_else (find_by_id value rows) (
          or_else
            (if starts_with value (str "sk-")
              then find_by_hash (hash_api_key s value) rows
              else none)
            (only (filter (λ r. r.key_prefix == value) rows)))

  abbrev replace_one : Store → Text → Option ApiKeyRecord → Store
  replace_one st key none = st
  replace_one st key (some r) = (replace_upstream_key st r.id key).0

  -- `bulk_replace`: each row names a key and its new upstream key; a row that fails changes
  -- nothing, and the report on the rows is left out
  unfoldable pub bulk_replace : Store → List (Text × Text) → Store
  unfolding find_for_bulk_replace replace_upstream_key
  bulk_replace st [] = st
  bulk_replace st ((identifier, key) ∷ rows) =
      bulk_replace (replace_one st key (find_for_bulk_replace st.rows identifier)) rows
