-- ===== src/Tests/Keys.antt =====
-- Keys and calls for governance/ and middleware/identity.py.
use nf_safety_hub.Prelude.{length, true, false, none, some, ◌⊎◌, List, [], ◌∷◌, ◌≡◌, ◌≢◌, refl}
use nf_safety_hub.Prelude.Text.{Text, str, ◌==◌, starts_with, strip, is_space, partition, lower}
use nf_safety_hub.Proxy.Relay.{RequestIdentity}
use nf_safety_hub.Governance.ApiKeys.{
  ApiKeyRecord, Service, Store, returned, is_record_active, hash_api_key, decrypt, find_by_id,
  find_by_hash, update_row,
}
use nf_safety_hub.Governance.ApiKeys.Operations.{
  Field, update, set_field, set_fields, mark_revoked, revoke,
}
use nf_safety_hub.Governance.ApiKeys.Operations.Lifecycle.{Operation, updates, perform}
use nf_safety_hub.Governance.ApiKeys.Operations.Revocation.{perform_all, revoke-IsFinal}
use nf_safety_hub.Governance.Identity.{
  passes, dispatch, no_identity, IsAuthentic, CountCache, CountedNone, api_key_count,
  serve-IsAuthentic,
}

-- A hash that keeps the text, and an encryption that does too.
abbrev service : Service
service = record {
  sha256 = λ text. text;
  fernet_encrypt = λ text. text;
  fernet_decrypt = λ text. some text;
  key_provider = none;
}

abbrev key_of : Text → Text → ApiKeyRecord
key_of id secret = record {
  id = id;
  key_hash = secret;
  key_prefix = secret;
  key_suffix = secret;
  name = str "name";
  owner_user_id = str "owner";
  owner_department = none;
  cost_center = none;
  status = str "active";
  provider_name = str "passthrough";
  upstream_key_id = none;
  upstream_key_prefix = [];
  upstream_key_encrypted = str "v2:upstream";
  safetyhub_key_encrypted = [];
  is_decoupled = true;
  expires_at = some 100;
  created_at = 0;
  revoked_at = none;
}

abbrev store : Store
store = record {
  rows = key_of (str "ak_1") (str "first") ∷ key_of (str "ak_2") (str "second") ∷ [];
  revoked_upstream = [];
}

abbrev second_identity : RequestIdentity
second_identity = record {
  api_key_id = str "ak_2";
  user_id = str "owner";
  upstream_api_key = str "upstream";
  key_prefix = str "second";
}

models_path-v1 : starts_with (str "/v1/models") (str "/v1/") ≡ true
unfolding starts_with str
models_path-v1 = refl

second-passes :
    dispatch service store.rows 2 false 50 (str "/v1/models") (str "Bearer second")
    ≡ passes second_identity
unfolding dispatch starts_with str find_by_hash hash_api_key strip partition lower is_record_active
    decrypt ◌==◌ is_space
second-passes = refl

abbrev cache : CountCache
cache = record { seconds = 5; until = 3; value = some 2 }

second-served :
    dispatch service store.rows
      (api_key_count cache 1 (length store.rows)).0
      false
      50
      (str "/v1/models")
      (str "Bearer second")
    ≡ passes second_identity
unfolding api_key_count
second-served = second-passes

serve-IsAuthentic_example :
    IsAuthentic service store.rows 50 (str "Bearer second") second_identity
    ⊎ ((false ≡ true) × ((second_identity ≡ no_identity) × CountedNone service store.rows cache 1))
serve-IsAuthentic_example =
    serve-IsAuthentic service store.rows store.rows cache 1 false 50 (str "/v1/models")
      (str "Bearer second") second_identity models_path-v1 second-served

abbrev calls : List Operation
calls = updates (str "ak_1") (Field.name (some (str "other")) ∷ []) ∷ []

first-revoked :
    (revoke service store (str "ak_1") 10).1
    ≡ returned (mark_revoked 10 (key_of (str "ak_1") (str "first")))
unfolding revoke find_by_id str ◌==◌ mark_revoked
first-revoked = refl

second-still_passes :
    dispatch service
      (perform_all service (revoke service store (str "ak_1") 10).0 calls).rows
      2
      false
      50
      (str "/v1/models")
      (str "Bearer second")
    ≡ passes second_identity
unfolding dispatch starts_with str find_by_hash hash_api_key strip partition lower is_record_active
    decrypt ◌==◌ is_space perform_all perform update set_field revoke find_by_id update_row
    mark_revoked set_fields
second-still_passes = refl

revoke-IsFinal_example : second_identity.api_key_id ≢ str "ak_1"
revoke-IsFinal_example =
    revoke-IsFinal service store (str "ak_1") (mark_revoked 10 (key_of (str "ak_1") (str "first")))
      10 calls 2 false 50 (str "/v1/models") (str "Bearer second") second_identity first-revoked
      (tt, tt) models_path-v1 refl second-still_passes
