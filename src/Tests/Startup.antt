-- ===== src/Tests/Startup.antt =====
-- Settings for config.py and generations for runtime/reports.py.
use nf_safety_hub.Prelude.{false, none, some, [], ◌∷◌, ◌≡◌, ◌↔◌, ◌⊎◌, refl}
use nf_safety_hub.Prelude.Text.{str, ◌==◌, strip, starts_with, partition}
use nf_safety_hub.Startup.{Settings, Environment, is_production, validate_startup_settings}
use nf_safety_hub.Startup.Production.{IsReady, validate_startup_settings_iff}
use nf_safety_hub.Reports.{ReportPeriod, Request}
use nf_safety_hub.Reports.Generation.{World, begin, next, stays, begins}
use nf_safety_hub.Reports.Generation.Invariant.{IsAttendedWorld, Reach-IsAttendedWorld}

abbrev environment : Environment
environment = record { variable = λ name. []; files = (str "# keys" ∷ str "KEY = 'k'" ∷ []) ∷ [] }

abbrev settings : Settings
settings = record {
  environment = str "production";
  upstream_url = str "http://up";
  admin_password = str "short";
  data_encryption_key_env = str "KEY";
  allow_empty_api_keys_passthrough = false;
  key_provider_type = str "passthrough";
  key_provider_base_url = [];
  key_provider_username = [];
  key_provider_password_env = [];
  key_provider_auth_version = [];
}

short_password : validate_startup_settings environment settings ≡ some (str "ADMIN_PASSWORD" ∷ [])
unfolding validate_startup_settings str ◌==◌ strip starts_with partition
short_password = refl

validate_startup_settings_iff_example :
    (validate_startup_settings environment settings ≡ none)
    ↔ ((is_production settings ≡ false) ⊎ IsReady environment settings)
validate_startup_settings_iff_example = validate_startup_settings_iff environment settings

abbrev daily : ReportPeriod
daily = record { report_type = str "daily"; start = 0; end = 86400; label = str "1970-01-01" }

abbrev by_hand : Request
by_hand = record { mode = str "manual"; include_sensitive = false; generated_by = str "root" }

abbrev nothing_yet : World
nothing_yet = record { table = []; next_id = 1; generations = []; lost = [] }

Reach-IsAttendedWorld_example :
    IsAttendedWorld (begin 90 0 by_hand daily (begin 90 0 by_hand daily nothing_yet))
Reach-IsAttendedWorld_example =
    Reach-IsAttendedWorld nothing_yet
      (begin 90 0 by_hand daily (begin 90 0 by_hand daily nothing_yet))
      (next (next stays (begins 90 0 by_hand daily nothing_yet))
        (begins 90 0 by_hand daily (begin 90 0 by_hand daily nothing_yet)))
      (tt, tt)
