-- ===== src/Runtime/Settings.antt =====
-- storage/runtime_settings.py: `RuntimeSettingsService`, with the row of its one setting in the
-- database and the copy that it keeps in memory.
use nf_safety_hub.Prelude.{
  Bool, true, false, Option, none, some, List, [], ◌∷◌, if◌then◌else◌, is_empty, ◌≡◌, refl,
}
use nf_safety_hub.Prelude.Text.{Text, str, ◌==◌, is_one_of, lower, strip, is_space}

pub record SettingsService : Type 0 where
  pub row : Option Text
  pub training_capture_enabled : Bool

unfoldable pub true_values : List Text
true_values = str "1" ∷ str "true" ∷ str "yes" ∷ str "on" ∷ str "enabled" ∷ []

-- `_value_to_bool`
unfoldable pub value_to_bool : Text → Bool → Bool
unfolding true_values
value_to_bool value default =
    let normalized = lower (strip value) in
    if is_empty normalized then default else is_one_of normalized true_values

-- `_bool_to_value`
unfoldable pub bool_to_value : Bool → Text
bool_to_value value = if value then str "true" else str "false"

unfoldable pub set_training_capture_enabled : SettingsService → Bool → SettingsService
unfolding bool_to_value
set_training_capture_enabled s enabled = record s {
  row = some (bool_to_value enabled);
  training_capture_enabled = enabled;
}

abbrev row_value : Option Text → Bool
row_value none = true
row_value (some value) = value_to_bool value true

-- `refresh`, which keeps the copy where the database raises
unfoldable pub refresh : SettingsService → (answered : Bool) → SettingsService
unfolding value_to_bool
refresh s answered = if answered then record s { training_capture_enabled = row_value s.row } else s

unfoldable pub refresh_all : SettingsService → List Bool → SettingsService
unfolding refresh
refresh_all s [] = s
refresh_all s (answered ∷ more) = refresh_all (refresh s answered) more

value_to_bool-bool_to_value : (b : Bool) → value_to_bool (bool_to_value b) true ≡ b
unfolding value_to_bool bool_to_value str strip lower is_one_of ◌==◌ is_space
value_to_bool-bool_to_value true = refl
value_to_bool-bool_to_value false = refl

-- A copy that agrees with its row keeps doing so.
refresh_all-Keeps :
    (s : SettingsService) (enabled : Bool) (answers : List Bool)
    → s.row ≡ some (bool_to_value enabled)
    → s.training_capture_enabled ≡ enabled
    → (refresh_all s answers).training_capture_enabled ≡ enabled
unfolding refresh_all
refresh_all-Keeps s enabled [] r e = e
refresh_all-Keeps s enabled (true ∷ more) r e =
    refresh_all-Keeps (refresh s true) enabled more r (rw r (value_to_bool-bool_to_value enabled))
refresh_all-Keeps s enabled (false ∷ more) r e = refresh_all-Keeps s enabled more r e

-- A value that is set stays in force through any refreshes, whether the database answers them or not:
-- what is read back from the row is what was written.
pub refresh_all-set :
    (s : SettingsService) (enabled : Bool) (answers : List Bool)
    → (refresh_all (set_training_capture_enabled s enabled) answers).training_capture_enabled
      ≡ enabled
unfolding set_training_capture_enabled
refresh_all-set s enabled answers =
    refresh_all-Keeps (set_training_capture_enabled s enabled) enabled answers refl refl
