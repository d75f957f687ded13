-- ===== src/Datasources/Dmi.antt =====
-- The loop of each `check_dmi_data`: a file of the machine's DMI data that names the cloud.
use cloud_init_rs.Prelude.Texts.{to_lowercase}
use cloud_init_rs.Prelude.{ℕ, Bool, true, false, List, [], ◌∷◌, if◌then◌else◌, any}
use cloud_init_rs.Prelude.Texts.{Text, contains}
use cloud_init_rs.Result.{ok, err}
use cloud_init_rs.Os.{Os}

names_any : (ℕ → Text) → List Text → Text → Bool
unfolding to_lowercase contains
names_any fold words content = any (λ word. contains (to_lowercase fold content) word) words

unfoldable pub dmi_names : (os : Os) → (ℕ → Text) → List Text → List Text → os.World → Bool
unfolding names_any
dmi_names os fold words [] w = false
dmi_names os fold words (path ∷ paths) w =
    let later = dmi_names os fold words paths w in
    elim (os.read_to_string path w) [
      | ok content ↦ if names_any fold words content then true else later
      | err e ↦ later
    ]
