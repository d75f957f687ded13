-- ===== src/Stages/LocalStage/Sources.antt =====
-- Which network configuration counts.
use cloud_init_rs.Prelude.{
  ◌≡◌, refl, ap, ◌∙◌, ◌⊎◌, inl, inr, true, false, List, [], ◌∷◌, ◌++◌, Bool-cases, All,
}
use cloud_init_rs.Prelude.Texts.{Text}
use cloud_init_rs.Result.{ok, err}
use cloud_init_rs.Os.{Os}
use cloud_init_rs.Network.Parse.{NetworkSerde}
use cloud_init_rs.Stages.LocalStage.{
  Tables, config_paths, try_paths, apply_or_next, apply_network_configuration,
  apply_network_from_content,
}

module _ (os : Os) (serde : NetworkSerde) (tables : Tables) where
  -- A path that is not there, or cannot be read.
  abbrev pub Skipped : os.World → Text → Type 0
  Skipped w p = (os.exists p w ≡ false) ⊎ ((e : Text) × (os.read_to_string p w ≡ err e))

  try_paths-Skipped :
      (p : Text) (ps : List Text) (w : os.World)
      → Skipped w p
      → try_paths os serde tables (p ∷ ps) w ≡ try_paths os serde tables ps w
  unfolding try_paths apply_or_next
  try_paths-Skipped p ps w (inl gone) = rw gone refl
  try_paths-Skipped p ps w (inr (e, failed)) = elim (Bool-cases (os.exists p w)) [
    | inl there ↦ rw (there, failed) refl
    | inr gone ↦ rw gone refl
  ]

  try_paths-first :
      (pre : List Text) (p : Text) (post : List Text) (content : Text) (w : os.World)
      → All (Skipped w) pre
      → os.exists p w ≡ true
      → os.read_to_string p w ≡ ok content
      → try_paths os serde tables (pre ++ p ∷ post) w
        ≡ apply_network_from_content os serde tables content w
  unfolding try_paths apply_or_next
  try_paths-first [] p post content w skipped there read = rw (there, read) refl
  try_paths-first (q ∷ pre) p post content w (skip, skipped) there read =
      try_paths-Skipped q (pre ++ p ∷ post) w skip
      ∙ try_paths-first pre p post content w skipped there read

  -- The first of the four network configuration files that is there and can be read decides: its
  -- content is applied, with whatever error that gives, and none of the later files counts.
  pub apply_network_configuration-first :
      (pre : List Text) (p : Text) (post : List Text) (content : Text) (w : os.World)
      → config_paths ≡ pre ++ p ∷ post
      → All (Skipped w) pre
      → os.exists p w ≡ true
      → os.read_to_string p w ≡ ok content
      → apply_network_configuration os serde tables w
        ≡ apply_network_from_content os serde tables content w
  unfolding apply_network_configuration
  apply_network_configuration-first pre p post content w split skipped there read =
      ap (λ ps. try_paths os serde tables ps w) split
      ∙ try_paths-first pre p post content w skipped there read
