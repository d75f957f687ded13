-- ===== src/Userdata/Process/Sorted.antt =====
-- One pass over the parts is four selections.
use cloud_init_rs.Prelude.{
  ℕ, ◌≡◌, refl, ◌∙◌, Bool, true, false, List, [], ◌∷◌, ◌++◌, map, append-nil, append_assoc, keep,
}
use cloud_init_rs.Prelude.Texts.{Text}
use cloud_init_rs.Userdata.ContentType.{
  ContentType, cloud_config, script, include_url, cloud_boothook, gzip, multipart, jinja_template,
  base64, part_handler, upstart_job, unknown, from_mime,
}
use cloud_init_rs.Userdata.Types.{UserDataPart}
use cloud_init_rs.Userdata.Process.{
  ProcessedUserData, script_part, push_part, process_parts, process_multipart, default_processed,
}

-- The list a part belongs to, by its content type.
pub data Place : Type 0 where
  config_place script_place boothook_place include_place no_place : Place

pub place : ContentType → Place
place cloud_config = config_place
place jinja_template = config_place
place script = script_place
place cloud_boothook = boothook_place
place include_url = include_place
place _ = no_place

pub is_place : Place → Place → Bool
is_place config_place config_place = true
is_place script_place script_place = true
is_place boothook_place boothook_place = true
is_place include_place include_place = true
is_place _ _ = false

-- The parts whose content type, read from its MIME type, belongs in a list, in their order.
pub parts_in : (ℕ → Text) → Place → List UserDataPart → List UserDataPart
unfolding is_place place from_mime
parts_in fold a parts = keep (λ p. is_place a (place (from_mime fold p.content_type))) parts

unfoldable pub sorted : (ℕ → Text) → List UserDataPart → ProcessedUserData
unfolding parts_in script_part
sorted fold parts = record {
  cloud_configs = map (λ p. p.content) (parts_in fold config_place parts);
  scripts = map script_part (parts_in fold script_place parts);
  boothooks = map script_part (parts_in fold boothook_place parts);
  includes = map (λ p. p.content) (parts_in fold include_place parts);
}

after : ProcessedUserData → ProcessedUserData → ProcessedUserData
after d e = record {
  cloud_configs = d.cloud_configs ++ e.cloud_configs;
  scripts = d.scripts ++ e.scripts;
  boothooks = d.boothooks ++ e.boothooks;
  includes = d.includes ++ e.includes;
}

after-push_part :
    (fold : ℕ → Text) (p : UserDataPart) (ps : List UserDataPart) (d : ProcessedUserData)
    (c : ContentType)
    → from_mime fold p.content_type ≡ c
    → after (push_part p c d) (sorted fold ps) ≡ after d (sorted fold (p ∷ ps))
unfolding after push_part sorted parts_in is_place place
after-push_part fold p ps d cloud_config e = rw (e, append_assoc) refl
after-push_part fold p ps d script e = rw (e, append_assoc) refl
after-push_part fold p ps d include_url e = rw (e, append_assoc) refl
after-push_part fold p ps d cloud_boothook e = rw (e, append_assoc) refl
after-push_part fold p ps d gzip e = rw e refl
after-push_part fold p ps d multipart e = rw e refl
after-push_part fold p ps d jinja_template e = rw (e, append_assoc) refl
after-push_part fold p ps d base64 e = rw e refl
after-push_part fold p ps d part_handler e = rw e refl
after-push_part fold p ps d upstart_job e = rw e refl
after-push_part fold p ps d unknown e = rw e refl

process_parts-after :
    (fold : ℕ → Text) (ps : List UserDataPart) (d : ProcessedUserData)
    → process_parts fold ps d ≡ after d (sorted fold ps)
unfolding process_parts after sorted parts_in
process_parts-after fold [] d = simp append-nil
process_parts-after fold (p ∷ ps) d =
    process_parts-after fold ps (push_part p (from_mime fold p.content_type) d)
    ∙ after-push_part fold p ps d (from_mime fold p.content_type) refl

-- The one pass of process_multipart puts into each of its four lists exactly the parts whose
-- content type, read from their MIME type, belongs there, in their order.
pub process_multipart-eq-sorted :
    (fold : ℕ → Text) (parts : List UserDataPart) → process_multipart fold parts ≡ sorted fold parts
unfolding process_multipart after
process_multipart-eq-sorted fold parts = process_parts-after fold parts default_processed
