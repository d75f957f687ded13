-- ===== src/Userdata/Mime/RoundTrip/Tests.antt =====
-- A message of two parts, of which one has a file name, and contents with blank lines and dashes.
use cloud_init_rs.Prelude.{◌≡◌, refl, none, some, [], ◌∷◌, map, arith}
use cloud_init_rs.Prelude.Texts.{lit, strip_prefix, starts_with, contains, contains_char, trim}
use cloud_init_rs.Result.{ok, err}
use cloud_init_rs.Userdata.ContentType.{cloud_config, script}
use cloud_init_rs.Userdata.Mime.{Decoders, MimePart, parse_multipart}
use cloud_init_rs.Userdata.Mime.Create.{create_multipart}
use cloud_init_rs.Userdata.Mime.RoundTrip.Part.{read_back}
use cloud_init_rs.Userdata.Mime.RoundTrip.Sections.{IsWritable}
use cloud_init_rs.Userdata.Mime.RoundTrip.{parse_multipart-create_multipart}

abbrev no_base64 : Decoders
no_base64 = record {
  base64_decode = λ t. err (lit "invalid");
  from_utf8 = λ bytes. ok bytes;
  fold = λ c. c ∷ [];
}

abbrev settings : MimePart
settings = record {
  content_type = cloud_config;
  mime_type = lit "text/cloud-config";
  content = lit "#cloud-config\nhostname: a\n\n---\n";
  filename = none;
  headers = [];
}

abbrev setup : MimePart
setup = record {
  content_type = script;
  mime_type = lit "text/x-shellscript";
  content = lit "#!/bin/sh\r\n\r\necho --B";
  filename = some (lit "setup.sh");
  headers = [];
}

settings-IsWritable : IsWritable (lit "BOUNDARY") settings
unfolding lit trim contains contains_char starts_with strip_prefix
settings-IsWritable = record {
  trimmed = refl;
  mime_type_plain = (refl, refl, refl);
  filename_plain = tt;
  mime_type_lacks = refl;
  filename_lacks = tt;
  content_lacks = refl;
}

setup-IsWritable : IsWritable (lit "BOUNDARY") setup
unfolding lit trim contains contains_char starts_with strip_prefix
setup-IsWritable = record {
  trimmed = refl;
  mime_type_plain = (refl, refl, refl);
  filename_plain = (refl, refl, refl);
  mime_type_lacks = refl;
  filename_lacks = refl;
  content_lacks = refl;
}

parse_multipart-create_multipart_example :
    parse_multipart no_base64 (create_multipart (settings ∷ (setup ∷ [])) (lit "BOUNDARY"))
    ≡ some (ok (map (read_back no_base64.fold) (settings ∷ (setup ∷ []))))
unfolding lit contains_char
parse_multipart-create_multipart_example =
    parse_multipart-create_multipart no_base64 (settings ∷ (setup ∷ [])) (lit "BOUNDARY")
      (omega arith, (refl, refl, refl)) (settings-IsWritable, (setup-IsWritable, tt))
