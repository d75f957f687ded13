-- ===== src/Datasources/Ec2/Tests.antt =====
-- A service whose every answer is the same text.
use cloud_init_rs.Prelude.{◌≡◌, ap, subst, true, some, [], ◌∷◌, arith}
use cloud_init_rs.Prelude.Texts.{Text, lit}
use cloud_init_rs.Result.{Result, ok, err}
use cloud_init_rs.Os.Memory.{Files, no_files, memory}
use cloud_init_rs.Config.Yaml.{null}
use cloud_init_rs.Config.Types.{Serde, default_config}
use cloud_init_rs.Userdata.Slices.Ascii.{IsAsciiText}
use cloud_init_rs.Datasources.Types.{InstanceMetadata}
use cloud_init_rs.Datasources.Http.{Response, Client}
use cloud_init_rs.Datasources.Ec2.{new, get_metadata}
use cloud_init_rs.Datasources.Ec2.Regions.{AsciiAnswers, region_of, get_metadata-region}

abbrev zone : Text
zone = lit "us-east-1a"

abbrev always : Client Files
always = record {
  send = λ r w. (ok (record { status = 200; status_line = lit "200 OK"; text = ok zone }), w);
}

abbrev serde : Serde
serde = record {
  from_str = λ t. ok default_config;
  to_value = λ c. ok null;
  from_value = λ v. ok default_config;
  value_eq = λ a b. true;
}

zone-ascii : IsAsciiText zone
unfolding lit
zone-ascii = omega arith

body : Result Response Text → Result Text Text
body (ok a) = a.text
body (err e) = err e

always-ascii : AsciiAnswers always
unfolding body
always-ascii r s s' a t h e =
    let same : ◌≡◌ {A = Result Text Text} (ok zone) a.text =
      ap (λ (x : Result Response Text × Files). body x.0) h in
    let text : zone ≡ t = cc (same, e) in subst IsAsciiText text zone-ascii

get_metadata-region_example :
    (m : InstanceMetadata) × ((get_metadata memory always (λ c. c ∷ []) serde new no_files).0
      ≡ some (ok m))
    × (m.region ≡ region_of m.availability_zone)
get_metadata-region_example =
    get_metadata-region memory always (λ c. c ∷ []) serde new always-ascii no_files
