-- ===== src/Datasources/Detect.antt =====
-- `detect_datasource` of src/datasources/mod.rs.
pub mod First
mod Tests
use cloud_init_rs.Prelude.{ℕ, List, [], ◌∷◌, if◌then◌else◌}
use cloud_init_rs.Prelude.Texts.{Text}
use cloud_init_rs.Result.{Result, ok, err, Exec}
use cloud_init_rs.Result.{no_datasource}
use cloud_init_rs.Os.{Os}
use cloud_init_rs.Config.Yaml.{Value}
use cloud_init_rs.Config.Types.{Serde}
use cloud_init_rs.Datasources.Types.{Datasource}
use cloud_init_rs.Datasources.Http.{Client}
use cloud_init_rs.Datasources.NoCloud.{nocloud_datasource}
use cloud_init_rs.Datasources.Ec2
use cloud_init_rs.Datasources.Ec2.{ec2_datasource}
use cloud_init_rs.Datasources.Gce
use cloud_init_rs.Datasources.Gce.{gce_datasource}
use cloud_init_rs.Datasources.Azure
use cloud_init_rs.Datasources.Azure.{AzureReaders, azure_datasource}
use cloud_init_rs.Datasources.OpenStack
use cloud_init_rs.Datasources.OpenStack.{OpenStackReaders, openstack_datasource}

-- What other crates give the datasources.
pub record Libraries (S : Type 0) : Type 0 where
  pub client : Client S
  pub fold : ℕ → Text
  pub serde : Serde
  pub yaml : Text → Result Value Text
  pub azure : AzureReaders
  pub openstack : OpenStackReaders

-- The datasources in the order in which they are tried.
pub datasources : (os : Os) → Libraries os.World → List (Datasource os.World)
datasources os l =
    nocloud_datasource os l.yaml l.serde
    ∷ ec2_datasource os l.client l.fold l.serde Ec2.new
    ∷ gce_datasource os l.client l.fold l.serde Gce.new
    ∷ azure_datasource os l.client l.fold l.serde l.azure Azure.new
    ∷ openstack_datasource os l.client l.fold l.serde l.openstack OpenStack.new
    ∷ []

-- The loop, and what is made of one answer.
pub detect_first : {S : Type 0} → List (Datasource S) → Exec S (Datasource S)
detect_first [] s = (err no_datasource, s)
detect_first (d ∷ ds) s =
    let later = detect_first ds in
    let (there, s') = d.is_available s in if there then (ok d, s') else later s'

pub detect_datasource : (os : Os) → Libraries os.World → Exec os.World (Datasource os.World)
unfolding detect_first datasources
detect_datasource os l = detect_first (datasources os l)
