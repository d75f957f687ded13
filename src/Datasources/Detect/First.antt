-- ===== src/Datasources/Detect/First.antt =====
-- Which datasource is detected.
use cloud_init_rs.Prelude.{◌≡◌, ap, inl, inr, true, false, List, [], ◌∷◌, Bool-cases}
use cloud_init_rs.Result.{Result, ok, err, Error}
use cloud_init_rs.Result.{no_datasource}
use cloud_init_rs.Os.{Os}
use cloud_init_rs.Datasources.Types.{Datasource}
use cloud_init_rs.Datasources.NoCloud.{nocloud_datasource}
use cloud_init_rs.Datasources.Ec2
use cloud_init_rs.Datasources.Ec2.{ec2_datasource}
use cloud_init_rs.Datasources.Gce
use cloud_init_rs.Datasources.Gce.{gce_datasource}
use cloud_init_rs.Datasources.Azure
use cloud_init_rs.Datasources.Azure.{azure_datasource}
use cloud_init_rs.Datasources.OpenStack
use cloud_init_rs.Datasources.OpenStack.{openstack_datasource}
use cloud_init_rs.Datasources.Detect.{Libraries, datasources, detect_first, detect_datasource}

-- The answer of a datasource that is there, and of one that is not, with the machine behind it.
abbrev pub Present : {S : Type 0} → Datasource S → S → S → Type 0
Present d s t = d.is_available s ≡ (true, t)

abbrev pub Absent : {S : Type 0} → Datasource S → S → S → Type 0
Absent d s t = d.is_available s ≡ (false, t)

-- The datasources of this program, each under its name.
module _ (os : Os) (l : Libraries os.World) where
  abbrev pub nocloud : Datasource os.World
  nocloud = nocloud_datasource os l.yaml l.serde

  abbrev pub ec2 : Datasource os.World
  ec2 = ec2_datasource os l.client l.fold l.serde Ec2.new

  abbrev pub gce : Datasource os.World
  gce = gce_datasource os l.client l.fold l.serde Gce.new

  abbrev pub azure : Datasource os.World
  azure = azure_datasource os l.client l.fold l.serde l.azure Azure.new

  abbrev pub openstack : Datasource os.World
  openstack = openstack_datasource os l.client l.fold l.serde l.openstack OpenStack.new

-- How a search that starts on the machine `w` can end: with a result, on a machine.
pub data Detected (os : Os) (l : Libraries os.World) (w : os.World)
    : Result (Datasource os.World) Error → os.World → Type 0 where
  by_nocloud :
      (w1 : os.World) → Present (nocloud os l) w w1 → Detected os l w (ok (nocloud os l)) w1
  by_ec2 :
      (w1 w2 : os.World)
      → Absent (nocloud os l) w w1
      → Present (ec2 os l) w1 w2
      → Detected os l w (ok (ec2 os l)) w2
  by_gce :
      (w1 w2 w3 : os.World)
      → Absent (nocloud os l) w w1
      → Absent (ec2 os l) w1 w2
      → Present (gce os l) w2 w3
      → Detected os l w (ok (gce os l)) w3
  by_azure :
      (w1 w2 w3 w4 : os.World)
      → Absent (nocloud os l) w w1
      → Absent (ec2 os l) w1 w2
      → Absent (gce os l) w2 w3
      → Present (azure os l) w3 w4
      → Detected os l w (ok (azure os l)) w4
  by_openstack :
      (w1 w2 w3 w4 w5 : os.World)
      → Absent (nocloud os l) w w1
      → Absent (ec2 os l) w1 w2
      → Absent (gce os l) w2 w3
      → Absent (azure os l) w3 w4
      → Present (openstack os l) w4 w5
      → Detected os l w (ok (openstack os l)) w5
  by_none :
      (w1 w2 w3 w4 w5 : os.World)
      → Absent (nocloud os l) w w1
      → Absent (ec2 os l) w1 w2
      → Absent (gce os l) w2 w3
      → Absent (azure os l) w3 w4
      → Absent (openstack os l) w4 w5
      → Detected os l w (err no_datasource) w5

-- What holds of the loop, from what holds after either answer of the first datasource.
ask :
    {S : Type 0} (P : Result (Datasource S) Error → S → Type 0) (d : Datasource S)
    (ds : List (Datasource S)) (s : S)
    → ((t : S) → Present d s t → P (ok d) t)
    → ((t : S) → Absent d s t → P (detect_first ds t).0 (detect_first ds t).1)
    → P (detect_first (d ∷ ds) s).0 (detect_first (d ∷ ds) s).1
unfolding detect_first
ask P d ds s found next =
    let t = (d.is_available s).1 in
    elim (Bool-cases (d.is_available s).0) [
      | inl there ↦ rw there (found t (ap (λ b. (b, t)) there))
      | inr gone ↦ rw gone (next t (ap (λ b. (b, t)) gone))
    ]

-- detect_datasource asks NoCloud, EC2, GCE, Azure and OpenStack in turn, each on the machine
-- that the one before left, and gives the first that says it is there; it fails only when all
-- five of them said no, and then with the error that there is no datasource.
pub detect_datasource-Detected :
    (os : Os) (l : Libraries os.World) (w : os.World)
    → Detected os l w (detect_datasource os l w).0 (detect_datasource os l w).1
unfolding detect_datasource datasources detect_first
detect_datasource-Detected os l w =
    let P = λ (r : Result (Datasource os.World) Error) (t : os.World). Detected os l w r t in
    let last = openstack os l ∷ [] in
    let last_two = azure os l ∷ last in
    let last_three = gce os l ∷ last_two in
    ask P (nocloud os l) (ec2 os l ∷ last_three) w by_nocloud λ w1 n1.
      ask P (ec2 os l) last_three w1 (λ t p. by_ec2 w1 t n1 p)
        λ w2 n2.
          ask P (gce os l) last_two w2 (λ t p. by_gce w1 w2 t n1 n2 p)
            λ w3 n3.
              ask P (azure os l) last w3 (λ t p. by_azure w1 w2 w3 t n1 n2 n3 p)
                λ w4 n4.
                  ask P (openstack os l) [] w4 (λ t p. by_openstack w1 w2 w3 w4 t n1 n2 n3 n4 p)
                    λ w5 n5. by_none w1 w2 w3 w4 w5 n1 n2 n3 n4 n5
