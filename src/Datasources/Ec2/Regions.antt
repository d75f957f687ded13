-- ===== src/Datasources/Ec2/Regions.antt =====
-- The region that is cut off the zone.
use cloud_init_rs.Prelude.{
  ℕ, ◌≡◌, refl, sym, ap, ◌∙◌, subst, inl, inr, Option, none, some, [], ◌++◌, arith, ltb,
  if◌then◌else◌, Bool-cases, Option-cases, length,
}
use cloud_init_rs.Prelude.Texts.{Text, lit}
use cloud_init_rs.Result.{Result, ok, err, Error, pure}
use cloud_init_rs.Result.Steps.{bind-eq-ok, map_err-eq-ok, pure-eq-ok}
use cloud_init_rs.Os.{Os}
use cloud_init_rs.Config.Types.{Serde}
use cloud_init_rs.Userdata.Slices.Ascii.{IsAsciiText, byte_length-ascii, slice_to-ascii, drop_last}
use cloud_init_rs.Datasources.Types.{InstanceMetadata}
use cloud_init_rs.Datasources.Http.{
  Request, Response, get_request, is_success, Client, sent, text_of,
}
use cloud_init_rs.Datasources.Ec2.{
  Ec2, set_id, set_hostname, set_zone, set_region, metadata_of, finished, concluded, Answers,
  get_imdsv2_token, fetch_v2, fetch_v1, fetch_metadata_path, ask, get_metadata, with_token,
}

-- Every answer is text in ASCII, if it is text at all.
abbrev pub AsciiAnswers : {S : Type 0} → Client S → Type 0
AsciiAnswers {S} client =
    (r : Request) (s s' : S) (a : Response) (t : Text)
    → client.send r s ≡ (ok a, s')
    → a.text ≡ ok t
    → IsAsciiText t

-- The zone without its last character, if it has more than one.
pub region_of : Option Text → Option Text
unfolding drop_last
region_of none = none
region_of (some az) = if ltb 1 (length az) then some (drop_last az) else none

set_id-region : (r : Result Text Error) (m : InstanceMetadata) → (set_id r m).region ≡ m.region
unfolding set_id
set_id-region (ok t) m = refl
set_id-region (err e) m = refl

set_hostname-region :
    (r : Result Text Error) (m : InstanceMetadata) → (set_hostname r m).region ≡ m.region
unfolding set_hostname
set_hostname-region (ok t) m = refl
set_hostname-region (err e) m = refl

set_id-availability_zone :
    (r : Result Text Error) (m : InstanceMetadata)
    → (set_id r m).availability_zone ≡ m.availability_zone
unfolding set_id
set_id-availability_zone (ok t) m = refl
set_id-availability_zone (err e) m = refl

set_hostname-availability_zone :
    (r : Result Text Error) (m : InstanceMetadata)
    → (set_hostname r m).availability_zone ≡ m.availability_zone
unfolding set_hostname
set_hostname-availability_zone (ok t) m = refl
set_hostname-availability_zone (err e) m = refl

set_zone-ascii :
    (r : Result Text Error) (m : InstanceMetadata)
    → m.region ≡ none
    → m.availability_zone ≡ none
    → ((t : Text) → r ≡ ok t → IsAsciiText t)
    → (m' : InstanceMetadata) × (set_zone r m ≡ some m')
      × (m'.region ≡ region_of m'.availability_zone)
unfolding set_zone region_of
set_zone-ascii (err e) m no_region no_zone a = (m, refl, no_region ∙ rw no_zone refl)
set_zone-ascii (ok az) m no_region no_zone a = elim (Bool-cases (ltb 1 (length az))) [
  | inl long ↦ (
    record m { availability_zone = some az; region = some (drop_last az) },
    rw
        (
          byte_length-ascii az (a az refl),
          long,
          slice_to-ascii az (ground arith) (a az refl),
          set_region,
        )
        refl,
    rw long refl,
  )
  | inr short ↦ (
    record m { availability_zone = some az },
    rw (byte_length-ascii az (a az refl), short) refl,
    rw short no_region,
  )
]

metadata_of-region :
    (a : Answers)
    → ((t : Text) → a.zone ≡ ok t → IsAsciiText t)
    → (m : InstanceMetadata) × (metadata_of a ≡ some m) × (m.region ≡ region_of m.availability_zone)
unfolding metadata_of
metadata_of-region a ascii =
    set_zone-ascii a.zone _ (set_hostname-region a.hostname _ ∙ set_id-region a.id _)
      (set_hostname-availability_zone a.hostname _ ∙ set_id-availability_zone a.id _) ascii

module _ (os : Os) (client : Client os.World) (fold : ℕ → Text) (serde : Serde) (s : Ec2)
    (ascii : AsciiAnswers client) where
  text_of-ascii :
      (r : Request) (a : Response) (t : Text) (v v' w w' : os.World)
      → sent client r v ≡ (ok a, v')
      → text_of a w ≡ (ok t, w')
      → IsAsciiText t
  text_of-ascii r a t v v' w w' h e =
      ascii r v v' a t (map_err-eq-ok (client.send r) _ v h)
        (ap (λ (x : Result Text Text × os.World). x.0) (map_err-eq-ok (λ u. (a.text, u)) _ w e))

  fetch_v1-ascii :
      (path url t : Text) (w w' : os.World)
      → fetch_v1 os client fold serde s path url w ≡ (ok t, w')
      → IsAsciiText t
  unfolding fetch_v1
  fetch_v1-ascii path url t w w' h =
      let (r, v, got, rest) = bind-eq-ok (sent client (get_request url [])) _ w h in
      elim (Bool-cases (is_success r)) [
        | inl good ↦ text_of-ascii (get_request url []) r t w v v w' got (rw good at rest)
        | inr bad ↦ absurd (cc (rw bad at rest))
      ]

  fetch_v2-ascii :
      (url t : Text) (token : Option Text) (w w' : os.World)
      → fetch_v2 os client fold serde s url token w ≡ (ok (some t), w')
      → IsAsciiText t
  unfolding fetch_v2
  fetch_v2-ascii url t none w w' h = absurd (cc ((pure-eq-ok h).0))
  fetch_v2-ascii url t (some token) w w' h =
      let (r, v, got, rest) = bind-eq-ok (sent client (with_token url token)) _ w h in
      elim (Bool-cases (is_success r)) [
        | inl good ↦
            let (u, v', read, end) =
              bind-eq-ok (text_of r) (λ u. pure (some u)) v (rw good at rest) in
            let same : u ≡ t = cc ((pure-eq-ok end).0) in
            subst IsAsciiText same (text_of-ascii (with_token url token) r u w v v v' got read)
        | inr bad ↦ absurd (cc ((pure-eq-ok (rw bad at rest)).0))
      ]

  fetch_metadata_path-ascii :
      (path t : Text) (w w' : os.World)
      → fetch_metadata_path os client fold serde s path w ≡ (ok t, w')
      → IsAsciiText t
  unfolding fetch_metadata_path
  fetch_metadata_path-ascii path t w w' h =
      let url = s.base_url ++ (lit "/latest/meta-data/" ++ path) in
      let asking = get_imdsv2_token os client fold serde s w in
      let (found, v, got, rest) =
        bind-eq-ok (fetch_v2 os client fold serde s url asking.0) _ asking.1 h in
      elim (Option-cases found) [
        | inl nothing ↦ fetch_v1-ascii path url t v w' (rw nothing at rest)
        | inr (u, e) ↦
            let same : u ≡ t = cc ((pure-eq-ok (rw e at rest)).0) in
            subst IsAsciiText same (fetch_v2-ascii url u asking.0 asking.1 v (rw e at got))
      ]

  abbrev zone_path : Text
  zone_path = lit "placement/availability-zone"

  -- The requests always end with answers, and the last is one for the zone.
  ask-zone :
      (w : os.World)
      → (a : Answers) × (v : os.World) × ((ask os client fold serde s w).0 ≡ ok a)
        × (a.zone ≡ (fetch_metadata_path os client fold serde s zone_path v).0)
  unfolding ask
  ask-zone w = (_, _, refl, refl)

  -- Where every text that the service answers with is ASCII: whatever requests fail, the EC2
  -- datasource gives metadata, without a panic and without an error, and its region is the
  -- availability zone without its last character if the zone has more than one character, and
  -- none otherwise.
  pub get_metadata-region :
      (w : os.World)
      → (m : InstanceMetadata) × ((get_metadata os client fold serde s w).0 ≡ some (ok m))
        × (m.region ≡ region_of m.availability_zone)
  unfolding get_metadata concluded finished
  get_metadata-region w =
      let (a, v, e, z) = ask-zone w in
      let fetched = fetch_metadata_path os client fold serde s zone_path v in
      let plain : (t : Text) → a.zone ≡ ok t → IsAsciiText t = λ t h.
        fetch_metadata_path-ascii zone_path t v fetched.1 (ap (λ r. (r, fetched.1)) (sym z ∙ h)) in
      let (m, made, region) = metadata_of-region a plain in
      (m, ap concluded e ∙ ap finished made, region)
