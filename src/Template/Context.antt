-- ===== src/Template/Context.antt =====
-- src/template/context.rs
pub mod Merged
mod Tests
use cloud_init_rs.Prelude.{Option, none, some, [], ◌∷◌}
use cloud_init_rs.Prelude.Texts.{Text, lit}
use cloud_init_rs.Network.Types.{HashMap}
use cloud_init_rs.Network.V1.Convert.{insert}
use cloud_init_rs.Datasources.Types.{InstanceMetadata}

-- `minijinja::Value`, made of a text or of a map.
pub record Values : Type 1 where
  pub Value : Type 0
  pub from_text : Text → Value
  pub from_serialize : HashMap Value → Value

module _ (values : Values) where
  open values use {Value}

  -- `if let Some(t) = &option { map.insert(name, Value::from(t.clone())); }`
  pub put : Text → Option Text → HashMap Value → HashMap Value
  unfolding insert
  put name none m = m
  put name (some t) m = insert name (values.from_text t) m

  -- The same, under two names.
  put_both : Text → Text → Option Text → HashMap Value → HashMap Value
  unfolding put
  put_both a b t m = put b t (put a t m)

  meta_data : InstanceMetadata → HashMap Value
  unfolding put put_both lit
  meta_data m = put_both (lit "instance-type") (lit "instance_type") m.instance_type (
      put (lit "platform") m.platform (
        put_both (lit "cloud-name") (lit "cloud_name") m.cloud_name (
          put_both (lit "availability-zone") (lit "availability_zone") m.availability_zone (
            put (lit "region") m.region (
              put_both (lit "local-hostname") (lit "local_hostname") m.local_hostname
                (put_both (lit "instance-id") (lit "instance_id") m.instance_id []))))))

  build_ds_context : InstanceMetadata → Value
  unfolding meta_data insert lit
  build_ds_context m =
      values.from_serialize (insert (lit "meta_data") (values.from_serialize (meta_data m)) [])

  build_instance_context : InstanceMetadata → Value
  unfolding put lit
  build_instance_context m = values.from_serialize (
      put (lit "type") m.instance_type (
        put (lit "cloud") m.cloud_name (
          put (lit "availability_zone") m.availability_zone (
            put (lit "region") m.region
              (put (lit "hostname") m.local_hostname (put (lit "id") m.instance_id []))))))

  build_v1_context : InstanceMetadata → Value
  unfolding put lit
  build_v1_context m = values.from_serialize (
      put (lit "platform") m.platform (
        put (lit "cloud_name") m.cloud_name (
          put (lit "availability_zone") m.availability_zone (
            put (lit "region") m.region (
              put (lit "local_hostname") m.local_hostname
                (put (lit "instance_id") m.instance_id []))))))

  unfoldable pub build_context : InstanceMetadata → HashMap Value
  unfolding put insert build_ds_context build_instance_context build_v1_context lit
  build_context m = put (lit "instance_id") m.instance_id (
      put (lit "local_hostname") m.local_hostname (
        insert (lit "v1") (build_v1_context m) (
          insert (lit "instance") (build_instance_context m)
            (insert (lit "ds") (build_ds_context m) []))))

  unfoldable pub merge_context : HashMap Value → HashMap Value → HashMap Value
  unfolding insert
  merge_context base [] = base
  merge_context base ((k, v) ∷ additional) = merge_context (insert k v base) additional
