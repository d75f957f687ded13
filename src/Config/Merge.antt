-- ===== src/Config/Merge.antt =====
-- src/config/merge.rs
pub mod Mappings
pub mod Sequences
pub mod Configs
mod Tests
use cloud_init_rs.Prelude.Texts.{to_lowercase}
use cloud_init_rs.Prelude.{ℕ, Bool, ◌||◌, none, some, List, [], ◌∷◌, if◌then◌else◌}
use cloud_init_rs.Prelude.Texts.{Text, lit, ◌==◌}
use cloud_init_rs.Result.{Result, ok, err}
use cloud_init_rs.Config.Types.{CloudConfig, default_config, Serde, from_yaml}
use cloud_init_rs.Config.Yaml.{
  Value, null, sequence, mapping, Items, nil, cons, Fields, end, field, push, contains, get, insert,
}

pub data ListMergeStrategy : Type 0 where
  append_items prepend replace no_replace : ListMergeStrategy

-- `ListMergeStrategy::parse`
unfoldable pub parse_strategy : (ℕ → Text) → Text → ListMergeStrategy
unfolding to_lowercase lit ◌==◌
parse_strategy fold s =
    let t = to_lowercase fold s in
    if t == lit "append"
    then append_items
    else if t == lit "prepend"
    then prepend
    else if t == lit "replace"
    then replace
    else if t == lit "no_replace" || t == lit "noreplace"
    then no_replace
    else append_items

module _ (eq : Value → Value → Bool) where
  -- `for item in more { if !result.contains(item) { result.push(item.clone()); } }`
  pub push_missing : Items → Items → Items
  push_missing result nil = result
  push_missing result (cons x xs) =
      push_missing (if contains eq result x then result else push result x) xs

  pub merge_sequences : ListMergeStrategy → Items → Items → Items
  unfolding push_missing
  merge_sequences append_items base overlay = push_missing base overlay
  merge_sequences prepend base overlay = push_missing overlay base
  merge_sequences replace base overlay = overlay
  merge_sequences no_replace base overlay = base

  mutual
    -- `merge_yaml_values`
    unfolding merge_sequences

    pub merge_yaml_values : Value → Value → ListMergeStrategy → Value
    merge_yaml_values (mapping b) (mapping o) s = mapping (merge_fields b o s)
    merge_yaml_values (sequence b) (sequence o) s = sequence (merge_sequences s b o)
    merge_yaml_values base null s = base
    merge_yaml_values base overlay s = overlay

    -- The loop over the overlay's mapping.
    pub merge_fields : Fields → Fields → ListMergeStrategy → Fields
    merge_fields result end s = result
    merge_fields result (field k v o) s =
        merge_fields
          (elim (get eq k result) [
            | none ↦ insert eq k v result
            | some b ↦ insert eq k (merge_yaml_values b v s) result
          ])
          o s

module _ (serde : Serde) where
  -- `serde_yaml::to_value(config).unwrap_or(Value::Null)`
  unfoldable pub value_of : CloudConfig → Value
  value_of c = elim (serde.to_value c) [ ok v ↦ v | err e ↦ null ]

  unfoldable pub merge_configs : CloudConfig → CloudConfig → CloudConfig
  unfolding value_of
  merge_configs base overlay =
      let merged =
        merge_yaml_values serde.value_eq (value_of base) (value_of overlay) append_items in
      elim (serde.from_value merged) [ ok c ↦ c | err e ↦ default_config ]

  unfoldable pub merge_rest : CloudConfig → List CloudConfig → CloudConfig
  unfolding merge_configs
  merge_rest result [] = result
  merge_rest result (c ∷ cs) = merge_rest (merge_configs result c) cs

  unfoldable pub merge_all_configs : List CloudConfig → CloudConfig
  unfolding merge_rest
  merge_all_configs [] = default_config
  merge_all_configs (c ∷ cs) = merge_rest c cs

  -- `iter().map(from_yaml).collect::<Result<Vec<_>, _>>()`
  parse_all : List Text → Result (List CloudConfig) Text
  parse_all [] = ok []
  parse_all (s ∷ ss) =
      let rest = parse_all ss in
      elim (from_yaml serde s) [
        | err e ↦ err e
        | ok c ↦ elim rest [ err e ↦ err e | ok cs ↦ ok (c ∷ cs) ]
      ]

  pub merge_yaml_strings : List Text → Result CloudConfig Text
  unfolding parse_all
  merge_yaml_strings ss = elim (parse_all ss) [ err e ↦ err e | ok cs ↦ ok (merge_all_configs cs) ]
