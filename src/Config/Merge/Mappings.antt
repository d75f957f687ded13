-- ===== src/Config/Merge/Mappings.antt =====
-- What the merge of two mappings holds under each key.
use cloud_init_rs.Prelude.{
  ◌≡◌, refl, sym, inl, inr, Bool, Option, none, some, if◌then◌else◌, Bool-cases,
}
use cloud_init_rs.Config.Yaml.{Value, Fields, end, field, get, insert}
use cloud_init_rs.Config.Yaml.Laws.{EqLaws, get-insert, get-same}
use cloud_init_rs.Config.Merge.{ListMergeStrategy, merge_yaml_values, merge_fields}

module _ (eq : Value → Value → Bool) where
  -- No key is there twice.
  abbrev pub DistinctKeys : Fields → Type 0
  DistinctKeys end = Unit
  DistinctKeys (field k v m) = (get eq k m ≡ none) × DistinctKeys m

  -- What one key of the merged mapping holds, by what it holds in the base and in the overlay.
  abbrev pub merged : ListMergeStrategy → Option Value → Option Value → Option Value
  merged s none y = y
  merged s (some x) none = some x
  merged s (some x) (some y) = some (merge_yaml_values eq x y s)

  -- One turn of the loop, by what the base has under the overlay's key.
  abbrev step : Fields → Value → Value → ListMergeStrategy → Option Value → Fields
  step b k v s r = elim r [
    | none ↦ insert eq k v b
    | some x ↦ insert eq k (merge_yaml_values eq x v s) b
  ]

  module _ (laws : EqLaws eq) where
    get-step :
        (j k v : Value) (b : Fields) (s : ListMergeStrategy) (r : Option Value)
        → get eq j (step b k v s r) ≡ (if eq k j then merged s r (some v) else get eq j b)
    get-step j k v b s none = get-insert eq laws k j v b
    get-step j k v b s (some x) = get-insert eq laws k j (merge_yaml_values eq x v s) b

    merged-none : (s : ListMergeStrategy) (x : Option Value) → merged s x none ≡ x
    merged-none s none = refl
    merged-none s (some x) = refl

    -- For an equality that is an equivalence and an overlay that has no key twice: under every
    -- key the merge of two mappings holds the base's value if the overlay lacks the key, the
    -- overlay's value if the base lacks it, and the merge of the two values if both have it.
    pub get-merge_fields :
        (j : Value) (b o : Fields) (s : ListMergeStrategy)
        → DistinctKeys o
        → get eq j (merge_fields eq b o s) ≡ merged s (get eq j b) (get eq j o)
    unfolding merge_fields get
    get-merge_fields j b end s d = sym (merged-none s (get eq j b))
    get-merge_fields j b (field k v o) s (new, d) = elim (Bool-cases (eq k j)) [
      | inl e ↦
          rw
            (
              get-merge_fields j (step b k v s (get eq k b)) o s d,
              get-step j k v b s (get eq k b),
              e,
              ← get-same eq laws k j b e,
              ← get-same eq laws k j o e,
              new,
            )
            (merged-none s (merged s (get eq k b) (some v)))
      | inr e ↦
          rw
            (
              get-merge_fields j (step b k v s (get eq k b)) o s d,
              get-step j k v b s (get eq k b),
              e,
            )
            refl
    ]
