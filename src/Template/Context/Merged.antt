-- ===== src/Template/Context/Merged.antt =====
-- Which variables a template sees.
use cloud_init_rs.Prelude.{◌≡◌, refl, ◌∙◌, subst, inl, inr, Option, none, some, [], ◌∷◌, Bool-cases}
use cloud_init_rs.Prelude.Texts.{Text, ◌==◌, ==_iff}
use cloud_init_rs.Network.Types.{HashMap}
use cloud_init_rs.Network.V1.Convert.{get, insert, get-insert}
use cloud_init_rs.Template.Context.{Values, merge_context}

-- Every key once, as in a `HashMap`.
abbrev pub Unique {ℓ} : {A : Type ℓ} → HashMap A → Type ℓ
Unique [] = Unit
Unique ((k, v) ∷ m) = (get k m ≡ none) × Unique m

-- The value of the first map, or else of the second.
abbrev pub first_of {ℓ} : {A : Type ℓ} → Option A → Option A → Option A
first_of (some v) other = some v
first_of none other = other

module _ (values : Values) where
  open values use {Value}

  -- After merging variables that have every name once into a context, every name has the value
  -- of those variables, or else its value in the context before.
  pub get-merge_context :
      (base additional : HashMap Value) (k : Text)
      → Unique additional
      → get k (merge_context values base additional) ≡ first_of (get k additional) (get k base)
  unfolding merge_context get
  get-merge_context base [] k u = refl
  get-merge_context base ((j, v) ∷ additional) k (new, u) =
      get-merge_context (insert j v base) additional k u ∙ elim (Bool-cases (j == k)) [
        | inl same ↦
            let gone : get k additional ≡ none =
              subst (λ x. get x additional ≡ none) ((==_iff j k).0 same) new in
            rw (gone, get-insert j k v base, same) refl
        | inr other ↦ rw (get-insert j k v base, other) refl
      ]
