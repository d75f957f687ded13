-- ===== src/Config/Yaml.antt =====
-- `serde_yaml::Value`, and the lists and mappings in it: `Vec` and an insertion-ordered map.
-- The equality of values is that library's, an argument with its laws.
pub mod Laws
use cloud_init_rs.Prelude.{Bool, false, ◌||◌, Option, none, some, if◌then◌else◌}
use cloud_init_rs.Prelude.Texts.{Text}

mutual
  pub data Value : Type 0 where
    null : Value
    bool : Bool → Value
    number : Text → Value
    string : Text → Value
    sequence : Items → Value
    mapping : Fields → Value
    tagged : Text → Value → Value

  pub data Items : Type 0 where
    nil : Items
    cons : Value → Items → Items

  pub data Fields : Type 0 where
    end : Fields
    field : Value → Value → Fields → Fields

-- `push`
unfoldable pub push : Items → Value → Items
push nil x = cons x nil
push (cons y ys) x = cons y (push ys x)

module _ (eq : Value → Value → Bool) where
  -- `contains`
  unfoldable pub contains : Items → Value → Bool
  contains nil x = false
  contains (cons y ys) x = eq y x || contains ys x

  unfoldable pub get : Value → Fields → Option Value
  get k end = none
  get k (field j v m) = if eq j k then some v else get k m

  -- `insert` keeps the place of a key that is there.
  unfoldable pub insert : Value → Value → Fields → Fields
  insert k v end = field k v end
  insert k v (field j u m) = if eq j k then field j v m else field j u (insert k v m)
