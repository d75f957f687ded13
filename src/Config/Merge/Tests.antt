-- ===== src/Config/Merge/Tests.antt =====
-- The merge on small values, compared by a test that tells texts apart.
use cloud_init_rs.Prelude.{◌≡◌, refl, ap, Bool, true, false, ◌||◌, Option, none, some, arith}
use cloud_init_rs.Prelude.Texts.{Text, lit, ◌==◌, ==-refl, ==_iff}
use cloud_init_rs.Config.Yaml.{Value, string, nil, cons, end, field, contains, get}
use cloud_init_rs.Config.Yaml.Laws.{EqLaws, NoRepeat}
use cloud_init_rs.Config.Merge.{append_items, merge_fields, merge_sequences}
use cloud_init_rs.Config.Merge.Mappings.{merged, get-merge_fields}
use cloud_init_rs.Config.Merge.Sequences.{Extends, merge_sequences_append}

-- The text of a value, if it is one; all other values count as one.
abbrev text_of : Value → Option Text
text_of (string t) = some t
text_of _ = none

abbrev same_text : Option Text → Option Text → Bool
same_text none none = true
same_text none (some t) = false
same_text (some s) none = false
same_text (some s) (some t) = s == t

abbrev same : Value → Value → Bool
same a b = same_text (text_of a) (text_of b)

same_text_refl : (a : Option Text) → same_text a a ≡ true
same_text_refl none = refl
same_text_refl (some s) = ==-refl s

same_text_iff : (a b : Option Text) → same_text a b ≡ true → a ≡ b
same_text_iff none none h = refl
same_text_iff none (some t) h = cc
same_text_iff (some s) none h = cc
same_text_iff (some s) (some t) h = ap some ((==_iff s t).0 h)

same_text-sym : (a b : Option Text) → same_text a b ≡ same_text b a
same_text-sym none none = refl
same_text-sym none (some t) = refl
same_text-sym (some s) none = refl
same_text-sym (some s) (some t) = ground (arith, ==_iff s t, ==_iff t s)

same_EqLaws : EqLaws same
same_EqLaws = record {
  eq-refl = λ a. same_text_refl (text_of a);
  eq-sym = λ a b. same_text-sym (text_of a) (text_of b);
  eq-same = λ a b c h. ap (λ t. same_text t (text_of c)) (same_text_iff (text_of a) (text_of b) h);
}

abbrev x : Value
x = string (lit "x")

abbrev y : Value
y = string (lit "y")

get-merge_fields_example :
    get same x (merge_fields same (field x x end) (field x y (field y y end)) append_items)
    ≡ merged same append_items (some x) (some y)
unfolding get lit ◌==◌
get-merge_fields_example =
    get-merge_fields same same_EqLaws x (field x x end) (field x y (field y y end)) append_items
      (refl, (refl, tt))

merge_sequences_append_example :
    Extends same (cons x nil) (merge_sequences same append_items (cons x nil) (cons y (cons x nil)))
    × NoRepeat same same_EqLaws
        (merge_sequences same append_items (cons x nil) (cons y (cons x nil)))
    × ((v : Value)
        → contains same (merge_sequences same append_items (cons x nil) (cons y (cons x nil))) v
          ≡ contains same (cons x nil) v || contains same (cons y (cons x nil)) v)
unfolding contains
merge_sequences_append_example =
    merge_sequences_append same same_EqLaws (cons x nil) (cons y (cons x nil)) (refl, tt)
