-- ===== src/Template/Context/Tests.antt =====
-- A context whose values are texts.
use cloud_init_rs.Prelude.{◌≡◌, refl, [], ◌∷◌}
use cloud_init_rs.Prelude.Texts.{Text, lit, ◌==◌}
use cloud_init_rs.Network.Types.{HashMap}
use cloud_init_rs.Network.V1.Convert.{get}
use cloud_init_rs.Template.Context.{Values, merge_context}
use cloud_init_rs.Template.Context.Merged.{first_of, get-merge_context}

abbrev texts : Values
texts = record { Value = Text; from_text = λ t. t; from_serialize = λ m. [] }

abbrev base : HashMap Text
base = (lit "a", lit "1") ∷ (lit "b", lit "2") ∷ []

abbrev additional : HashMap Text
additional = (lit "b", lit "3") ∷ (lit "c", lit "4") ∷ []

get-merge_context_example :
    get (lit "b") (merge_context texts base additional)
    ≡ first_of (get (lit "b") additional) (get (lit "b") base)
unfolding get ◌==◌ lit
get-merge_context_example = get-merge_context texts base additional (lit "b") (refl, (refl, tt))
