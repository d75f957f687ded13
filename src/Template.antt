-- ===== src/Template.antt =====
-- src/template/mod.rs. The template engine is another crate, `minijinja`: an argument.
pub mod Context
use cloud_init_rs.Prelude.{Bool, ◌||◌, none, some, [], ◌++◌, eqb, if◌then◌else◌}
use cloud_init_rs.Prelude.Texts.{
  Text, lit, strip_prefix, starts_with, trim_start_matches, trim_start,
}
use cloud_init_rs.Result.{Result, ok, err, Error}
use cloud_init_rs.Result.{invalid_data}
use cloud_init_rs.Network.Types.{HashMap}
use cloud_init_rs.Network.V1.Convert.{insert}
use cloud_init_rs.Datasources.Types.{InstanceMetadata}
use cloud_init_rs.Template.Context.{Values, build_context, merge_context}

pub is_jinja_template : Text → Bool
unfolding starts_with trim_start lit
is_jinja_template content =
    starts_with (trim_start content) (lit "## template: jinja")
    || starts_with (trim_start content) (lit "## template:jinja")

-- `trim_start_matches(['\n', '\r'])`
after_marker : Text → Text
unfolding trim_start_matches
after_marker t = trim_start_matches (λ c. eqb c 10 || eqb c 13) t

pub strip_template_marker : Text → Text
unfolding strip_prefix after_marker trim_start lit
strip_template_marker content =
    elim (strip_prefix (lit "## template: jinja") (trim_start content)) [
      | some rest ↦ after_marker rest
      | none ↦ elim (strip_prefix (lit "## template:jinja") (trim_start content)) [
        | some rest ↦ after_marker rest
        | none ↦ content
      ]
    ]

-- `Environment` with the calls of it, and the values of templates.
pub record Jinja : Type 1 where
  pub values : Values
  pub Environment : Type 0
  pub Compiled : Type 0
  pub new_environment : Environment
  pub add_template : Text → Text → Environment → Result Environment Text
  pub get_template : Text → Environment → Result Compiled Text
  pub render : Compiled → HashMap values.Value → Result Text Text

failed : {A : Type 0} → Text → Text → Result A Error
failed what e = err (invalid_data (what ++ e))

module _ (jinja : Jinja) where
  open jinja use {Environment, Compiled, values}

  -- The three calls of the engine, from the environment on.
  rendered : Compiled → HashMap values.Value → Result Text Error
  unfolding failed lit
  rendered t context = elim (jinja.render t context) [
    | ok out ↦ ok out
    | err e ↦ failed (lit "Template render error: ") e
  ]

  compiled : Environment → HashMap values.Value → Result Text Error
  unfolding rendered failed lit
  compiled env context = elim (jinja.get_template (lit "template") env) [
    | ok t ↦ rendered t context
    | err e ↦ failed (lit "Template error: ") e
  ]

  render_in : Environment → Text → HashMap values.Value → Result Text Error
  unfolding compiled strip_template_marker failed lit
  render_in env template context =
      elim (jinja.add_template (lit "template") (strip_template_marker template) env) [
        | ok env' ↦ compiled env' context
        | err e ↦ failed (lit "Template parse error: ") e
      ]

  pub render_template_with_context : Text → HashMap values.Value → Result Text Error
  unfolding render_in
  render_template_with_context template context = render_in jinja.new_environment template context

  pub render_template : Text → InstanceMetadata → Result Text Error
  unfolding render_template_with_context build_context
  render_template template metadata =
      render_template_with_context template (build_context values metadata)

  pub process_template : Text → InstanceMetadata → Result Text Error
  unfolding is_jinja_template render_template
  process_template content metadata =
      if is_jinja_template content then render_template content metadata else ok content

  pub record TemplateRenderer : Type 0 where
    pub env : Environment
    pub context : HashMap values.Value

  new : TemplateRenderer
  new = record { env = jinja.new_environment; context = [] }

  pub with_metadata : InstanceMetadata → TemplateRenderer
  unfolding build_context
  with_metadata metadata = record {
    env = jinja.new_environment;
    context = build_context values metadata;
  }

  add_var : Text → values.Value → TemplateRenderer → TemplateRenderer
  unfolding insert
  add_var name value r = record r { context = insert name value r.context }

  pub add_vars : HashMap values.Value → TemplateRenderer → TemplateRenderer
  unfolding merge_context
  add_vars vars r = record r { context = merge_context values r.context vars }

  render : TemplateRenderer → Text → Result Text Error
  unfolding render_in
  render r template = render_in r.env template r.context

  needs_processing : Text → Bool
  unfolding is_jinja_template
  needs_processing content = is_jinja_template content

  pub process : TemplateRenderer → Text → Result Text Error
  unfolding needs_processing render
  process r content = if needs_processing content then render r content else ok content
