-- ===== src/Yaml/Document.antt =====
-- `parseYamlDocument`, `parse` and the collections of pack/nodejs/provider.ts.
pub mod Objects
pub mod Trace
pub mod Registered
pub mod Texts
pub mod Lookup
pub mod Files
pub mod Steps
pub mod Below
pub mod Group
pub mod Overlay
pub mod Made
pub mod Unknown
pub mod Bounds
use pulumi_kubernetes.Common.{
  ℕ, String, Option, none, some, List, [], ◌∷◌, ◌++◌, length, ◌<>◌, if◌then◌else◌, contains,
}
use pulumi_kubernetes.Common.Dict.{Dict, lookup, insert, spread}
use pulumi_kubernetes.Js.Value.{Value, end}
use pulumi_kubernetes.Js.Outcome.{Outcome, ok, throws, error}
use pulumi_kubernetes.Options.{
  OneOrMany, one, many, ConfigGroupOpts, ConfigOpts, Transformation, ResourceOptions, Config, group,
  file,
}
use pulumi_kubernetes.Runtime.{
  External, M, ◌>>=◌, continue, pure, lift, perform, component, glob_sync, read_file,
}
use pulumi_kubernetes.Resources.Instance.{CustomResource}
use pulumi_kubernetes.Yaml.Object.{FileObject, parse_yaml_object}
use pulumi_kubernetes.Yaml.Collection.Labels.{get_resource_labels}

abbrev pub Resources : Type 0
Resources = Dict CustomResource

-- `CollectionComponentResource`: the component's registration, and its resources by key.
pub record Collection : Type 0 where
  pub self : ℕ
  pub resources : Resources

-- `resources[fileObject.name] = fileObject.resource`, unless `fileObject` is `null`.
abbrev pub store : Resources → Option FileObject → Resources
store resources none = resources
store resources (some f) = insert resources f.name f.resource

-- `{parent: this}`
abbrev pub parent_of : ℕ → Option ResourceOptions
parent_of self = some (record { parent = some self; others = end })

-- The texts of `yaml`: a single one is a list of one.
abbrev pub texts_of : OneOrMany → List String
texts_of (one text) = text ∷ []
texts_of (many texts) = texts

-- The implementation of the overloads of `getResource`. A missing key gives `undefined`.
unfoldable pub get_resource :
    Collection → String → String → Option String → Outcome (Option CustomResource)
get_resource c group_version_kind namespace_or_name name =
    let id : String = elim name [
      | none ↦ namespace_or_name
      | some n ↦ namespace_or_name <> ("/" <> n)
    ] in
    if contains get_resource_labels group_version_kind
    then ok (lookup (group_version_kind <> ("::" <> id)) c.resources)
    else throws (error ("Unrecognized resource type '" <> (group_version_kind <> "'")))

module _ (env : External) where
  -- The loop of `parseYamlDocument`, with the resources found before.
  unfoldable pub document_from :
      Resources → List Value → Option (List Transformation) → Option ResourceOptions → M Resources
  document_from resources [] transformations opts = pure resources
  document_from resources (obj ∷ objs) transformations opts = do
    file_object ← parse_yaml_object env obj transformations opts
    document_from (store resources file_object) objs transformations opts

  unfoldable pub parse_yaml_document : ConfigOpts → Option ResourceOptions → M Resources
  unfolding document_from
  parse_yaml_document config opts = document_from [] config.objs config.transformations opts

  -- The constructor of `CollectionComponentResource`, with the new component's registration.
  unfoldable pub new_component : String → String → Config → Option ResourceOptions → M ℕ
  new_component resource_type name config opts log =
      continue (λ _. pure (length log))
        (perform (component resource_type name config opts) env.component log)

  unfoldable pub new_config_file : String → ConfigOpts → Option ResourceOptions → M Collection
  unfolding new_component parse_yaml_document
  new_config_file name config opts = do
    self ← new_component "kubernetes:yaml:ConfigFile" name (file config) opts
    resources ← parse_yaml_document config (parent_of self)
    pure (record { self = self; resources = resources })

  -- `files.push(...glob.sync(file))` for each pattern.
  unfoldable pub glob_from : List String → List String → M (List String)
  glob_from files [] = pure files
  glob_from files (pattern ∷ patterns) = do
    found ← perform (glob_sync pattern) env.glob_sync
    glob_from (files ++ found) patterns

  unfoldable pub expand_files : OneOrMany → M (List String)
  unfolding glob_from
  expand_files (one pattern) = perform (glob_sync pattern) env.glob_sync
  expand_files (many patterns) = glob_from [] patterns

  unfoldable pub files_from :
      Resources → List String → ConfigGroupOpts → Option ResourceOptions → M Resources
  unfolding new_config_file
  files_from resources [] config opts = pure resources
  files_from resources (name ∷ files) config opts = do
    text ← perform (read_file name) env.read_file
    objs ← lift (env.safe_load_all text)
    cf ←
        new_config_file name (record { objs = objs; transformations = config.transformations }) opts
    files_from (spread resources cf.resources) files config opts

  unfoldable pub texts_from :
      Resources → List String → ConfigGroupOpts → Option ResourceOptions → M Resources
  unfolding parse_yaml_document
  texts_from resources [] config opts = pure resources
  texts_from resources (text ∷ texts) config opts = do
    objs ← lift (env.safe_load_all text)
    doc_resources ←
        parse_yaml_document (record { objs = objs; transformations = config.transformations }) opts
    texts_from (spread resources doc_resources) texts config opts

  -- The two `if` statements of `parse`.
  unfoldable pub parse_files : ConfigGroupOpts → Option ResourceOptions → M Resources
  unfolding expand_files files_from
  parse_files config opts = elim config.files [
    | none ↦ pure []
    | some patterns ↦ do files ← expand_files patterns; files_from [] files config opts
  ]

  unfoldable pub parse_texts : Resources → ConfigGroupOpts → Option ResourceOptions → M Resources
  unfolding texts_from
  parse_texts resources config opts = elim config.yaml [
    | none ↦ pure resources
    | some texts ↦ texts_from resources (texts_of texts) config opts
  ]

  unfoldable pub parse : ConfigGroupOpts → Option ResourceOptions → M Resources
  unfolding parse_files parse_texts
  parse config opts = do resources ← parse_files config opts; parse_texts resources config opts

  unfoldable pub new_config_group : String → ConfigGroupOpts → Option ResourceOptions → M Collection
  unfolding new_component parse
  new_config_group name config opts = do
    self ← new_component "kubernetes:yaml:ConfigGroup" name (group config) opts
    resources ← parse config (parent_of self)
    pure (record { self = self; resources = resources })
