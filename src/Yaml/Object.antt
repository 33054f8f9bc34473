-- ===== src/Yaml/Object.antt =====
-- `parseYamlObject` of pack/nodejs/provider.ts.
pub mod Branches
pub mod Names
pub mod Run
pub mod Transformed
pub mod Kept
use pulumi_kubernetes.Common.{
  String, ◌<>◌, ◌||◌, ◌==◌, if◌then◌else◌, Option, none, some, List, [], ◌∷◌,
}
use pulumi_kubernetes.Js.Value.{
  Value, undefined, string, is_nullish, is_undefined, is_reference, has_no_keys, truthy, to_text,
}
use pulumi_kubernetes.Js.Outcome
use pulumi_kubernetes.Js.Outcome.{Outcome, ok, error, read}
use pulumi_kubernetes.Options.{Transformation, ResourceOptions}
use pulumi_kubernetes.Runtime.{External, M, ◌>>=◌, pure, lift, throw}
use pulumi_kubernetes.Resources.Instance.{CustomResource, new_resource}
use pulumi_kubernetes.Yaml.Case.{Case}
use pulumi_kubernetes.Yaml.Switch.{switch_cases}

-- `{name: string, resource: pulumi.CustomResource}`
pub record FileObject : Type 0 where
  pub name : String
  pub resource : CustomResource

-- The first case whose label equals the text.
unfoldable pub find_case : String → List Case → Option Case
find_case text [] = none
find_case text (c ∷ cases) = if c.label == text then some c else find_case text cases

-- `t(obj)`: a callback can change an object or an array, and no other value.
unfoldable pub apply_transformation : Transformation → Value → Outcome Value
apply_transformation t obj =
    Outcome.◌>>=◌ (t obj) (λ changed. ok (if is_reference obj then changed else obj))

unfoldable pub transform : List Transformation → Value → Outcome Value
unfolding apply_transformation
transform [] obj = ok obj
transform (t ∷ ts) obj = Outcome.◌>>=◌ (apply_transformation t obj) (transform ts)

-- `transformations || []`
abbrev pub or_empty {ℓ} : {A : Type ℓ} → Option (List A) → List A
or_empty none = []
or_empty (some xs) = xs

-- The name, behind its namespace if that is neither missing nor empty.
unfoldable pub qualified_id : Value → Value → Value
qualified_id name given =
    let namespace = if truthy given then given else undefined in
    if is_undefined namespace then name else string (to_text namespace <> ("/" <> to_text name))

module _ (env : External) where
  -- The `switch`: the case's resource, or an error.
  unfoldable pub make_object :
      Value → Value → Value → Value → Option ResourceOptions → M (Option FileObject)
  make_object api_version kind id obj opts =
      elim (find_case (to_text api_version <> ("/" <> to_text kind)) switch_cases) [
        | none ↦ throw (
            error ("Unrecognized resource type " <> (to_text api_version <> ("/" <> to_text kind))))
        | some c ↦ do
          resource ← new_resource env c.made id obj opts
          pure (some (record { name = c.prefix <> to_text id; resource = resource }))
      ]

  -- From the read of `metadata` on.
  unfoldable pub identify_object :
      Value → Value → Value → Option ResourceOptions → M (Option FileObject)
  unfolding make_object qualified_id
  identify_object api_version kind obj opts = do
    metadata ← lift (read obj "metadata")
    name ← lift (read metadata "name")
    namespace ← lift (read metadata "namespace")
    make_object api_version kind (qualified_id name namespace) obj opts

  -- From the read of `kind` on.
  unfoldable pub build_object : Value → Option ResourceOptions → M (Option FileObject)
  unfolding identify_object
  build_object obj opts = do
    kind ← lift (read obj "kind")
    api_version ← lift (read obj "apiVersion")
    let missing = is_nullish kind || is_nullish api_version
    if missing then pure none else identify_object api_version kind obj opts

  unfoldable pub parse_yaml_object :
      Value → Option (List Transformation) → Option ResourceOptions → M (Option FileObject)
  unfolding build_object transform
  parse_yaml_object obj transformations opts =
      if is_nullish obj || has_no_keys obj
      then pure none
      else do changed ← lift (transform (or_empty transformations) obj); build_object changed opts
