-- ===== src/Yaml/Document/Lookup.antt =====
-- What `getResource` finds in a parsed document.
use pulumi_kubernetes.Common.{
  String, ◌<>◌, ◌≡◌, refl, ap, ◌∙◌, inl, inr, if◌then◌else◌, List, [], ◌∷◌, ◌++◌, ℕ, Option,
  Option-cases, some, none, arith, ◌==◌, eq_refl, contains, Bool-cases,
}
use pulumi_kubernetes.Common.Dict.{lookup, insert, lookup-insert}
use pulumi_kubernetes.Js.Value.{Value, undefined, object, string, Fields, property, to_text}
use pulumi_kubernetes.Js.Outcome.{Outcome, ok, throws, error}
use pulumi_kubernetes.Options.{Transformation, ResourceOptions}
use pulumi_kubernetes.Runtime.{External, Log}
use pulumi_kubernetes.Resources.Instance.{CustomResource}
use pulumi_kubernetes.Yaml.Case.{Case}
use pulumi_kubernetes.Yaml.Switch.{switch_cases}
use pulumi_kubernetes.Yaml.Dispatch.{get_resource_labels-find_case}
use pulumi_kubernetes.Yaml.Collection.Labels.{get_resource_labels}
use pulumi_kubernetes.Yaml.Object.{FileObject, qualified_id, find_case}
use pulumi_kubernetes.Yaml.Object.Branches.{
  IsTyped, registration, instance_of, id_of, type_text, parse_yaml_object-known,
}
use pulumi_kubernetes.Yaml.Document.{
  Collection, Resources, document_from, parse_yaml_document, get_resource,
}
use pulumi_kubernetes.Yaml.Document.Objects.{
  store_all, collect_objects, document_from-collect_objects,
}
use pulumi_kubernetes.Yaml.Document.Texts.{document_from-append}

-- The resource of the last object with the key.
abbrev pub last_named : String → List FileObject → Option CustomResource
last_named key [] = none
last_named key (f ∷ fs) = elim (last_named key fs) [
  | some r ↦ some r
  | none ↦ if f.name == key then some f.resource else none
]

abbrev or_stored : Option CustomResource → Option CustomResource → Option CustomResource
or_stored (some r) old = some r
or_stored none old = old

lookup-store_all :
    (key : String) (d : Resources) (fs : List FileObject)
    → lookup key (store_all d fs) ≡ or_stored (last_named key fs) (lookup key d)
lookup-store_all key d [] = refl
lookup-store_all key d (f ∷ fs) = ground (
  arith,
  lookup-store_all key (insert d f.name f.resource) fs,
  lookup-insert f.name key f.resource d,
)

-- `${name}` or `${namespace}/${name}`
abbrev pub asked_id : String → Option String → String
asked_id first none = first
asked_id first (some name) = first <> ("/" <> name)

-- What `getResource` answers for a type with or without a case.
abbrev pub answer : String → Option Case → Option CustomResource → Outcome (Option CustomResource)
answer kind none found = throws (error ("Unrecognized resource type '" <> (kind <> "'")))
answer kind (some _) found = ok found

get_resource-answer :
    (c : Collection) (kind first : String) (name : Option String)
    → get_resource c kind first name
      ≡ answer kind
          (find_case kind switch_cases)
          (lookup (kind <> ("::" <> asked_id first name)) c.resources)
unfolding get_resource
get_resource-answer c kind first name = elim (Bool-cases (contains get_resource_labels kind)) [
  | inl listed ↦ elim (Option-cases (find_case kind switch_cases)) [
    | inl missing ↦ cc (listed, (get_resource_labels-find_case kind).1 missing)
    | inr (found, e) ↦ rw (listed, e)
  ]
  | inr other ↦ rw (other, (get_resource_labels-find_case kind).0 other)
]

last_named-store_all :
    (key : String) (fs : List FileObject) → lookup key (store_all [] fs) ≡ last_named key fs
last_named-store_all key fs = lookup-store_all key [] fs ∙ or_stored-none (last_named key fs)
  where
    or_stored-none : (o : Option CustomResource) → or_stored o (lookup key []) ≡ o
    or_stored-none none = unfold lookup in refl
    or_stored-none (some r) = refl

-- On the resources of a document's objects, `getResource` gives for a type that `parseYamlObject`
-- knows the resource of the last object with that type and id, and `undefined` if there is none.
-- For any other type it throws.
pub get_resource-store_all :
    (self : ℕ) (fs : List FileObject) (kind first : String) (name : Option String)
    → get_resource (record { self = self; resources = store_all [] fs }) kind first name
      ≡ answer kind
          (find_case kind switch_cases)
          (last_named (kind <> ("::" <> asked_id first name)) fs)
get_resource-store_all self fs kind first name =
    get_resource-answer (record { self = self; resources = store_all [] fs }) kind first name
    ∙ ap (answer kind (find_case kind switch_cases)) (last_named-store_all _ fs)

-- The namespace as a property: `undefined` if there is none.
abbrev pub namespace_value : Option String → Value
namespace_value none = undefined
namespace_value (some space) = string space

-- The id of a name in a namespace, where an empty namespace counts as none.
abbrev pub id_in : Option String → String → String
id_in none name = name
id_in (some space) name = if space == "" then name else asked_id space (some name)

-- The arguments of `getResource` for such a name.
abbrev pub ask : Collection → String → Option String → String → Outcome (Option CustomResource)
ask c kind none name = get_resource c kind name none
ask c kind (some space) name =
    if space == "" then get_resource c kind name none else get_resource c kind space (some name)

ask-answer :
    (c : Collection) (kind : String) (space : Option String) (name : String)
    → ask c kind space name
      ≡ answer kind
          (find_case kind switch_cases)
          (lookup (kind <> ("::" <> id_in space name)) c.resources)
ask-answer c kind none name = get_resource-answer c kind name none
ask-answer c kind (some space) name = elim (Bool-cases (space == "")) [
  | inl bare ↦ rw bare (get_resource-answer c kind name none)
  | inr given ↦ rw given (get_resource-answer c kind space (some name))
]

qualified_id-in :
    (name : String) (space : Option String)
    → to_text (qualified_id (string name) (namespace_value space)) ≡ id_in space name
unfolding qualified_id to_text
qualified_id-in name none = refl
qualified_id-in name (some space) = ground arith

id_of-in :
    (ms : Fields) (name : String) (space : Option String)
    → property "name" ms ≡ string name
    → property "namespace" ms ≡ namespace_value space
    → to_text (id_of ms) ≡ id_in space name
id_of-in ms name space named placed = rw (named, placed) (qualified_id-in name space)

module _ (env : External) (ts : Option (List Transformation)) (opts : Option ResourceOptions)
    (before rest : List Value) (obj : Value) (fs ms : Fields) (c : Case) (name : String)
    (space : Option String) (log after done : Log) (old : Resources) (others : List FileObject)
    (self : ℕ) where
  -- An object of a known type with a name, in a namespace or in none, anywhere in a document: when
  -- the objects before it are parsed, Pulumi accepts it, and the objects behind it are parsed and
  -- none of them has its type and id, the document is parsed, and `getResource` finds by its type,
  -- namespace and name the instance that was made of it.
  pub get_resource-parse_yaml_document :
      IsTyped obj ts fs
      → property "metadata" fs ≡ object ms
      → property "name" ms ≡ string name
      → property "namespace" ms ≡ namespace_value space
      → find_case (type_text fs) switch_cases ≡ some c
      → document_from env [] before ts opts log ≡ (ok old, after)
      → env.custom (after ++ registration (instance_of c.made (id_of ms) fs opts) ∷ []) ≡ ok tt
      → collect_objects env ts opts rest
          (after ++ registration (instance_of c.made (id_of ms) fs opts) ∷ [])
        ≡ (ok others, done)
      → last_named (type_text fs <> ("::" <> id_in space name)) others ≡ none
      → (resources : Resources) × (parse_yaml_document env
            (record { objs = before ++ obj ∷ rest; transformations = ts })
            opts
            log
          ≡ (ok resources, done))
        × (ask (record { self = self; resources = resources }) (type_text fs) space name
            ≡ ok (some (instance_of c.made (id_of ms) fs opts)))
  unfolding parse_yaml_document
  get_resource-parse_yaml_document typed meta named placed found start accepted collected last = (
    store_all
        (insert old (type_text fs <> ("::" <> to_text (id_of ms)))
          (instance_of c.made (id_of ms) fs opts))
        others,
    document_from-append env ts opts [] before (obj ∷ rest) log
        ∙ rw start (
            rw (parse_yaml_object-known env opts after obj ts fs typed ms c meta found, accepted)
              (document_from-collect_objects env ts opts _ rest _ ∙ rw collected refl)),
    rw
        (
          ask-answer,
          id_of-in ms name space named placed,
          found,
          lookup-store_all,
          last,
          lookup-insert,
          eq_refl,
        )
        refl,
  )
