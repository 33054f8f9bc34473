-- ===== src/Yaml/Object/Branches.antt =====
-- The branches of `parseYamlObject`, each with its whole result and all its effects.
use pulumi_kubernetes.Common.{
  String, ◌<>◌, ◌≡◌, refl, ◌∙◌, true, false, ◌||◌, List, [], ◌∷◌, ◌++◌, arith, Option, some, none,
}
use text.Mathlib.TextLemmas.{append_assoc as text_append_assoc}
use pulumi_kubernetes.Js.Value.{Value, object, Fields, property, is_nullish, has_no_keys, to_text}
use pulumi_kubernetes.Js.Outcome.{Outcome, ok, throws, read, error, type_error}
use pulumi_kubernetes.Options.{Transformation, ResourceOptions}
use pulumi_kubernetes.Runtime.{External, Log, M, Event, custom, continue, pure}
use pulumi_kubernetes.Resources.Class.{ResourceClass}
use pulumi_kubernetes.Resources.Class.Inputs.{expected_inputs, populate-object}
use pulumi_kubernetes.Resources.Instance.{CustomResource, new_resource}
use pulumi_kubernetes.Yaml.Case.{Case}
use pulumi_kubernetes.Yaml.Switch.{switch_cases}
use pulumi_kubernetes.Yaml.Object.{
  find_case, transform, or_empty, qualified_id, make_object, identify_object, build_object,
  parse_yaml_object,
}
use pulumi_kubernetes.Yaml.Dispatch.{find_case-IsCoherent}

-- `${apiVersion}/${kind}`
abbrev pub type_text : Fields → String
type_text fs = to_text (property "apiVersion" fs) <> ("/" <> to_text (property "kind" fs))

abbrev pub id_of : Fields → Value
id_of ms = qualified_id (property "name" ms) (property "namespace" ms)

-- The instance that a class makes of an object.
abbrev pub instance_of : ResourceClass → Value → Fields → Option ResourceOptions → CustomResource
instance_of c id fs opts = record {
  token = c.token;
  name = id;
  inputs = expected_inputs c.inputs fs;
  opts = opts;
  kept = object fs;
}

-- The effect of an instance's base class.
abbrev pub registration : CustomResource → Event
registration r = custom r.token r.name r.inputs r.opts

continue-pure :
    {A B C : Type 0} (f : B → M C) (b : B) (x : Outcome A × Log)
    → continue f (continue (λ _. pure b) x) ≡ continue (λ _. f b) x
continue-pure f b (ok a, log) = refl
continue-pure f b (throws e, log) = refl

module _ (env : External) (opts : Option ResourceOptions) (log : Log) where
  new_resource-object :
      (c : Case) (text : String) (id : Value) (fs : Fields)
      → find_case text switch_cases ≡ some c
      → new_resource env c.made id (object fs) opts log
        ≡ continue
            (λ _. pure (instance_of c.made id fs opts))
            (
              env.custom (log ++ registration (instance_of c.made id fs opts) ∷ []),
              log ++ registration (instance_of c.made id fs opts) ∷ [],
            )
  unfolding new_resource
  new_resource-object c text id fs found =
      rw (populate-object c.made fs (find_case-IsCoherent text c found).1.distinct_inputs)

read_nullish : (v : Value) → is_nullish v ≡ true → read v "name" ≡ throws (type_error "name" v)
unfolding read
read_nullish v h = ground arith

-- The object is given and not empty, and the callbacks make it an object with `kind` and
-- `apiVersion`, whose properties are `fs`.
pub record IsTyped (obj : Value) (ts : Option (List Transformation)) (fs : Fields) : Type 0 where
  pub given : is_nullish obj ≡ false
  pub full : has_no_keys obj ≡ false
  pub changed : transform (or_empty ts) obj ≡ ok (object fs)
  pub kind : is_nullish (property "kind" fs) ≡ false
  pub version : is_nullish (property "apiVersion" fs) ≡ false

module _ (env : External) (opts : Option ResourceOptions) (log : Log) (obj : Value)
    (ts : Option (List Transformation)) (fs : Fields) (t : IsTyped obj ts fs) where
  parse-typed :
      parse_yaml_object env obj ts opts log
      ≡ identify_object env (property "apiVersion" fs) (property "kind" fs) (object fs) opts log
  unfolding parse_yaml_object build_object read
  parse-typed = rw (t.given, t.full, t.changed, t.kind, t.version)

  identify_object-metadata :
      (ms : Fields)
      → property "metadata" fs ≡ object ms
      → parse_yaml_object env obj ts opts log
        ≡ make_object env
            (property "apiVersion" fs)
            (property "kind" fs)
            (id_of ms)
            (object fs)
            opts
            log
  unfolding identify_object read
  identify_object-metadata ms meta = parse-typed ∙ rw (meta, identify_object)

  -- An object of a known type makes one instance of the type's class, from its own properties, and
  -- registers it once. Its key is the type and the qualified name. What Pulumi throws is passed on.
  pub parse_yaml_object-known :
      (ms : Fields) (c : Case)
      → property "metadata" fs ≡ object ms
      → find_case (type_text fs) switch_cases ≡ some c
      → let r = instance_of c.made (id_of ms) fs opts in
        parse_yaml_object env obj ts opts log
        ≡ continue
            (λ _.
              pure (
                some
                  (record { name = type_text fs <> ("::" <> to_text (id_of ms)); resource = r })))
            (env.custom (log ++ registration r ∷ []), log ++ registration r ∷ [])
  unfolding make_object
  parse_yaml_object-known ms c meta found =
      let (same, fits) = find_case-IsCoherent (type_text fs) c found in
      identify_object-metadata ms meta
      ∙ rw
          (
            found,
            make_object,
            new_resource-object env opts log c (type_text fs) (id_of ms) fs found,
            fits.prefix,
            same,
            text_append_assoc (type_text fs) "::" (to_text (id_of ms)),
          )
          (continue-pure {A = Unit} {B = CustomResource}
            (λ x.
              pure (
                some
                  (record { name = type_text fs <> ("::" <> to_text (id_of ms)); resource = x })))
            (instance_of c.made (id_of ms) fs opts)
            (
              env.custom (log ++ registration (instance_of c.made (id_of ms) fs opts) ∷ []),
              log ++ registration (instance_of c.made (id_of ms) fs opts) ∷ [],
            ))

  -- An object of an unknown type is refused by an error that names the type, before any effect.
  pub parse_yaml_object-unknown :
      (ms : Fields)
      → property "metadata" fs ≡ object ms
      → find_case (type_text fs) switch_cases ≡ none
      → parse_yaml_object env obj ts opts log
        ≡ (throws (error ("Unrecognized resource type " <> type_text fs)), log)
  unfolding make_object
  parse_yaml_object-unknown ms meta missing =
      identify_object-metadata ms meta ∙ rw (missing, make_object)

  -- An object with a type and no metadata ends in a TypeError, also if its type is known.
  pub parse_yaml_object-no_metadata :
      is_nullish (property "metadata" fs) ≡ true
      → parse_yaml_object env obj ts opts log
        ≡ (throws (type_error "name" (property "metadata" fs)), log)
  unfolding identify_object read
  parse_yaml_object-no_metadata missing =
      rw (parse-typed, read_nullish (property "metadata" fs) missing)

-- Nothing is made of `undefined`, `null` and what has no keys, and the callbacks are not called.
pub parse_yaml_object-empty :
    (env : External) (opts : Option ResourceOptions) (log : Log) (obj : Value)
    (ts : Option (List Transformation))
    → (is_nullish obj || has_no_keys obj) ≡ true
    → parse_yaml_object env obj ts opts log ≡ (ok none, log)
unfolding parse_yaml_object
parse_yaml_object-empty env opts log obj ts empty = rw empty
