-- ===== src/Yaml/Object/Kept.antt =====
-- The arguments that the resource of an object keeps.
use pulumi_kubernetes.Common.{
  ◌<>◌, String, Option-cases, ◌≡◌, refl, ◌||◌, List, [], ◌∷◌, ◌++◌, inl, inr, Option, some, none,
  Bool-cases,
}
use pulumi_kubernetes.Js.Value.{Value, to_text, is_nullish, has_no_keys}
use pulumi_kubernetes.Js.Outcome.{Outcome-cases, read, Outcome, ok, throws}
use pulumi_kubernetes.Options.{Transformation, ResourceOptions}
use pulumi_kubernetes.Runtime.{External, Log, continue, pure, custom}
use pulumi_kubernetes.Resources.Class.{populate}
use pulumi_kubernetes.Resources.Instance.{new_resource}
use pulumi_kubernetes.Yaml.Object.{
  FileObject, or_empty, transform, qualified_id, find_case, make_object, identify_object,
  build_object, parse_yaml_object,
}
use pulumi_kubernetes.Yaml.Case.{Case}
use pulumi_kubernetes.Yaml.Switch.{switch_cases}

-- Where there is a resource, the value that it keeps is the one given.
abbrev pub IsMadeOf : Outcome Value → Outcome (Option FileObject) × Log → Type 0
IsMadeOf given (ok (some f), after) = given ≡ ok f.resource.kept
IsMadeOf given (ok none, after) = Unit
IsMadeOf given (throws e, after) = Unit

module _ (env : External) (opts : Option ResourceOptions) (log : Log) where
  new_resource-IsMadeOf :
      (c : Case) (id obj : Value) (key : String)
      → IsMadeOf (ok obj) (
          continue
            (λ resource. pure (some (record { name = key; resource = resource })))
            (new_resource env c.made id obj opts log))
  unfolding new_resource
  new_resource-IsMadeOf c id obj key = elim (Outcome-cases (populate c.made obj)) [
    | inl (inputs, filled) ↦
        elim (Outcome-cases (env.custom (log ++ custom c.made.token id inputs opts ∷ []))) [
          | inl (done, accepted) ↦ rw (filled, new_resource) (rw accepted refl)
          | inr (e, refused) ↦ rw (filled, new_resource) (rw refused tt)
        ]
    | inr (e, failed) ↦ rw (failed, new_resource) tt
  ]

  make_object-IsMadeOf :
      (v k id obj : Value) → IsMadeOf (ok obj) (make_object env v k id obj opts log)
  unfolding make_object
  make_object-IsMadeOf v k id obj =
      elim (Option-cases (find_case (to_text v <> ("/" <> to_text k)) switch_cases)) [
        | inl missing ↦ rw (missing, make_object) tt
        | inr (c, found) ↦
            rw (found, make_object) (new_resource-IsMadeOf c id obj (c.prefix <> to_text id))
      ]

  identify_object-IsMadeOf :
      (v k obj : Value) → IsMadeOf (ok obj) (identify_object env v k obj opts log)
  unfolding identify_object
  identify_object-IsMadeOf v k obj = elim (Outcome-cases (read obj "metadata")) [
    | inl (metadata, found) ↦ elim (Outcome-cases (read metadata "name")) [
      | inl (name, named) ↦ elim (Outcome-cases (read metadata "namespace")) [
        | inl (namespace, placed) ↦
            rw (found, identify_object)
              (rw named (rw placed (make_object-IsMadeOf v k (qualified_id name namespace) obj)))
        | inr (e, failed) ↦ rw (found, identify_object) (rw named (rw failed tt))
      ]
      | inr (e, failed) ↦ rw (found, identify_object) (rw failed tt)
    ]
    | inr (e, failed) ↦ rw (failed, identify_object) tt
  ]

  build_object-IsMadeOf : (obj : Value) → IsMadeOf (ok obj) (build_object env obj opts log)
  unfolding build_object
  build_object-IsMadeOf obj = elim (Outcome-cases (read obj "kind")) [
    | inl (k, kind) ↦ elim (Outcome-cases (read obj "apiVersion")) [
      | inl (v, version) ↦ elim (Bool-cases (is_nullish k || is_nullish v)) [
        | inl missing ↦ rw (kind, build_object) (rw version (rw missing tt))
        | inr typed ↦
            rw (kind, build_object) (rw version (rw typed (identify_object-IsMadeOf v k obj)))
      ]
      | inr (e, failed) ↦ rw (kind, build_object) (rw failed tt)
    ]
    | inr (e, failed) ↦ rw (failed, build_object) tt
  ]

  pub parse_yaml_object-IsMadeOf :
      (obj : Value) (ts : Option (List Transformation))
      → IsMadeOf (transform (or_empty ts) obj) (parse_yaml_object env obj ts opts log)
  unfolding parse_yaml_object
  parse_yaml_object-IsMadeOf obj ts = elim (Bool-cases (is_nullish obj || has_no_keys obj)) [
    | inl empty ↦ rw (empty, parse_yaml_object) tt
    | inr full ↦ elim (Outcome-cases (transform (or_empty ts) obj)) [
      | inl (changed, done) ↦ rw (full, parse_yaml_object) (rw done (build_object-IsMadeOf changed))
      | inr (e, failed) ↦ rw (full, parse_yaml_object) (rw failed tt)
    ]
  ]
