-- ===== src/Yaml/Object/Run.antt =====
-- What a run of `parseYamlObject` can do to the log, on every input.
use pulumi_kubernetes.Common.{
  ◌<>◌, String, Option-cases, ◌≡◌, refl, ◌⊎◌, ◌||◌, List, [], ◌∷◌, ◌++◌, inl, inr, Option, some,
  none, Bool-cases,
}
use pulumi_kubernetes.Js.Value.{Value, to_text, is_nullish, has_no_keys}
use pulumi_kubernetes.Js.Outcome.{Outcome-cases, read, Outcome, ok, throws}
use pulumi_kubernetes.Options.{Transformation, ResourceOptions}
use pulumi_kubernetes.Runtime.{External, Log, continue, pure}
use pulumi_kubernetes.Resources.Class.{populate}
use pulumi_kubernetes.Resources.Instance.{CustomResource, new_resource}
use pulumi_kubernetes.Yaml.Object.{
  FileObject, or_empty, transform, qualified_id, find_case, make_object, identify_object,
  build_object, parse_yaml_object,
}
use pulumi_kubernetes.Yaml.Case.{Case}
use pulumi_kubernetes.Yaml.Switch.{switch_cases}
use pulumi_kubernetes.Yaml.Object.Branches.{registration}

module _ (opts : Option ResourceOptions) (log : Log) where
  -- A run that gives an object has registered its resource, under the given options. One that gives
  -- `null` has no effect. One that throws has registered at most one resource.
  abbrev pub IsRun : Outcome (Option FileObject) × Log → Type 0
  IsRun (ok none, after) = after ≡ log
  IsRun (ok (some f), after) =
      (after ≡ log ++ registration f.resource ∷ []) × (f.resource.opts ≡ opts)
  IsRun (throws e, after) =
      (after ≡ log)
      ⊎ ((r : CustomResource) × (after ≡ log ++ registration r ∷ []) × (r.opts ≡ opts))

module _ (env : External) (opts : Option ResourceOptions) (log : Log) where
  new_resource-IsRun :
      (c : Case) (id obj : Value) (key : String)
      → IsRun opts log (
          continue
            (λ resource. pure (some (record { name = key; resource = resource })))
            (new_resource env c.made id obj opts log))
  unfolding new_resource
  new_resource-IsRun c id obj key = elim (Outcome-cases (populate c.made obj)) [
    | inl (inputs, filled) ↦
        let r : CustomResource = record {
          token = c.made.token;
          name = id;
          inputs = inputs;
          opts = opts;
          kept = obj;
        } in
        elim (Outcome-cases (env.custom (log ++ registration r ∷ []))) [
          | inl (done, accepted) ↦ rw (filled, new_resource) (rw accepted (refl, refl))
          | inr (e, refused) ↦ rw (filled, new_resource) (rw refused (inr (r, refl, refl)))
        ]
    | inr (e, failed) ↦ rw (failed, new_resource) (inl refl)
  ]

  make_object-IsRun : (v k id obj : Value) → IsRun opts log (make_object env v k id obj opts log)
  unfolding make_object
  make_object-IsRun v k id obj =
      elim (Option-cases (find_case (to_text v <> ("/" <> to_text k)) switch_cases)) [
        | inl missing ↦ rw (missing, make_object) (inl refl)
        | inr (c, found) ↦
            rw (found, make_object) (new_resource-IsRun c id obj (c.prefix <> to_text id))
      ]

  identify_object-IsRun : (v k obj : Value) → IsRun opts log (identify_object env v k obj opts log)
  unfolding identify_object
  identify_object-IsRun v k obj = elim (Outcome-cases (read obj "metadata")) [
    | inl (metadata, found) ↦ elim (Outcome-cases (read metadata "name")) [
      | inl (name, named) ↦ elim (Outcome-cases (read metadata "namespace")) [
        | inl (namespace, placed) ↦
            rw (found, identify_object)
              (rw named (rw placed (make_object-IsRun v k (qualified_id name namespace) obj)))
        | inr (e, failed) ↦ rw (found, identify_object) (rw named (rw failed (inl refl)))
      ]
      | inr (e, failed) ↦ rw (found, identify_object) (rw failed (inl refl))
    ]
    | inr (e, failed) ↦ rw (failed, identify_object) (inl refl)
  ]

  build_object-IsRun : (obj : Value) → IsRun opts log (build_object env obj opts log)
  unfolding build_object
  build_object-IsRun obj = elim (Outcome-cases (read obj "kind")) [
    | inl (k, kind) ↦ elim (Outcome-cases (read obj "apiVersion")) [
      | inl (v, version) ↦ elim (Bool-cases (is_nullish k || is_nullish v)) [
        | inl missing ↦ rw (kind, build_object) (rw version (rw missing refl))
        | inr typed ↦
            rw (kind, build_object) (rw version (rw typed (identify_object-IsRun v k obj)))
      ]
      | inr (e, failed) ↦ rw (kind, build_object) (rw failed (inl refl))
    ]
    | inr (e, failed) ↦ rw (failed, build_object) (inl refl)
  ]

  -- A run that gives an object has registered that object's resource and nothing else, under the
  -- given options. One that gives `null` has no effect. One that throws has registered one resource
  -- at most, under the given options.
  pub parse_yaml_object-IsRun :
      (obj : Value) (ts : Option (List Transformation))
      → IsRun opts log (parse_yaml_object env obj ts opts log)
  unfolding parse_yaml_object
  parse_yaml_object-IsRun obj ts = elim (Bool-cases (is_nullish obj || has_no_keys obj)) [
    | inl empty ↦ rw (empty, parse_yaml_object) refl
    | inr full ↦ elim (Outcome-cases (transform (or_empty ts) obj)) [
      | inl (changed, done) ↦ rw (full, parse_yaml_object) (rw done (build_object-IsRun changed))
      | inr (e, failed) ↦ rw (full, parse_yaml_object) (rw failed (inl refl))
    ]
  ]
