-- ===== src/Yaml/Document/Objects.antt =====
-- `parseYamlDocument` in two steps: all objects are parsed, then all are stored.
use pulumi_kubernetes.Common.{◌≡◌, refl, sym, ◌∙◌, List, [], ◌∷◌, Option, some, none}
use pulumi_kubernetes.Common.Dict.{insert}
use pulumi_kubernetes.Js.Value.{Value}
use pulumi_kubernetes.Js.Outcome.{Outcome, ok, throws}
use pulumi_kubernetes.Options.{Transformation, ResourceOptions}
use pulumi_kubernetes.Runtime.{External, Log, M, ◌>>=◌, continue, pure}
use pulumi_kubernetes.Yaml.Object.{FileObject, parse_yaml_object}
use pulumi_kubernetes.Yaml.Object.Branches.{registration}
use pulumi_kubernetes.Yaml.Document.{Resources, store, document_from}

abbrev pub add : Option FileObject → List FileObject → List FileObject
add none fs = fs
add (some f) fs = f ∷ fs

-- The objects stored one after another.
abbrev pub store_all : Resources → List FileObject → Resources
store_all resources [] = resources
store_all resources (f ∷ fs) = store_all (store resources (some f)) fs

-- The registrations of the objects' resources.
abbrev pub registrations : List FileObject → Log
registrations [] = []
registrations (f ∷ fs) = registration f.resource ∷ registrations fs

abbrev pub finished : {A B : Type 0} → (A → B) → Outcome A × Log → Outcome B × Log
finished g (ok a, log) = (ok (g a), log)
finished g (throws e, log) = (throws e, log)

finished-pure :
    {A B C : Type 0} (g : B → C) (h : A → B) (x : Outcome A × Log)
    → finished g (continue (λ a. pure (h a)) x) ≡ finished (λ a. g (h a)) x
finished-pure g h (ok a, log) = refl
finished-pure g h (throws e, log) = refl

module _ (env : External) (ts : Option (List Transformation)) (opts : Option ResourceOptions) where
  -- All objects parsed, in order; `null` results are left out.
  unfoldable pub collect_objects : List Value → M (List FileObject)
  collect_objects [] = pure []
  collect_objects (obj ∷ objs) = do
    file_object ← parse_yaml_object env obj ts opts
    fs ← collect_objects objs
    pure (add file_object fs)

  module _ (objs : List Value)
      (ih : (resources : Resources) (log : Log)
        → document_from env resources objs ts opts log
          ≡ finished (store_all resources) (collect_objects objs log)) where
    document_from-step :
        (resources : Resources) (x : Outcome (Option FileObject) × Log)
        → continue (λ f. document_from env (store resources f) objs ts opts) x
          ≡ finished
              (store_all resources)
              (continue (λ f. collect_objects objs >>= λ fs. pure (add f fs)) x)
    document_from-step resources (throws e, log) = refl
    document_from-step resources (ok none, log) =
        ih resources log
        ∙ sym (finished-pure (store_all resources) (add none) (collect_objects objs log))
    document_from-step resources (ok (some f), log) =
        ih (insert resources f.name f.resource) log
        ∙ sym (finished-pure (store_all resources) (add (some f)) (collect_objects objs log))

  -- Storing each object before the next is parsed comes to the same as storing all at the end.
  pub document_from-collect_objects :
      (resources : Resources) (objs : List Value) (log : Log)
      → document_from env resources objs ts opts log
        ≡ finished (store_all resources) (collect_objects objs log)
  unfolding document_from collect_objects
  document_from-collect_objects resources [] log = refl
  document_from-collect_objects resources (obj ∷ objs) log =
      document_from-step objs (λ r l. document_from-collect_objects r objs l) resources
        (parse_yaml_object env obj ts opts log)
