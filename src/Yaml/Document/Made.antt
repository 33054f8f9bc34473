-- ===== src/Yaml/Document/Made.antt =====
-- Which objects of a document its resources are made of.
use pulumi_kubernetes.Common.{◌≡◌, refl, List, [], ◌∷◌, Option, some, none}
use pulumi_kubernetes.Js.Value.{Value}
use pulumi_kubernetes.Js.Outcome.{Outcome, ok, throws}
use pulumi_kubernetes.Options.{ConfigOpts, Transformation, ResourceOptions}
use pulumi_kubernetes.Runtime.{External, Log, ◌>>=◌, continue, pure}
use pulumi_kubernetes.Yaml.Object.{FileObject, or_empty, transform, parse_yaml_object}
use pulumi_kubernetes.Yaml.Object.Kept.{IsMadeOf, parse_yaml_object-IsMadeOf}
use pulumi_kubernetes.Yaml.Document.{Resources, parse_yaml_document}
use pulumi_kubernetes.Yaml.Document.Objects.{
  add, store_all, finished, collect_objects, document_from-collect_objects,
}

-- Objects in order, with the resources made of them: each makes one that keeps what the callbacks
-- leave of it, or it makes none.
pub data IsMade (env : External) (ts : Option (List Transformation)) (opts : Option ResourceOptions)
    : List Value → List FileObject → Type 0 where
  finished_all : IsMade env ts opts [] []
  skipped :
      (obj : Value) (objs : List Value) (fs : List FileObject) (log after : Log)
      → parse_yaml_object env obj ts opts log ≡ (ok none, after)
      → IsMade env ts opts objs fs
      → IsMade env ts opts (obj ∷ objs) fs
  made :
      (obj : Value) (f : FileObject) (objs : List Value) (fs : List FileObject)
      → transform (or_empty ts) obj ≡ ok f.resource.kept
      → IsMade env ts opts objs fs
      → IsMade env ts opts (obj ∷ objs) (f ∷ fs)

module _ (env : External) (ts : Option (List Transformation)) (opts : Option ResourceOptions) where
  abbrev AreMade : List Value → Outcome (List FileObject) × Log → Type 0
  AreMade objs (ok fs, after) = IsMade env ts opts objs fs
  AreMade objs (throws e, after) = Unit

  AreMade-skipped :
      (obj : Value) (objs : List Value) (log after : Log) (y : Outcome (List FileObject) × Log)
      → parse_yaml_object env obj ts opts log ≡ (ok none, after)
      → AreMade objs y
      → AreMade (obj ∷ objs) (continue (λ fs. pure (add none fs)) y)
  AreMade-skipped obj objs log after (ok fs, _) e h = skipped obj objs fs log after e h
  AreMade-skipped obj objs log after (throws x, _) e h = tt

  AreMade-made :
      (obj : Value) (f : FileObject) (objs : List Value) (y : Outcome (List FileObject) × Log)
      → transform (or_empty ts) obj ≡ ok f.resource.kept
      → AreMade objs y
      → AreMade (obj ∷ objs) (continue (λ fs. pure (add (some f) fs)) y)
  AreMade-made obj f objs (ok fs, _) e h = made obj f objs fs e h
  AreMade-made obj f objs (throws x, _) e h = tt

  AreMade-step :
      (obj : Value) (objs : List Value)
      (ih : (log : Log) → AreMade objs (collect_objects env ts opts objs log)) (log : Log)
      (x : Outcome (Option FileObject) × Log)
      → parse_yaml_object env obj ts opts log ≡ x
      → IsMadeOf (transform (or_empty ts) obj) x
      → AreMade
          (obj ∷ objs)
          (continue (λ f. collect_objects env ts opts objs >>= λ fs. pure (add f fs)) x)
  AreMade-step obj objs ih log (ok none, after) e h =
      AreMade-skipped obj objs log after (collect_objects env ts opts objs after) e (ih after)
  AreMade-step obj objs ih log (ok (some f), after) e h =
      AreMade-made obj f objs (collect_objects env ts opts objs after) h (ih after)
  AreMade-step obj objs ih log (throws x, after) e h = tt

  collect_objects-AreMade :
      (objs : List Value) (log : Log) → AreMade objs (collect_objects env ts opts objs log)
  unfolding collect_objects
  collect_objects-AreMade [] log = finished_all
  collect_objects-AreMade (obj ∷ objs) log =
      AreMade-step obj objs (λ l. collect_objects-AreMade objs l) log
        (parse_yaml_object env obj ts opts log) refl
        (parse_yaml_object-IsMadeOf env opts log obj ts)

  -- The resources of a run that returns are made of the objects.
  abbrev pub IsDocumentOf : List Value → Outcome Resources × Log → Type 0
  IsDocumentOf objs (ok resources, after) =
      (fs : List FileObject) × (resources ≡ store_all [] fs) × IsMade env ts opts objs fs
  IsDocumentOf objs (throws e, after) = Unit

  IsDocumentOf-finished :
      (objs : List Value) (x : Outcome (List FileObject) × Log)
      → AreMade objs x
      → IsDocumentOf objs (finished (store_all []) x)
  IsDocumentOf-finished objs (ok fs, after) h = (fs, refl, h)
  IsDocumentOf-finished objs (throws e, after) h = tt

-- The resources of a document that is parsed to its end are made of its objects, in order and at
-- most one of each: an object's resource keeps as its arguments what the callbacks leave of the
-- object, and an object without a resource is one that `parseYamlObject` gives `null` for.
pub parse_yaml_document-IsDocumentOf :
    (env : External) (config : ConfigOpts) (opts : Option ResourceOptions) (log : Log)
    → IsDocumentOf env config.transformations opts config.objs
        (parse_yaml_document env config opts log)
unfolding parse_yaml_document
parse_yaml_document-IsDocumentOf env config opts log =
    rw (document_from-collect_objects env config.transformations opts [] config.objs log) (
      IsDocumentOf-finished env config.transformations opts config.objs _
        (collect_objects-AreMade env config.transformations opts config.objs log))
