-- ===== src/Yaml/Document/Bounds.antt =====
-- How much a document of a given length registers and holds.
use pulumi_kubernetes.Common.{
  ℕ, suc, ◌+◌, ◌≤◌, ◌≡◌, inl, inr, String, ◌==◌, Bool-cases, List, [], ◌∷◌, Option, some, none,
  arith, length, length-append,
}
use pulumi_kubernetes.Common.Dict.{insert, NodupKeys}
use pulumi_kubernetes.Js.Value.{Value}
use pulumi_kubernetes.Js.Outcome.{Outcome, ok, throws}
use pulumi_kubernetes.Options.{ConfigOpts, Transformation, ResourceOptions}
use pulumi_kubernetes.Runtime.{External, Log, continue}
use pulumi_kubernetes.Resources.Instance.{CustomResource}
use pulumi_kubernetes.Yaml.Object.{FileObject, parse_yaml_object}
use pulumi_kubernetes.Yaml.Object.Branches.{registration}
use pulumi_kubernetes.Yaml.Object.Run.{IsRun, parse_yaml_object-IsRun}
use pulumi_kubernetes.Yaml.Document.{Resources, store, document_from, parse_yaml_document}
use pulumi_kubernetes.Yaml.Document.Objects.{store_all}
use pulumi_kubernetes.Yaml.Document.Registered.{IsRegistered, parse_yaml_document-IsRegistered}
use pulumi_kubernetes.Yaml.Document.Made.{
  IsMade, finished_all, skipped, made, IsDocumentOf, parse_yaml_document-IsDocumentOf,
}
use pulumi_kubernetes.Yaml.Document.Overlay.{parse_yaml_document-NodupKeys}

length-insert :
    (d : Resources) (k : String) (v : CustomResource) → length (insert d k v) ≤ suc (length d)
unfolding insert
length-insert [] k v = omega arith
length-insert ((j, w) ∷ d) k v = elim (Bool-cases (j == k)) [
  | inl same ↦ rw same (omega arith)
  | inr other ↦ rw other (omega (arith, length-insert d k v))
]

length-store_all :
    (d : Resources) (fs : List FileObject) → length (store_all d fs) ≤ length d + length fs
length-store_all d [] = omega arith
length-store_all d (f ∷ fs) =
    omega
      (arith, length-insert d f.name f.resource, length-store_all (insert d f.name f.resource) fs)

length-IsMade :
    {env : External} {ts : Option (List Transformation)} {opts : Option ResourceOptions}
    {objs : List Value} {fs : List FileObject}
    → IsMade env ts opts objs fs
    → length fs ≤ length objs
length-IsMade finished_all = omega arith
length-IsMade (skipped obj objs fs log after e h) = omega (arith, length-IsMade h)
length-IsMade (made obj f objs fs e h) = omega (arith, length-IsMade h)

module _ (env : External) (ts : Option (List Transformation)) (opts : Option ResourceOptions) where
  IsRun-length :
      (log : Log) (x : Outcome (Option FileObject) × Log)
      → IsRun opts log x
      → length x.1 ≤ length log + 1
  IsRun-length log (ok none, after) e = rw e (omega arith)
  IsRun-length log (ok (some f), after) (e, _) =
      rw e (omega (arith, length-append log (registration f.resource ∷ [])))
  IsRun-length log (throws x, after) (inl e) = rw e (omega arith)
  IsRun-length log (throws x, after) (inr (r, e, _)) =
      rw e (omega (arith, length-append log (registration r ∷ [])))

  document_from-length_step :
      (resources : Resources) (objs : List Value) (log : Log)
      (ih : (r : Resources) (l : Log)
        → length (document_from env r objs ts opts l).1 ≤ length l + length objs)
      (x : Outcome (Option FileObject) × Log)
      → length x.1 ≤ length log + 1
      → length (continue (λ f. document_from env (store resources f) objs ts opts) x).1
        ≤ length log + suc (length objs)
  document_from-length_step resources objs log ih (ok f, after) h =
      omega (arith, h, ih (store resources f) after)
  document_from-length_step resources objs log ih (throws e, after) h = omega (arith, h)

  document_from-length :
      (resources : Resources) (objs : List Value) (log : Log)
      → length (document_from env resources objs ts opts log).1 ≤ length log + length objs
  unfolding document_from
  document_from-length resources [] log = omega arith
  document_from-length resources (obj ∷ objs) log =
      document_from-length_step resources objs log (λ r l. document_from-length r objs l)
        (parse_yaml_object env obj ts opts log)
        (IsRun-length log (parse_yaml_object env obj ts opts log)
          (parse_yaml_object-IsRun env opts log obj ts))

-- Resources under distinct keys, and no more than the bound.
abbrev pub IsBounded : ℕ → Outcome Resources → Type 0
IsBounded n (ok resources) = (length resources ≤ n) × NodupKeys resources
IsBounded n (throws e) = Unit

-- A document never registers more than one resource for each of its objects, whether it is parsed to
-- its end or not. If it is, it holds at most one for each object, under distinct keys.
pub parse_yaml_document-length :
    (env : External) (config : ConfigOpts) (opts : Option ResourceOptions) (log : Log)
    (o : Outcome Resources) (after : Log)
    → parse_yaml_document env config opts log ≡ (o, after)
    → (length after ≤ length log + length config.objs) × IsBounded (length config.objs) o
unfolding parse_yaml_document
parse_yaml_document-length env config opts log o after run = (
  rw run at (document_from-length env config.transformations opts [] config.objs log),
  bounded o (rw run at (parse_yaml_document-IsDocumentOf env config opts log))
      (rw run at (parse_yaml_document-IsRegistered env config opts log)),
)
  where
    bounded :
        (o : Outcome Resources)
        → IsDocumentOf env config.transformations opts config.objs (o, after)
        → IsRegistered opts log (o, after)
        → IsBounded (length config.objs) o
    bounded (ok resources) (fs, same, all_made) run = (
      rw same (omega (arith, length-store_all [] fs, length-IsMade all_made)),
      parse_yaml_document-NodupKeys opts log after resources run,
    )
    bounded (throws e) of run = tt
