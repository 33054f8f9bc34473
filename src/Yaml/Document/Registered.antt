-- ===== src/Yaml/Document/Registered.antt =====
-- The effects of `parseYamlDocument` alone, whatever its objects are.
use pulumi_kubernetes.Common.{◌≡◌, ◌∙◌, ◌⊎◌, inl, inr, List, [], ◌∷◌, ◌++◌, Option, All}
use pulumi_kubernetes.Js.Outcome.{Outcome, ok, throws}
use pulumi_kubernetes.Js.Value.{Value}
use pulumi_kubernetes.Options.{ConfigOpts, Transformation, ResourceOptions}
use pulumi_kubernetes.Runtime.{External, Log}
use pulumi_kubernetes.Resources.Instance.{CustomResource}
use pulumi_kubernetes.Yaml.Object.{FileObject}
use pulumi_kubernetes.Yaml.Object.Branches.{registration}
use pulumi_kubernetes.Yaml.Document.{Resources, parse_yaml_document}
use pulumi_kubernetes.Yaml.Document.Objects.{store_all, registrations}
use pulumi_kubernetes.Yaml.Document.Trace.{IsDocumentRun, parse_yaml_document-IsDocumentRun}

-- Some resources are registered in order and stored, all with the options. A run that throws has
-- registered one more at most.
abbrev pub IsRegistered : Option ResourceOptions → Log → Outcome Resources × Log → Type 0
IsRegistered opts log (ok resources, after) =
    (fs : List FileObject) × (resources ≡ store_all [] fs)
    × (after ≡ log ++ registrations fs)
    × All (λ (f : FileObject). f.resource.opts ≡ opts) fs
IsRegistered opts log (throws e, after) =
    (fs : List FileObject) × ((after ≡ log ++ registrations fs)
      ⊎ ((r : CustomResource) × (after ≡ (log ++ registrations fs) ++ registration r ∷ [])
          × (r.opts ≡ opts)))
    × All (λ (f : FileObject). f.resource.opts ≡ opts) fs

IsDocumentRun-IsRegistered :
    (env : External) (ts : Option (List Transformation)) (opts : Option ResourceOptions)
    (objs : List Value) (log : Log) (x : Outcome Resources × Log)
    → IsDocumentRun env ts opts objs log x
    → IsRegistered opts log x
IsDocumentRun-IsRegistered env ts opts objs log (ok resources, after) (fs, stored, _, e, options) =
    (fs, stored, e, options)
IsDocumentRun-IsRegistered env ts opts objs log (throws x, after) (s, all, inl e, options) =
    (s.fs, inl (e ∙ all), options)
IsDocumentRun-IsRegistered env ts opts objs log (throws x, after)
      (s, all, inr (r, e, given), options) =
    (s.fs, inr (r, e ∙ rw all, given), options)

pub parse_yaml_document-IsRegistered :
    (env : External) (config : ConfigOpts) (opts : Option ResourceOptions) (log : Log)
    → IsRegistered opts log (parse_yaml_document env config opts log)
parse_yaml_document-IsRegistered env config opts log =
    IsDocumentRun-IsRegistered env config.transformations opts config.objs log _
      (parse_yaml_document-IsDocumentRun env config opts log)
