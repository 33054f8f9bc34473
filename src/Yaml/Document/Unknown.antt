-- ===== src/Yaml/Document/Unknown.antt =====
-- Documents with an object of a type that the package has no class for.
use pulumi_kubernetes.Common.{◌<>◌, ◌≡◌, refl, ◌∙◌, false, List, [], ◌∷◌, ◌++◌, Option, contains}
use pulumi_kubernetes.Js.Value.{Value, object, Fields, property}
use pulumi_kubernetes.Js.Outcome.{Exception, Outcome, ok, throws, error}
use pulumi_kubernetes.Options.{Transformation, ResourceOptions}
use pulumi_kubernetes.Runtime.{External, Log, continue}
use pulumi_kubernetes.Yaml.Dispatch.{get_resource_labels-find_case}
use pulumi_kubernetes.Yaml.Collection.Labels.{get_resource_labels}
use pulumi_kubernetes.Yaml.Object.Branches.{IsTyped, type_text, parse_yaml_object-unknown}
use pulumi_kubernetes.Yaml.Document.{Resources, document_from, parse_yaml_document}
use pulumi_kubernetes.Yaml.Document.Texts.{document_from-append}

-- The effects stay. An exception stays, and resources are lost to the given one.
abbrev pub ending_in : Exception → Outcome Resources × Log → Outcome Resources × Log
ending_in e (ok resources, after) = (throws e, after)
ending_in e (throws x, after) = (throws x, after)

module _ (env : External) (ts : Option (List Transformation)) (opts : Option ResourceOptions)
    (before behind : List Value) (obj : Value) (fs ms : Fields) (typed : IsTyped obj ts fs)
    (meta : property "metadata" fs ≡ object ms)
    (unknown : contains get_resource_labels (type_text fs) ≡ false) where
  document_from-unknown :
      (x : Outcome Resources × Log)
      → continue (λ r. document_from env r (obj ∷ behind) ts opts) x
        ≡ ending_in (error ("Unrecognized resource type " <> type_text fs)) x
  document_from-unknown (ok resources, after) =
      unfold document_from in
      rw
        (parse_yaml_object-unknown env opts after obj ts fs typed ms meta
          ((get_resource_labels-find_case (type_text fs)).0 unknown))
        refl
  document_from-unknown (throws e, after) = refl

  -- A document with an object that is not empty, and that the callbacks leave with a kind, an API
  -- version and an object of metadata, but of a type that `getResource` refuses, does what the
  -- document of the objects before it does, and nothing else, whatever stands behind it. It never
  -- gives resources: it ends in that document's exception, or in an error that names the type. What
  -- is registered by then stays.
  pub parse_yaml_document-unknown :
      (log : Log)
      → parse_yaml_document env
          (record { objs = before ++ obj ∷ behind; transformations = ts })
          opts
          log
        ≡ ending_in
            (error ("Unrecognized resource type " <> type_text fs))
            (parse_yaml_document env (record { objs = before; transformations = ts }) opts log)
  unfolding parse_yaml_document
  parse_yaml_document-unknown log =
      document_from-append env ts opts [] before (obj ∷ behind) log ∙ document_from-unknown _
