-- ===== src/Yaml/Document/Overlay.antt =====
-- The files and the texts of one call of `parse`.
use pulumi_kubernetes.Common.{String, ◌≡◌, refl, ◌∙◌, if◌then◌else◌, [], ◌∷◌, List, Option, some}
use pulumi_kubernetes.Common.Dict.{
  lookup, has, spread, NodupKeys, insert, insert-NodupKeys, lookup-spread,
}
use pulumi_kubernetes.Js.Value.{Value}
use pulumi_kubernetes.Js.Outcome.{Outcome, ok, throws}
use pulumi_kubernetes.Options.{OneOrMany, ConfigGroupOpts, ResourceOptions}
use pulumi_kubernetes.Runtime.{External, Log, M, continue}
use pulumi_kubernetes.Yaml.Object.{FileObject}
use pulumi_kubernetes.Yaml.Document.{
  Resources, parse_yaml_document, texts_of, parse_files, parse_texts, parse,
}
use pulumi_kubernetes.Yaml.Document.Objects.{finished, store_all}
use pulumi_kubernetes.Yaml.Document.Registered.{IsRegistered, parse_yaml_document-IsRegistered}
use pulumi_kubernetes.Yaml.Document.Texts.{
  load_texts, document_from-spread, texts_from-document_from,
}

store_all-NodupKeys :
    (d : Resources) (fs : List FileObject) → NodupKeys d → NodupKeys (store_all d fs)
store_all-NodupKeys d [] u = u
store_all-NodupKeys d (f ∷ fs) u =
    store_all-NodupKeys (insert d f.name f.resource) fs (insert-NodupKeys d f.name f.resource u)

-- The keys of a document's resources are distinct.
pub parse_yaml_document-NodupKeys :
    (opts : Option ResourceOptions) (log after : Log) (docs : Resources)
    → IsRegistered opts log (ok docs, after)
    → NodupKeys docs
parse_yaml_document-NodupKeys opts log after docs (fs, same, _, _) =
    rw same (store_all-NodupKeys [] fs tt)

module _ (env : External) (config : ConfigGroupOpts) (opts : Option ResourceOptions)
    (texts : OneOrMany) (objs : List Value) where
  -- The one document of all the texts' objects, over the resources of the files.
  abbrev pub overlay : Resources → M Resources
  overlay found log = finished (spread found) (
      parse_yaml_document env (record { objs = objs; transformations = config.transformations })
        opts log)

  parse_texts-overlay :
      (found : Resources) (log : Log)
      → config.yaml ≡ some texts
      → load_texts env (texts_of texts) ≡ ok objs
      → parse_texts env found config opts log ≡ overlay found log
  unfolding parse_texts parse_yaml_document
  parse_texts-overlay found log given loaded = rw given (
      texts_from-document_from env (record config { yaml = some texts }) opts found (texts_of texts)
        objs log loaded
      ∙ document_from-spread env config.transformations opts found objs log)

  parse_texts-step :
      (x : Outcome Resources × Log)
      → config.yaml ≡ some texts
      → load_texts env (texts_of texts) ≡ ok objs
      → continue (λ found. parse_texts env found config opts) x ≡ continue overlay x
  parse_texts-step (ok found, log) given loaded = parse_texts-overlay found log given loaded
  parse_texts-step (throws e, log) given loaded = refl

  -- When the loader accepts all texts, `parse` first does what the files ask for, and then parses
  -- the one document of all the texts' objects, whose resources are spread over those of the files.
  pub parse-overlay :
      (log : Log)
      → config.yaml ≡ some texts
      → load_texts env (texts_of texts) ≡ ok objs
      → parse env config opts log ≡ continue overlay (parse_files env config opts log)
  unfolding parse
  parse-overlay log given loaded = parse_texts-step (parse_files env config opts log) given loaded

  -- Where the files and the texts are both parsed, a key of the texts' document has the document's
  -- resource, and any other key what the files have, or nothing.
  pub parse-lookup :
      (log middle after : Log) (found docs : Resources) (key : String)
      → config.yaml ≡ some texts
      → load_texts env (texts_of texts) ≡ ok objs
      → parse_files env config opts log ≡ (ok found, middle)
      → parse_yaml_document env
          (record { objs = objs; transformations = config.transformations })
          opts
          middle
        ≡ (ok docs, after)
      → (resources : Resources) × (parse env config opts log ≡ (ok resources, after))
        × (lookup key resources ≡ (if has docs key then lookup key docs else lookup key found))
  parse-lookup log middle after found docs key given loaded files parsed = (
    spread found docs,
    parse-overlay log given loaded ∙ rw (files, parsed) refl,
    lookup-spread found docs key (
        parse_yaml_document-NodupKeys opts middle after docs (
          rw parsed at (
            parse_yaml_document-IsRegistered env
              (record { objs = objs; transformations = config.transformations }) opts middle))),
  )
