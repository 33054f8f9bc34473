-- ===== src/Yaml/Document/Texts.antt =====
-- Documents in parts: a document's objects, and the texts of one call of `parse`.
use pulumi_kubernetes.Common.{
  String, ◌≡◌, refl, sym, ap, ◌∙◌, inl, inr, List, [], ◌∷◌, ◌++◌, Option, some, none, arith,
}
use pulumi_kubernetes.Common.Dict.{insert, spread, NodupKeys, insert-NodupKeys, spread-insert}
use pulumi_kubernetes.Js.Value.{Value}
use pulumi_kubernetes.Js.Outcome.{Outcome-cases, Outcome, ok, throws, Exception}
use pulumi_kubernetes.Options.{Transformation, ResourceOptions, OneOrMany, ConfigGroupOpts}
use pulumi_kubernetes.Runtime.{External, Log, M, ◌>>=◌, continue}
use pulumi_kubernetes.Yaml.Object.{FileObject, parse_yaml_object}
use pulumi_kubernetes.Yaml.Document.{
  Resources, store, document_from, parse_yaml_document, texts_from, texts_of, parse,
}
use pulumi_kubernetes.Yaml.Document.Objects.{
  store_all, finished, collect_objects, document_from-collect_objects,
}
use pulumi_kubernetes.Js.Outcome

-- Storing objects in a dictionary is spreading the dictionary of these objects over it.
store_all-spread :
    (d e : Resources) (fs : List FileObject)
    → NodupKeys e
    → store_all (spread d e) fs ≡ spread d (store_all e fs)
store_all-spread d e [] u = refl
store_all-spread d e (f ∷ fs) u =
    rw (← spread-insert d e f.name f.resource u)
      (store_all-spread d (insert e f.name f.resource) fs (insert-NodupKeys e f.name f.resource u))

store_all-nil : (d : Resources) (fs : List FileObject) → store_all d fs ≡ spread d (store_all [] fs)
unfolding spread
store_all-nil d fs = store_all-spread d [] fs tt

finished-spread :
    (d : Resources) (x : Outcome (List FileObject) × Log)
    → finished (store_all d) x ≡ finished (spread d) (finished (store_all []) x)
finished-spread d (throws e, log) = refl
finished-spread d (ok fs, log) = ap (λ r. (ok r, log)) (store_all-nil d fs)

continue_assoc :
    {A B C : Type 0} (f : B → M C) (g : A → M B) (x : Outcome A × Log)
    → continue f (continue g x) ≡ continue (λ a. g a >>= f) x
continue_assoc f g (ok a, log) = refl
continue_assoc f g (throws e, log) = refl

module _ (env : External) (ts : Option (List Transformation)) (opts : Option ResourceOptions) where
  pub document_from-spread :
      (d : Resources) (objs : List Value) (log : Log)
      → document_from env d objs ts opts log
        ≡ finished (spread d) (document_from env [] objs ts opts log)
  document_from-spread d objs log =
      document_from-collect_objects env ts opts d objs log
      ∙ finished-spread d (collect_objects env ts opts objs log)
      ∙ ap (finished (spread d)) (sym (document_from-collect_objects env ts opts [] objs log))

  module _ (objs more : List Value)
      (ih : (d : Resources) (log : Log)
        → document_from env d (objs ++ more) ts opts log
          ≡ continue
              (λ r. document_from env r more ts opts)
              (document_from env d objs ts opts log)) where
    document_from-append_step :
        (d : Resources) (x : Outcome (Option FileObject) × Log)
        → continue (λ f. document_from env (store d f) (objs ++ more) ts opts) x
          ≡ continue
              (λ r. document_from env r more ts opts)
              (continue (λ f. document_from env (store d f) objs ts opts) x)
    document_from-append_step d (ok f, log) = ih (store d f) log
    document_from-append_step d (throws e, log) = refl

  -- A document's objects are parsed in order, each over the resources of those before it.
  pub document_from-append :
      (d : Resources) (objs more : List Value) (log : Log)
      → document_from env d (objs ++ more) ts opts log
        ≡ continue (λ r. document_from env r more ts opts) (document_from env d objs ts opts log)
  unfolding document_from
  document_from-append d [] more log = refl
  document_from-append d (obj ∷ objs) more log =
      document_from-append_step objs more (λ r l. document_from-append r objs more l) d
        (parse_yaml_object env obj ts opts log)

-- The objects of all texts, in order, if the loader accepts each.
abbrev pub load_texts : External → List String → Outcome (List Value)
load_texts env [] = ok []
load_texts env (text ∷ texts) =
    Outcome.◌>>=◌ (env.safe_load_all text)
      λ objs. Outcome.◌>>=◌ (load_texts env texts) λ more. ok (objs ++ more)

load_texts-cons :
    (env : External) (text : String) (texts : List String) (all : List Value)
    → load_texts env (text ∷ texts) ≡ ok all
    → (objs : List Value) × (more : List Value) × (env.safe_load_all text ≡ ok objs)
      × (load_texts env texts ≡ ok more)
      × (objs ++ more ≡ all)
load_texts-cons env text texts all e = elim (Outcome-cases (env.safe_load_all text)) [
  | inl (objs, first) ↦ elim (Outcome-cases (load_texts env texts)) [
    | inl (more, rest) ↦ (objs, more, first, rest, ground arith)
    | inr (x, failed) ↦ cc (rw (first, failed) at e)
  ]
  | inr (x, failed) ↦ cc (rw failed at e)
]

module _ (env : External) (config : ConfigGroupOpts) (opts : Option ResourceOptions) where
  texts_from-step :
      (d : Resources) (texts : List String) (more : List Value)
      (ih : (d : Resources) (log : Log)
        → texts_from env d texts config opts log
          ≡ document_from env d more config.transformations opts log)
      (x : Outcome Resources × Log)
      → continue (λ doc. texts_from env (spread d doc) texts config opts) x
        ≡ continue
            (λ r. document_from env r more config.transformations opts)
            (finished (spread d) x)
  texts_from-step d texts more ih (ok doc, log) = ih (spread d doc) log
  texts_from-step d texts more ih (throws e, log) = refl

  pub texts_from-document_from :
      (d : Resources) (texts : List String) (objs : List Value) (log : Log)
      → load_texts env texts ≡ ok objs
      → texts_from env d texts config opts log
        ≡ document_from env d objs config.transformations opts log
  unfolding texts_from parse_yaml_document
  texts_from-document_from d [] objs log e =
      let same : ◌≡◌ {A = List Value} [] objs = cc in rw (← same) (unfold document_from in refl)
  texts_from-document_from d (text ∷ texts) all log e =
      let (objs, more, first, rest, whole) = load_texts-cons env text texts all e in
      rw first (
        texts_from-step d texts more (λ r l. texts_from-document_from r texts more l rest)
          (document_from env [] objs config.transformations opts log))
      ∙ ap (continue (λ r. document_from env r more config.transformations opts))
          (sym (document_from-spread env config.transformations opts d objs log))
      ∙ sym (document_from-append env config.transformations opts d objs more log)
      ∙ ap (λ l. document_from env d l config.transformations opts log) whole

-- When the loader accepts all texts, parsing them one after another and merging the results is
-- parsing the one document that holds all their objects: the same resources under the same keys in
-- the same order, the same effects, and the same exception if there is one.
pub parse-texts :
    (env : External) (opts : Option ResourceOptions) (ts : Option (List Transformation))
    (texts : OneOrMany) (objs : List Value) (log : Log)
    → load_texts env (texts_of texts) ≡ ok objs
    → parse env (record { files = none; yaml = some texts; transformations = ts }) opts log
      ≡ parse_yaml_document env (record { objs = objs; transformations = ts }) opts log
unfolding parse parse_yaml_document
parse-texts env opts ts texts objs log loaded =
    texts_from-document_from env (record { files = none; yaml = some texts; transformations = ts })
      opts [] (texts_of texts) objs log loaded
