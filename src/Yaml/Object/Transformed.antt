-- ===== src/Yaml/Object/Transformed.antt =====
-- The callbacks of `parseYamlObject`.
use pulumi_kubernetes.Common.{
  ◌≡◌, refl, inl, inr, true, false, ◌||◌, Bool-cases, Option, some, none, List, [], ◌∷◌, ◌++◌,
}
use pulumi_kubernetes.Js.Value.{
  Value, undefined, null, bool, number, string, array, object, nil, cons, end, field, is_nullish,
  has_no_keys, property,
}
use pulumi_kubernetes.Js.Outcome
use pulumi_kubernetes.Js.Outcome.{Outcome, Outcome-cases, ok, throws, read}
use pulumi_kubernetes.Options.{Transformation, ResourceOptions}
use pulumi_kubernetes.Runtime.{External, Log, continue}
use pulumi_kubernetes.Yaml.Object.{apply_transformation, transform, build_object, parse_yaml_object}

transform-append :
    (ss ts : List Transformation) (obj : Value)
    → transform (ss ++ ts) obj ≡ Outcome.◌>>=◌ (transform ss obj) (transform ts)
unfolding transform
transform-append [] ts obj = refl
transform-append (s ∷ ss) ts obj = elim (Outcome-cases (apply_transformation s obj)) [
  | inl (changed, e) ↦ rw (e, transform-append ss ts changed) refl
  | inr (x, e) ↦ rw e refl
]

module _ (env : External) (opts : Option ResourceOptions) (log : Log) where
  build_object-no_keys :
      (v : Value)
      → is_nullish v ≡ false
      → has_no_keys v ≡ true
      → build_object env v opts log ≡ (ok none, log)
  unfolding build_object read property
  build_object-no_keys undefined h k = cc
  build_object-no_keys null h k = cc
  build_object-no_keys (bool b) h k = refl
  build_object-no_keys (number n) h k = refl
  build_object-no_keys (string s) h k = refl
  build_object-no_keys (array nil) h k = refl
  build_object-no_keys (array (cons v xs)) h k = refl
  build_object-no_keys (object end) h k = refl
  build_object-no_keys (object (field j v fs)) h k = cc

  parse_yaml_object-build_object :
      (v : Value)
      → is_nullish v ≡ false
      → build_object env v opts log ≡ parse_yaml_object env v none opts log
  unfolding parse_yaml_object transform
  parse_yaml_object-build_object v h = elim (Bool-cases (has_no_keys v)) [
    | inl bare ↦ rw (h, bare) (build_object-no_keys v h bare)
    | inr full ↦ rw (h, full) refl
  ]

  -- An object that is not empty is parsed like the one that the callbacks leave, first those of the
  -- one list and then those of the other, without callbacks: they run before anything is read. What
  -- one of them throws is passed on before any effect. The condition is that they do not leave
  -- `undefined` or `null`, which no callback can put in an object's place.
  pub parse_yaml_object-transform :
      (ss ts : List Transformation) (obj : Value)
      → (is_nullish obj || has_no_keys obj) ≡ false
      → ((v : Value) → transform (ss ++ ts) obj ≡ ok v → is_nullish v ≡ false)
      → parse_yaml_object env obj (some (ss ++ ts)) opts log
        ≡ continue
            (λ v. parse_yaml_object env v none opts)
            (Outcome.◌>>=◌ (transform ss obj) (transform ts), log)
  unfolding parse_yaml_object
  parse_yaml_object-transform ss ts obj full object_left =
      elim (Outcome-cases (transform (ss ++ ts) obj)) [
        | inl (v, e) ↦
            rw (full, ← transform-append ss ts obj, e)
              (parse_yaml_object-build_object v (object_left v e))
        | inr (x, e) ↦ rw (full, ← transform-append ss ts obj, e) refl
      ]
