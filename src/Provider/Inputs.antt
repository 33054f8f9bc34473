-- ===== src/Provider/Inputs.antt =====
-- What `Provider` registers, with and without arguments.
use pulumi_kubernetes.Common.{
  String, ◌≡◌, refl, true, false, Bool-cases, inl, inr, Option, [], ◌∷◌, ◌++◌,
}
use pulumi_kubernetes.Common.Dict.{Dict}
use pulumi_kubernetes.Js.Value.{Value, undefined, object, property, truthy, bool, number, string}
use pulumi_kubernetes.Js.Outcome.{read}
use pulumi_kubernetes.Options.{ResourceOptions}
use pulumi_kubernetes.Runtime.{External, Log, provider}
use pulumi_kubernetes.Provider.{new_provider}

abbrev pub inputs_of : Value → Value → Value → Value → Dict Value
inputs_of cluster context kubeconfig namespace =
    ("cluster", cluster)
    ∷ ("context", context)
    ∷ ("kubeconfig", kubeconfig)
    ∷ ("namespace", namespace)
    ∷ []

-- A property of the arguments, `undefined` where they are no object.
abbrev pub argument_of : Value → String → Value
argument_of (object fs) k = property k fs
argument_of _ k = undefined

-- Whatever its arguments are, missing ones included, the constructor reaches the base class: the
-- provider registers once, under its name and options, with the four properties of the arguments
-- that are there, `undefined` for the others, and no other input.
pub new_provider-registers :
    (env : External) (name : String) (args : Value) (opts : Option ResourceOptions) (log : Log)
    → let event =
        provider "kubernetes" name
          (inputs_of
            (argument_of args "cluster")
            (argument_of args "context")
            (argument_of args "kubeconfig")
            (argument_of args "namespace"))
          opts in
      new_provider env name args opts log ≡ (env.provider (log ++ event ∷ []), log ++ event ∷ [])
unfolding new_provider read
new_provider-registers env name (object fs) opts log = refl
new_provider-registers env name (bool true) opts log = refl
new_provider-registers env name (bool false) opts log = refl
new_provider-registers env name (number n) opts log = elim (Bool-cases (truthy (number n))) [
  | inl set ↦ rw set refl
  | inr unset ↦ rw unset refl
]
new_provider-registers env name (string s) opts log = elim (Bool-cases (truthy (string s))) [
  | inl set ↦ rw set refl
  | inr unset ↦ rw unset refl
]
new_provider-registers env name args opts log = refl
