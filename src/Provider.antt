-- ===== src/Provider.antt =====
-- `Provider` of pack/nodejs/provider.ts.
pub mod Inputs
use pulumi_kubernetes.Common.{String, if◌then◌else◌, Option, [], ◌∷◌}
use pulumi_kubernetes.Common.Dict.{Dict}
use pulumi_kubernetes.Js.Value.{Value, undefined, truthy}
use pulumi_kubernetes.Js.Outcome
use pulumi_kubernetes.Js.Outcome.{Outcome, ok, read}
use pulumi_kubernetes.Options.{ResourceOptions}
use pulumi_kubernetes.Runtime.{External, M, ◌>>=◌, lift, perform, provider}

-- `args ? args.k : undefined`
unfoldable pub argument : Value → String → Outcome Value
argument args k = if truthy args then read args k else ok undefined

-- The object of the constructor's `inputs`.
unfoldable pub provider_inputs : Value → Outcome (Dict Value)
unfolding argument
provider_inputs args = Outcome.◌>>=◌ (argument args "cluster") λ cluster.
    Outcome.◌>>=◌ (argument args "context") λ context.
      Outcome.◌>>=◌ (argument args "kubeconfig") λ kubeconfig.
        Outcome.◌>>=◌ (argument args "namespace") λ namespace. ok (
          ("cluster", cluster)
          ∷ ("context", context)
          ∷ ("kubeconfig", kubeconfig)
          ∷ ("namespace", namespace)
          ∷ [])

unfoldable pub new_provider : External → String → Value → Option ResourceOptions → M (Unit {0})
unfolding provider_inputs
new_provider env name args opts = do
  inputs ← lift (provider_inputs args)
  perform (provider "kubernetes" name inputs opts) env.provider
