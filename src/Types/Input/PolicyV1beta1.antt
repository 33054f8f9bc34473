-- ===== src/Types/Input/PolicyV1beta1.antt =====
-- The interfaces of the namespace `policy.v1beta1` of pack/nodejs/types/input.ts.
use pulumi_kubernetes.Common.{List, [], ◌∷◌}
use pulumi_kubernetes.Types.Shape.{
  Interface, guarded, interface, required, optional, text, number, any_object, number_or_text, list,
  ref,
}

abbrev pub eviction : Interface
eviction = guarded "Eviction" "policy/v1beta1" "Eviction" (
    optional "apiVersion" text
    ∷ optional "deleteOptions" (ref "meta.v1" "DeleteOptions")
    ∷ optional "kind" text
    ∷ optional "metadata" (ref "meta.v1" "ObjectMeta")
    ∷ [])

abbrev pub pod_disruption_budget : Interface
pod_disruption_budget = guarded "PodDisruptionBudget" "policy/v1beta1" "PodDisruptionBudget" (
    optional "apiVersion" text
    ∷ optional "kind" text
    ∷ optional "metadata" (ref "meta.v1" "ObjectMeta")
    ∷ optional "spec" (ref "policy.v1beta1" "PodDisruptionBudgetSpec")
    ∷ optional "status" (ref "policy.v1beta1" "PodDisruptionBudgetStatus")
    ∷ [])

abbrev pub pod_disruption_budget_list : Interface
pod_disruption_budget_list =
    guarded "PodDisruptionBudgetList" "policy/v1beta1" "PodDisruptionBudgetList" (
      required "items" (list (ref "policy.v1beta1" "PodDisruptionBudget"))
      ∷ optional "apiVersion" text
      ∷ optional "kind" text
      ∷ optional "metadata" (ref "meta.v1" "ListMeta")
      ∷ [])

abbrev pub pod_disruption_budget_spec : Interface
pod_disruption_budget_spec = interface "PodDisruptionBudgetSpec" (
    optional "maxUnavailable" number_or_text
    ∷ optional "minAvailable" number_or_text
    ∷ optional "selector" (ref "meta.v1" "LabelSelector")
    ∷ [])

abbrev pub pod_disruption_budget_status : Interface
pod_disruption_budget_status = interface "PodDisruptionBudgetStatus" (
    required "currentHealthy" number
    ∷ required "desiredHealthy" number
    ∷ required "disruptedPods" any_object
    ∷ required "disruptionsAllowed" number
    ∷ required "expectedPods" number
    ∷ optional "observedGeneration" number
    ∷ [])

abbrev pub interfaces : List Interface
interfaces =
    eviction ∷ pod_disruption_budget ∷ pod_disruption_budget_list ∷ pod_disruption_budget_spec
    ∷ pod_disruption_budget_status ∷ []
