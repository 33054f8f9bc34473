-- ===== src/Types/Output/PolicyV1beta1.antt =====
-- The interfaces of the namespace `policy.v1beta1` of pack/nodejs/types/output.ts.
use pulumi_kubernetes.Common.{List, [], ◌∷◌}
use pulumi_kubernetes.Types.Shape.{
  Interface, interface, readonly, text, number, any_object, number_or_text, list, ref,
}

abbrev pub eviction : Interface
eviction = interface "Eviction" (
    readonly "apiVersion" text
    ∷ readonly "deleteOptions" (ref "meta.v1" "DeleteOptions")
    ∷ readonly "kind" text
    ∷ readonly "metadata" (ref "meta.v1" "ObjectMeta")
    ∷ [])

abbrev pub pod_disruption_budget : Interface
pod_disruption_budget = interface "PodDisruptionBudget" (
    readonly "apiVersion" text
    ∷ readonly "kind" text
    ∷ readonly "metadata" (ref "meta.v1" "ObjectMeta")
    ∷ readonly "spec" (ref "policy.v1beta1" "PodDisruptionBudgetSpec")
    ∷ readonly "status" (ref "policy.v1beta1" "PodDisruptionBudgetStatus")
    ∷ [])

abbrev pub pod_disruption_budget_list : Interface
pod_disruption_budget_list = interface "PodDisruptionBudgetList" (
    readonly "apiVersion" text
    ∷ readonly "items" (list (ref "policy.v1beta1" "PodDisruptionBudget"))
    ∷ readonly "kind" text
    ∷ readonly "metadata" (ref "meta.v1" "ListMeta")
    ∷ [])

abbrev pub pod_disruption_budget_spec : Interface
pod_disruption_budget_spec = interface "PodDisruptionBudgetSpec" (
    readonly "maxUnavailable" number_or_text
    ∷ readonly "minAvailable" number_or_text
    ∷ readonly "selector" (ref "meta.v1" "LabelSelector")
    ∷ [])

abbrev pub pod_disruption_budget_status : Interface
pod_disruption_budget_status = interface "PodDisruptionBudgetStatus" (
    readonly "currentHealthy" number
    ∷ readonly "desiredHealthy" number
    ∷ readonly "disruptedPods" any_object
    ∷ readonly "disruptionsAllowed" number
    ∷ readonly "expectedPods" number
    ∷ readonly "observedGeneration" number
    ∷ [])

abbrev pub interfaces : List Interface
interfaces =
    eviction ∷ pod_disruption_budget ∷ pod_disruption_budget_list ∷ pod_disruption_budget_spec
    ∷ pod_disruption_budget_status ∷ []
