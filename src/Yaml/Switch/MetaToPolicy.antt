-- ===== src/Yaml/Switch/MetaToPolicy.antt =====
-- The cases of the `switch` in `parseYamlObject` (pack/nodejs/provider.ts), a list for each namespace.
use pulumi_kubernetes.Common.{List, [], ◌∷◌}
use pulumi_kubernetes.Resources
use pulumi_kubernetes.Yaml.Case.{Case}

abbrev pub meta_v1_cases : List Case
meta_v1_cases =
    record { label = "v1/APIGroup"; prefix = "v1/APIGroup::"; made = Resources.Meta.V1.api_group }
    ∷ record {
      label = "v1/APIGroupList";
      prefix = "v1/APIGroupList::";
      made = Resources.Meta.V1.api_group_list;
    }
    ∷ record {
      label = "v1/APIResourceList";
      prefix = "v1/APIResourceList::";
      made = Resources.Meta.V1.api_resource_list;
    }
    ∷ record {
      label = "v1/APIVersions";
      prefix = "v1/APIVersions::";
      made = Resources.Meta.V1.api_versions;
    }
    ∷ record {
      label = "v1/DeleteOptions";
      prefix = "v1/DeleteOptions::";
      made = Resources.Meta.V1.delete_options;
    }
    ∷ record {
      label = "meta/v1/OwnerReference";
      prefix = "meta/v1/OwnerReference::";
      made = Resources.Meta.V1.owner_reference;
    }
    ∷ record { label = "v1/Status"; prefix = "v1/Status::"; made = Resources.Meta.V1.status }
    ∷ []

abbrev pub networking_v1_cases : List Case
networking_v1_cases =
    record {
      label = "networking.k8s.io/v1/NetworkPolicy";
      prefix = "networking.k8s.io/v1/NetworkPolicy::";
      made = Resources.Networking.V1.network_policy;
    }
    ∷ record {
      label = "networking.k8s.io/v1/NetworkPolicyList";
      prefix = "networking.k8s.io/v1/NetworkPolicyList::";
      made = Resources.Networking.V1.network_policy_list;
    }
    ∷ []

abbrev pub policy_v1beta1_cases : List Case
policy_v1beta1_cases =
    record {
      label = "policy/v1beta1/Eviction";
      prefix = "policy/v1beta1/Eviction::";
      made = Resources.Policy.V1beta1.eviction;
    }
    ∷ record {
      label = "policy/v1beta1/PodDisruptionBudget";
      prefix = "policy/v1beta1/PodDisruptionBudget::";
      made = Resources.Policy.V1beta1.pod_disruption_budget;
    }
    ∷ record {
      label = "policy/v1beta1/PodDisruptionBudgetList";
      prefix = "policy/v1beta1/PodDisruptionBudgetList::";
      made = Resources.Policy.V1beta1.pod_disruption_budget_list;
    }
    ∷ []
