-- ===== src/Yaml/Collection/Overloads/CoreToStorage.antt =====
-- The overloads of `getResource` (pack/nodejs/provider.ts), a list for each namespace: the text that
-- an overload takes, and the class that it returns, by namespace and name. Each stands in the source
-- twice, with a name and with a namespace and a name.
use pulumi_kubernetes.Common.{String, [], ◌∷◌}
use pulumi_kubernetes.Common.Dict.{Dict}

abbrev pub core_v1_overloads : Dict (String × String)
core_v1_overloads =
    ("v1/Binding", ("core.v1", "Binding"))
    ∷ ("v1/ComponentStatus", ("core.v1", "ComponentStatus"))
    ∷ ("v1/ComponentStatusList", ("core.v1", "ComponentStatusList"))
    ∷ ("v1/ConfigMap", ("core.v1", "ConfigMap"))
    ∷ ("v1/ConfigMapList", ("core.v1", "ConfigMapList"))
    ∷ ("v1/Endpoints", ("core.v1", "Endpoints"))
    ∷ ("v1/EndpointsList", ("core.v1", "EndpointsList"))
    ∷ ("v1/Event", ("core.v1", "Event"))
    ∷ ("v1/EventList", ("core.v1", "EventList"))
    ∷ ("v1/LimitRange", ("core.v1", "LimitRange"))
    ∷ ("v1/LimitRangeList", ("core.v1", "LimitRangeList"))
    ∷ ("v1/Namespace", ("core.v1", "Namespace"))
    ∷ ("v1/NamespaceList", ("core.v1", "NamespaceList"))
    ∷ ("v1/Node", ("core.v1", "Node"))
    ∷ ("v1/NodeConfigSource", ("core.v1", "NodeConfigSource"))
    ∷ ("v1/NodeList", ("core.v1", "NodeList"))
    ∷ ("core/v1/ObjectReference", ("core.v1", "ObjectReference"))
    ∷ ("v1/PersistentVolume", ("core.v1", "PersistentVolume"))
    ∷ ("v1/PersistentVolumeClaim", ("core.v1", "PersistentVolumeClaim"))
    ∷ ("v1/PersistentVolumeClaimList", ("core.v1", "PersistentVolumeClaimList"))
    ∷ ("v1/PersistentVolumeList", ("core.v1", "PersistentVolumeList"))
    ∷ ("v1/Pod", ("core.v1", "Pod"))
    ∷ ("v1/PodList", ("core.v1", "PodList"))
    ∷ ("v1/PodTemplate", ("core.v1", "PodTemplate"))
    ∷ ("v1/PodTemplateList", ("core.v1", "PodTemplateList"))
    ∷ ("v1/ReplicationController", ("core.v1", "ReplicationController"))
    ∷ ("v1/ReplicationControllerList", ("core.v1", "ReplicationControllerList"))
    ∷ ("v1/ResourceQuota", ("core.v1", "ResourceQuota"))
    ∷ ("v1/ResourceQuotaList", ("core.v1", "ResourceQuotaList"))
    ∷ ("v1/Secret", ("core.v1", "Secret"))
    ∷ ("v1/SecretList", ("core.v1", "SecretList"))
    ∷ ("v1/Service", ("core.v1", "Service"))
    ∷ ("v1/ServiceAccount", ("core.v1", "ServiceAccount"))
    ∷ ("v1/ServiceAccountList", ("core.v1", "ServiceAccountList"))
    ∷ ("v1/ServiceList", ("core.v1", "ServiceList"))
    ∷ []

abbrev pub events_v1beta1_overloads : Dict (String × String)
events_v1beta1_overloads =
    ("events.k8s.io/v1beta1/Event", ("events.v1beta1", "Event"))
    ∷ ("events.k8s.io/v1beta1/EventList", ("events.v1beta1", "EventList"))
    ∷ []

abbrev pub extensions_v1beta1_overloads : Dict (String × String)
extensions_v1beta1_overloads =
    ("extensions/v1beta1/DaemonSet", ("extensions.v1beta1", "DaemonSet"))
    ∷ ("extensions/v1beta1/DaemonSetList", ("extensions.v1beta1", "DaemonSetList"))
    ∷ ("extensions/v1beta1/Deployment", ("extensions.v1beta1", "Deployment"))
    ∷ ("extensions/v1beta1/DeploymentList", ("extensions.v1beta1", "DeploymentList"))
    ∷ ("extensions/v1beta1/DeploymentRollback", ("extensions.v1beta1", "DeploymentRollback"))
    ∷ ("extensions/v1beta1/Ingress", ("extensions.v1beta1", "Ingress"))
    ∷ ("extensions/v1beta1/IngressList", ("extensions.v1beta1", "IngressList"))
    ∷ ("extensions/v1beta1/NetworkPolicy", ("extensions.v1beta1", "NetworkPolicy"))
    ∷ ("extensions/v1beta1/NetworkPolicyList", ("extensions.v1beta1", "NetworkPolicyList"))
    ∷ ("extensions/v1beta1/PodSecurityPolicy", ("extensions.v1beta1", "PodSecurityPolicy"))
    ∷ ("extensions/v1beta1/PodSecurityPolicyList", ("extensions.v1beta1", "PodSecurityPolicyList"))
    ∷ ("extensions/v1beta1/ReplicaSet", ("extensions.v1beta1", "ReplicaSet"))
    ∷ ("extensions/v1beta1/ReplicaSetList", ("extensions.v1beta1", "ReplicaSetList"))
    ∷ ("extensions/v1beta1/Scale", ("extensions.v1beta1", "Scale"))
    ∷ []

abbrev pub meta_v1_overloads : Dict (String × String)
meta_v1_overloads =
    ("v1/APIGroup", ("meta.v1", "APIGroup"))
    ∷ ("v1/APIGroupList", ("meta.v1", "APIGroupList"))
    ∷ ("v1/APIResourceList", ("meta.v1", "APIResourceList"))
    ∷ ("v1/APIVersions", ("meta.v1", "APIVersions"))
    ∷ ("v1/DeleteOptions", ("meta.v1", "DeleteOptions"))
    ∷ ("meta/v1/OwnerReference", ("meta.v1", "OwnerReference"))
    ∷ ("v1/Status", ("meta.v1", "Status"))
    ∷ []

abbrev pub networking_v1_overloads : Dict (String × String)
networking_v1_overloads =
    ("networking.k8s.io/v1/NetworkPolicy", ("networking.v1", "NetworkPolicy"))
    ∷ ("networking.k8s.io/v1/NetworkPolicyList", ("networking.v1", "NetworkPolicyList"))
    ∷ []

abbrev pub policy_v1beta1_overloads : Dict (String × String)
policy_v1beta1_overloads =
    ("policy/v1beta1/Eviction", ("policy.v1beta1", "Eviction"))
    ∷ ("policy/v1beta1/PodDisruptionBudget", ("policy.v1beta1", "PodDisruptionBudget"))
    ∷ ("policy/v1beta1/PodDisruptionBudgetList", ("policy.v1beta1", "PodDisruptionBudgetList"))
    ∷ []

abbrev pub rbac_v1_overloads : Dict (String × String)
rbac_v1_overloads =
    ("rbac.authorization.k8s.io/v1/ClusterRole", ("rbac.v1", "ClusterRole"))
    ∷ ("rbac.authorization.k8s.io/v1/ClusterRoleBinding", ("rbac.v1", "ClusterRoleBinding"))
    ∷ ("rbac.authorization.k8s.io/v1/ClusterRoleBindingList", ("rbac.v1", "ClusterRoleBindingList"))
    ∷ ("rbac.authorization.k8s.io/v1/ClusterRoleList", ("rbac.v1", "ClusterRoleList"))
    ∷ ("rbac.authorization.k8s.io/v1/Role", ("rbac.v1", "Role"))
    ∷ ("rbac.authorization.k8s.io/v1/RoleBinding", ("rbac.v1", "RoleBinding"))
    ∷ ("rbac.authorization.k8s.io/v1/RoleBindingList", ("rbac.v1", "RoleBindingList"))
    ∷ ("rbac.authorization.k8s.io/v1/RoleList", ("rbac.v1", "RoleList"))
    ∷ []

abbrev pub rbac_v1alpha1_overloads : Dict (String × String)
rbac_v1alpha1_overloads =
    ("rbac.authorization.k8s.io/v1alpha1/ClusterRole", ("rbac.v1alpha1", "ClusterRole"))
    ∷ (
      "rbac.authorization.k8s.io/v1alpha1/ClusterRoleBinding",
      ("rbac.v1alpha1", "ClusterRoleBinding"),
    )
    ∷ (
      "rbac.authorization.k8s.io/v1alpha1/ClusterRoleBindingList",
      ("rbac.v1alpha1", "ClusterRoleBindingList"),
    )
    ∷ ("rbac.authorization.k8s.io/v1alpha1/ClusterRoleList", ("rbac.v1alpha1", "ClusterRoleList"))
    ∷ ("rbac.authorization.k8s.io/v1alpha1/Role", ("rbac.v1alpha1", "Role"))
    ∷ ("rbac.authorization.k8s.io/v1alpha1/RoleBinding", ("rbac.v1alpha1", "RoleBinding"))
    ∷ ("rbac.authorization.k8s.io/v1alpha1/RoleBindingList", ("rbac.v1alpha1", "RoleBindingList"))
    ∷ ("rbac.authorization.k8s.io/v1alpha1/RoleList", ("rbac.v1alpha1", "RoleList"))
    ∷ ("rbac/v1alpha1/Subject", ("rbac.v1alpha1", "Subject"))
    ∷ []

abbrev pub rbac_v1beta1_overloads : Dict (String × String)
rbac_v1beta1_overloads =
    ("rbac.authorization.k8s.io/v1beta1/ClusterRole", ("rbac.v1beta1", "ClusterRole"))
    ∷ (
      "rbac.authorization.k8s.io/v1beta1/ClusterRoleBinding",
      ("rbac.v1beta1", "ClusterRoleBinding"),
    )
    ∷ (
      "rbac.authorization.k8s.io/v1beta1/ClusterRoleBindingList",
      ("rbac.v1beta1", "ClusterRoleBindingList"),
    )
    ∷ ("rbac.authorization.k8s.io/v1beta1/ClusterRoleList", ("rbac.v1beta1", "ClusterRoleList"))
    ∷ ("rbac.authorization.k8s.io/v1beta1/Role", ("rbac.v1beta1", "Role"))
    ∷ ("rbac.authorization.k8s.io/v1beta1/RoleBinding", ("rbac.v1beta1", "RoleBinding"))
    ∷ ("rbac.authorization.k8s.io/v1beta1/RoleBindingList", ("rbac.v1beta1", "RoleBindingList"))
    ∷ ("rbac.authorization.k8s.io/v1beta1/RoleList", ("rbac.v1beta1", "RoleList"))
    ∷ []

abbrev pub scheduling_v1alpha1_overloads : Dict (String × String)
scheduling_v1alpha1_overloads =
    ("scheduling.k8s.io/v1alpha1/PriorityClass", ("scheduling.v1alpha1", "PriorityClass"))
    ∷ ("scheduling.k8s.io/v1alpha1/PriorityClassList", ("scheduling.v1alpha1", "PriorityClassList"))
    ∷ []

abbrev pub settings_v1alpha1_overloads : Dict (String × String)
settings_v1alpha1_overloads =
    ("settings.k8s.io/v1alpha1/PodPreset", ("settings.v1alpha1", "PodPreset"))
    ∷ ("settings.k8s.io/v1alpha1/PodPresetList", ("settings.v1alpha1", "PodPresetList"))
    ∷ []

abbrev pub storage_v1_overloads : Dict (String × String)
storage_v1_overloads =
    ("storage.k8s.io/v1/StorageClass", ("storage.v1", "StorageClass"))
    ∷ ("storage.k8s.io/v1/StorageClassList", ("storage.v1", "StorageClassList"))
    ∷ []

abbrev pub storage_v1alpha1_overloads : Dict (String × String)
storage_v1alpha1_overloads =
    ("storage.k8s.io/v1alpha1/VolumeAttachment", ("storage.v1alpha1", "VolumeAttachment"))
    ∷ ("storage.k8s.io/v1alpha1/VolumeAttachmentList", ("storage.v1alpha1", "VolumeAttachmentList"))
    ∷ []

abbrev pub storage_v1beta1_overloads : Dict (String × String)
storage_v1beta1_overloads =
    ("storage.k8s.io/v1beta1/StorageClass", ("storage.v1beta1", "StorageClass"))
    ∷ ("storage.k8s.io/v1beta1/StorageClassList", ("storage.v1beta1", "StorageClassList"))
    ∷ []
