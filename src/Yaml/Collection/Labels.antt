-- ===== src/Yaml/Collection/Labels.antt =====
-- The case labels of the `switch` in `CollectionComponentResource.getResource`
-- (pack/nodejs/provider.ts), a list for each namespace. Every case returns the same expression.
use pulumi_kubernetes.Common.{String, List, [], ◌∷◌, concat}

abbrev pub admissionregistration_v1alpha1_labels : List String
admissionregistration_v1alpha1_labels =
    "admissionregistration.k8s.io/v1alpha1/InitializerConfiguration"
    ∷ "admissionregistration.k8s.io/v1alpha1/InitializerConfigurationList" ∷ []

abbrev pub admissionregistration_v1beta1_labels : List String
admissionregistration_v1beta1_labels =
    "admissionregistration.k8s.io/v1beta1/MutatingWebhookConfiguration"
    ∷ "admissionregistration.k8s.io/v1beta1/MutatingWebhookConfigurationList"
    ∷ "admissionregistration.k8s.io/v1beta1/ValidatingWebhookConfiguration"
    ∷ "admissionregistration.k8s.io/v1beta1/ValidatingWebhookConfigurationList" ∷ []

abbrev pub apiextensions_v1beta1_labels : List String
apiextensions_v1beta1_labels =
    "apiextensions.k8s.io/v1beta1/CustomResourceDefinition"
    ∷ "apiextensions.k8s.io/v1beta1/CustomResourceDefinitionList" ∷ []

abbrev pub apiregistration_v1beta1_labels : List String
apiregistration_v1beta1_labels =
    "apiregistration/v1beta1/APIService" ∷ "apiregistration/v1beta1/APIServiceList" ∷ []

abbrev pub apps_v1_labels : List String
apps_v1_labels =
    "apps/v1/ControllerRevision" ∷ "apps/v1/ControllerRevisionList" ∷ "apps/v1/DaemonSet"
    ∷ "apps/v1/DaemonSetList" ∷ "apps/v1/Deployment" ∷ "apps/v1/DeploymentList"
    ∷ "apps/v1/ReplicaSet" ∷ "apps/v1/ReplicaSetList" ∷ "apps/v1/StatefulSet"
    ∷ "apps/v1/StatefulSetList" ∷ []

abbrev pub apps_v1beta1_labels : List String
apps_v1beta1_labels =
    "apps/v1beta1/ControllerRevision" ∷ "apps/v1beta1/ControllerRevisionList"
    ∷ "apps/v1beta1/Deployment" ∷ "apps/v1beta1/DeploymentList" ∷ "apps/v1beta1/DeploymentRollback"
    ∷ "apps/v1beta1/Scale" ∷ "apps/v1beta1/StatefulSet" ∷ "apps/v1beta1/StatefulSetList" ∷ []

abbrev pub apps_v1beta2_labels : List String
apps_v1beta2_labels =
    "apps/v1beta2/ControllerRevision" ∷ "apps/v1beta2/ControllerRevisionList"
    ∷ "apps/v1beta2/DaemonSet" ∷ "apps/v1beta2/DaemonSetList" ∷ "apps/v1beta2/Deployment"
    ∷ "apps/v1beta2/DeploymentList" ∷ "apps/v1beta2/ReplicaSet" ∷ "apps/v1beta2/ReplicaSetList"
    ∷ "apps/v1beta2/Scale" ∷ "apps/v1beta2/StatefulSet" ∷ "apps/v1beta2/StatefulSetList" ∷ []

abbrev pub authentication_v1_labels : List String
authentication_v1_labels = "authentication.k8s.io/v1/TokenReview" ∷ []

abbrev pub authentication_v1beta1_labels : List String
authentication_v1beta1_labels = "authentication.k8s.io/v1beta1/TokenReview" ∷ []

abbrev pub authorization_v1_labels : List String
authorization_v1_labels =
    "authorization.k8s.io/v1/LocalSubjectAccessReview"
    ∷ "authorization.k8s.io/v1/SelfSubjectAccessReview"
    ∷ "authorization.k8s.io/v1/SelfSubjectRulesReview"
    ∷ "authorization.k8s.io/v1/SubjectAccessReview" ∷ []

abbrev pub authorization_v1beta1_labels : List String
authorization_v1beta1_labels =
    "authorization.k8s.io/v1beta1/LocalSubjectAccessReview"
    ∷ "authorization.k8s.io/v1beta1/SelfSubjectAccessReview"
    ∷ "authorization.k8s.io/v1beta1/SelfSubjectRulesReview"
    ∷ "authorization.k8s.io/v1beta1/SubjectAccessReview" ∷ []

abbrev pub autoscaling_v1_labels : List String
autoscaling_v1_labels =
    "autoscaling/v1/CrossVersionObjectReference" ∷ "autoscaling/v1/HorizontalPodAutoscaler"
    ∷ "autoscaling/v1/HorizontalPodAutoscalerList" ∷ "autoscaling/v1/Scale" ∷ []

abbrev pub autoscaling_v2beta1_labels : List String
autoscaling_v2beta1_labels =
    "autoscaling/v2beta1/CrossVersionObjectReference"
    ∷ "autoscaling/v2beta1/HorizontalPodAutoscaler"
    ∷ "autoscaling/v2beta1/HorizontalPodAutoscalerList" ∷ []

abbrev pub batch_v1_labels : List String
batch_v1_labels = "batch/v1/Job" ∷ "batch/v1/JobList" ∷ []

abbrev pub batch_v1beta1_labels : List String
batch_v1beta1_labels = "batch/v1beta1/CronJob" ∷ "batch/v1beta1/CronJobList" ∷ []

abbrev pub batch_v2alpha1_labels : List String
batch_v2alpha1_labels = "batch/v2alpha1/CronJob" ∷ "batch/v2alpha1/CronJobList" ∷ []

abbrev pub certificates_v1beta1_labels : List String
certificates_v1beta1_labels =
    "certificates.k8s.io/v1beta1/CertificateSigningRequest"
    ∷ "certificates.k8s.io/v1beta1/CertificateSigningRequestList" ∷ []

abbrev pub core_v1_labels : List String
core_v1_labels =
    "v1/Binding" ∷ "v1/ComponentStatus" ∷ "v1/ComponentStatusList" ∷ "v1/ConfigMap"
    ∷ "v1/ConfigMapList" ∷ "v1/Endpoints" ∷ "v1/EndpointsList" ∷ "v1/Event" ∷ "v1/EventList"
    ∷ "v1/LimitRange" ∷ "v1/LimitRangeList" ∷ "v1/Namespace" ∷ "v1/NamespaceList" ∷ "v1/Node"
    ∷ "v1/NodeConfigSource" ∷ "v1/NodeList" ∷ "core/v1/ObjectReference" ∷ "v1/PersistentVolume"
    ∷ "v1/PersistentVolumeClaim" ∷ "v1/PersistentVolumeClaimList" ∷ "v1/PersistentVolumeList"
    ∷ "v1/Pod" ∷ "v1/PodList" ∷ "v1/PodTemplate" ∷ "v1/PodTemplateList" ∷ "v1/ReplicationController"
    ∷ "v1/ReplicationControllerList" ∷ "v1/ResourceQuota" ∷ "v1/ResourceQuotaList" ∷ "v1/Secret"
    ∷ "v1/SecretList" ∷ "v1/Service" ∷ "v1/ServiceAccount" ∷ "v1/ServiceAccountList"
    ∷ "v1/ServiceList" ∷ []

abbrev pub events_v1beta1_labels : List String
events_v1beta1_labels = "events.k8s.io/v1beta1/Event" ∷ "events.k8s.io/v1beta1/EventList" ∷ []

abbrev pub extensions_v1beta1_labels : List String
extensions_v1beta1_labels =
    "extensions/v1beta1/DaemonSet" ∷ "extensions/v1beta1/DaemonSetList"
    ∷ "extensions/v1beta1/Deployment" ∷ "extensions/v1beta1/DeploymentList"
    ∷ "extensions/v1beta1/DeploymentRollback" ∷ "extensions/v1beta1/Ingress"
    ∷ "extensions/v1beta1/IngressList" ∷ "extensions/v1beta1/NetworkPolicy"
    ∷ "extensions/v1beta1/NetworkPolicyList" ∷ "extensions/v1beta1/PodSecurityPolicy"
    ∷ "extensions/v1beta1/PodSecurityPolicyList" ∷ "extensions/v1beta1/ReplicaSet"
    ∷ "extensions/v1beta1/ReplicaSetList" ∷ "extensions/v1beta1/Scale" ∷ []

abbrev pub meta_v1_labels : List String
meta_v1_labels =
    "v1/APIGroup" ∷ "v1/APIGroupList" ∷ "v1/APIResourceList" ∷ "v1/APIVersions" ∷ "v1/DeleteOptions"
    ∷ "meta/v1/OwnerReference" ∷ "v1/Status" ∷ []

abbrev pub networking_v1_labels : List String
networking_v1_labels =
    "networking.k8s.io/v1/NetworkPolicy" ∷ "networking.k8s.io/v1/NetworkPolicyList" ∷ []

abbrev pub policy_v1beta1_labels : List String
policy_v1beta1_labels =
    "policy/v1beta1/Eviction" ∷ "policy/v1beta1/PodDisruptionBudget"
    ∷ "policy/v1beta1/PodDisruptionBudgetList" ∷ []

abbrev pub rbac_v1_labels : List String
rbac_v1_labels =
    "rbac.authorization.k8s.io/v1/ClusterRole" ∷ "rbac.authorization.k8s.io/v1/ClusterRoleBinding"
    ∷ "rbac.authorization.k8s.io/v1/ClusterRoleBindingList"
    ∷ "rbac.authorization.k8s.io/v1/ClusterRoleList" ∷ "rbac.authorization.k8s.io/v1/Role"
    ∷ "rbac.authorization.k8s.io/v1/RoleBinding" ∷ "rbac.authorization.k8s.io/v1/RoleBindingList"
    ∷ "rbac.authorization.k8s.io/v1/RoleList" ∷ []

abbrev pub rbac_v1alpha1_labels : List String
rbac_v1alpha1_labels =
    "rbac.authorization.k8s.io/v1alpha1/ClusterRole"
    ∷ "rbac.authorization.k8s.io/v1alpha1/ClusterRoleBinding"
    ∷ "rbac.authorization.k8s.io/v1alpha1/ClusterRoleBindingList"
    ∷ "rbac.authorization.k8s.io/v1alpha1/ClusterRoleList"
    ∷ "rbac.authorization.k8s.io/v1alpha1/Role" ∷ "rbac.authorization.k8s.io/v1alpha1/RoleBinding"
    ∷ "rbac.authorization.k8s.io/v1alpha1/RoleBindingList"
    ∷ "rbac.authorization.k8s.io/v1alpha1/RoleList" ∷ "rbac/v1alpha1/Subject" ∷ []

abbrev pub rbac_v1beta1_labels : List String
rbac_v1beta1_labels =
    "rbac.authorization.k8s.io/v1beta1/ClusterRole"
    ∷ "rbac.authorization.k8s.io/v1beta1/ClusterRoleBinding"
    ∷ "rbac.authorization.k8s.io/v1beta1/ClusterRoleBindingList"
    ∷ "rbac.authorization.k8s.io/v1beta1/ClusterRoleList" ∷ "rbac.authorization.k8s.io/v1beta1/Role"
    ∷ "rbac.authorization.k8s.io/v1beta1/RoleBinding"
    ∷ "rbac.authorization.k8s.io/v1beta1/RoleBindingList"
    ∷ "rbac.authorization.k8s.io/v1beta1/RoleList" ∷ []

abbrev pub scheduling_v1alpha1_labels : List String
scheduling_v1alpha1_labels =
    "scheduling.k8s.io/v1alpha1/PriorityClass" ∷ "scheduling.k8s.io/v1alpha1/PriorityClassList" ∷ []

abbrev pub settings_v1alpha1_labels : List String
settings_v1alpha1_labels =
    "settings.k8s.io/v1alpha1/PodPreset" ∷ "settings.k8s.io/v1alpha1/PodPresetList" ∷ []

abbrev pub storage_v1_labels : List String
storage_v1_labels = "storage.k8s.io/v1/StorageClass" ∷ "storage.k8s.io/v1/StorageClassList" ∷ []

abbrev pub storage_v1alpha1_labels : List String
storage_v1alpha1_labels =
    "storage.k8s.io/v1alpha1/VolumeAttachment" ∷ "storage.k8s.io/v1alpha1/VolumeAttachmentList" ∷ []

abbrev pub storage_v1beta1_labels : List String
storage_v1beta1_labels =
    "storage.k8s.io/v1beta1/StorageClass" ∷ "storage.k8s.io/v1beta1/StorageClassList" ∷ []

unfoldable pub get_resource_labels : List String
get_resource_labels = concat (
    admissionregistration_v1alpha1_labels ∷ admissionregistration_v1beta1_labels
    ∷ apiextensions_v1beta1_labels ∷ apiregistration_v1beta1_labels ∷ apps_v1_labels
    ∷ apps_v1beta1_labels ∷ apps_v1beta2_labels ∷ authentication_v1_labels
    ∷ authentication_v1beta1_labels ∷ authorization_v1_labels ∷ authorization_v1beta1_labels
    ∷ autoscaling_v1_labels ∷ autoscaling_v2beta1_labels ∷ batch_v1_labels ∷ batch_v1beta1_labels
    ∷ batch_v2alpha1_labels ∷ certificates_v1beta1_labels ∷ core_v1_labels ∷ events_v1beta1_labels
    ∷ extensions_v1beta1_labels ∷ meta_v1_labels ∷ networking_v1_labels ∷ policy_v1beta1_labels
    ∷ rbac_v1_labels ∷ rbac_v1alpha1_labels ∷ rbac_v1beta1_labels ∷ scheduling_v1alpha1_labels
    ∷ settings_v1alpha1_labels ∷ storage_v1_labels ∷ storage_v1alpha1_labels
    ∷ storage_v1beta1_labels ∷ [])
