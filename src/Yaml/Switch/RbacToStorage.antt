-- ===== src/Yaml/Switch/RbacToStorage.antt =====
-- The cases of the `switch` in `parseYamlObject` (pack/nodejs/provider.ts), a list for each namespace.
use pulumi_kubernetes.Common.{List, [], ◌∷◌}
use pulumi_kubernetes.Resources
use pulumi_kubernetes.Yaml.Case.{Case}

abbrev pub rbac_v1_cases : List Case
rbac_v1_cases =
    record {
      label = "rbac.authorization.k8s.io/v1/ClusterRole";
      prefix = "rbac.authorization.k8s.io/v1/ClusterRole::";
      made = Resources.Rbac.V1.cluster_role;
    }
    ∷ record {
      label = "rbac.authorization.k8s.io/v1/ClusterRoleBinding";
      prefix = "rbac.authorization.k8s.io/v1/ClusterRoleBinding::";
      made = Resources.Rbac.V1.cluster_role_binding;
    }
    ∷ record {
      label = "rbac.authorization.k8s.io/v1/ClusterRoleBindingList";
      prefix = "rbac.authorization.k8s.io/v1/ClusterRoleBindingList::";
      made = Resources.Rbac.V1.cluster_role_binding_list;
    }
    ∷ record {
      label = "rbac.authorization.k8s.io/v1/ClusterRoleList";
      prefix = "rbac.authorization.k8s.io/v1/ClusterRoleList::";
      made = Resources.Rbac.V1.cluster_role_list;
    }
    ∷ record {
      label = "rbac.authorization.k8s.io/v1/Role";
      prefix = "rbac.authorization.k8s.io/v1/Role::";
      made = Resources.Rbac.V1.role;
    }
    ∷ record {
      label = "rbac.authorization.k8s.io/v1/RoleBinding";
      prefix = "rbac.authorization.k8s.io/v1/RoleBinding::";
      made = Resources.Rbac.V1.role_binding;
    }
    ∷ record {
      label = "rbac.authorization.k8s.io/v1/RoleBindingList";
      prefix = "rbac.authorization.k8s.io/v1/RoleBindingList::";
      made = Resources.Rbac.V1.role_binding_list;
    }
    ∷ record {
      label = "rbac.authorization.k8s.io/v1/RoleList";
      prefix = "rbac.authorization.k8s.io/v1/RoleList::";
      made = Resources.Rbac.V1.role_list;
    }
    ∷ []

abbrev pub rbac_v1alpha1_cases : List Case
rbac_v1alpha1_cases =
    record {
      label = "rbac.authorization.k8s.io/v1alpha1/ClusterRole";
      prefix = "rbac.authorization.k8s.io/v1alpha1/ClusterRole::";
      made = Resources.Rbac.V1alpha1.cluster_role;
    }
    ∷ record {
      label = "rbac.authorization.k8s.io/v1alpha1/ClusterRoleBinding";
      prefix = "rbac.authorization.k8s.io/v1alpha1/ClusterRoleBinding::";
      made = Resources.Rbac.V1alpha1.cluster_role_binding;
    }
    ∷ record {
      label = "rbac.authorization.k8s.io/v1alpha1/ClusterRoleBindingList";
      prefix = "rbac.authorization.k8s.io/v1alpha1/ClusterRoleBindingList::";
      made = Resources.Rbac.V1alpha1.cluster_role_binding_list;
    }
    ∷ record {
      label = "rbac.authorization.k8s.io/v1alpha1/ClusterRoleList";
      prefix = "rbac.authorization.k8s.io/v1alpha1/ClusterRoleList::";
      made = Resources.Rbac.V1alpha1.cluster_role_list;
    }
    ∷ record {
      label = "rbac.authorization.k8s.io/v1alpha1/Role";
      prefix = "rbac.authorization.k8s.io/v1alpha1/Role::";
      made = Resources.Rbac.V1alpha1.role;
    }
    ∷ record {
      label = "rbac.authorization.k8s.io/v1alpha1/RoleBinding";
      prefix = "rbac.authorization.k8s.io/v1alpha1/RoleBinding::";
      made = Resources.Rbac.V1alpha1.role_binding;
    }
    ∷ record {
      label = "rbac.authorization.k8s.io/v1alpha1/RoleBindingList";
      prefix = "rbac.authorization.k8s.io/v1alpha1/RoleBindingList::";
      made = Resources.Rbac.V1alpha1.role_binding_list;
    }
    ∷ record {
      label = "rbac.authorization.k8s.io/v1alpha1/RoleList";
      prefix = "rbac.authorization.k8s.io/v1alpha1/RoleList::";
      made = Resources.Rbac.V1alpha1.role_list;
    }
    ∷ record {
      label = "rbac/v1alpha1/Subject";
      prefix = "rbac/v1alpha1/Subject::";
      made = Resources.Rbac.V1alpha1.subject;
    }
    ∷ []

abbrev pub rbac_v1beta1_cases : List Case
rbac_v1beta1_cases =
    record {
      label = "rbac.authorization.k8s.io/v1beta1/ClusterRole";
      prefix = "rbac.authorization.k8s.io/v1beta1/ClusterRole::";
      made = Resources.Rbac.V1beta1.cluster_role;
    }
    ∷ record {
      label = "rbac.authorization.k8s.io/v1beta1/ClusterRoleBinding";
      prefix = "rbac.authorization.k8s.io/v1beta1/ClusterRoleBinding::";
      made = Resources.Rbac.V1beta1.cluster_role_binding;
    }
    ∷ record {
      label = "rbac.authorization.k8s.io/v1beta1/ClusterRoleBindingList";
      prefix = "rbac.authorization.k8s.io/v1beta1/ClusterRoleBindingList::";
      made = Resources.Rbac.V1beta1.cluster_role_binding_list;
    }
    ∷ record {
      label = "rbac.authorization.k8s.io/v1beta1/ClusterRoleList";
      prefix = "rbac.authorization.k8s.io/v1beta1/ClusterRoleList::";
      made = Resources.Rbac.V1beta1.cluster_role_list;
    }
    ∷ record {
      label = "rbac.authorization.k8s.io/v1beta1/Role";
      prefix = "rbac.authorization.k8s.io/v1beta1/Role::";
      made = Resources.Rbac.V1beta1.role;
    }
    ∷ record {
      label = "rbac.authorization.k8s.io/v1beta1/RoleBinding";
      prefix = "rbac.authorization.k8s.io/v1beta1/RoleBinding::";
      made = Resources.Rbac.V1beta1.role_binding;
    }
    ∷ record {
      label = "rbac.authorization.k8s.io/v1beta1/RoleBindingList";
      prefix = "rbac.authorization.k8s.io/v1beta1/RoleBindingList::";
      made = Resources.Rbac.V1beta1.role_binding_list;
    }
    ∷ record {
      label = "rbac.authorization.k8s.io/v1beta1/RoleList";
      prefix = "rbac.authorization.k8s.io/v1beta1/RoleList::";
      made = Resources.Rbac.V1beta1.role_list;
    }
    ∷ []

abbrev pub scheduling_v1alpha1_cases : List Case
scheduling_v1alpha1_cases =
    record {
      label = "scheduling.k8s.io/v1alpha1/PriorityClass";
      prefix = "scheduling.k8s.io/v1alpha1/PriorityClass::";
      made = Resources.Scheduling.V1alpha1.priority_class;
    }
    ∷ record {
      label = "scheduling.k8s.io/v1alpha1/PriorityClassList";
      prefix = "scheduling.k8s.io/v1alpha1/PriorityClassList::";
      made = Resources.Scheduling.V1alpha1.priority_class_list;
    }
    ∷ []

abbrev pub settings_v1alpha1_cases : List Case
settings_v1alpha1_cases =
    record {
      label = "settings.k8s.io/v1alpha1/PodPreset";
      prefix = "settings.k8s.io/v1alpha1/PodPreset::";
      made = Resources.Settings.V1alpha1.pod_preset;
    }
    ∷ record {
      label = "settings.k8s.io/v1alpha1/PodPresetList";
      prefix = "settings.k8s.io/v1alpha1/PodPresetList::";
      made = Resources.Settings.V1alpha1.pod_preset_list;
    }
    ∷ []

abbrev pub storage_v1_cases : List Case
storage_v1_cases =
    record {
      label = "storage.k8s.io/v1/StorageClass";
      prefix = "storage.k8s.io/v1/StorageClass::";
      made = Resources.Storage.V1.storage_class;
    }
    ∷ record {
      label = "storage.k8s.io/v1/StorageClassList";
      prefix = "storage.k8s.io/v1/StorageClassList::";
      made = Resources.Storage.V1.storage_class_list;
    }
    ∷ []

abbrev pub storage_v1alpha1_cases : List Case
storage_v1alpha1_cases =
    record {
      label = "storage.k8s.io/v1alpha1/VolumeAttachment";
      prefix = "storage.k8s.io/v1alpha1/VolumeAttachment::";
      made = Resources.Storage.V1alpha1.volume_attachment;
    }
    ∷ record {
      label = "storage.k8s.io/v1alpha1/VolumeAttachmentList";
      prefix = "storage.k8s.io/v1alpha1/VolumeAttachmentList::";
      made = Resources.Storage.V1alpha1.volume_attachment_list;
    }
    ∷ []

abbrev pub storage_v1beta1_cases : List Case
storage_v1beta1_cases =
    record {
      label = "storage.k8s.io/v1beta1/StorageClass";
      prefix = "storage.k8s.io/v1beta1/StorageClass::";
      made = Resources.Storage.V1beta1.storage_class;
    }
    ∷ record {
      label = "storage.k8s.io/v1beta1/StorageClassList";
      prefix = "storage.k8s.io/v1beta1/StorageClassList::";
      made = Resources.Storage.V1beta1.storage_class_list;
    }
    ∷ []
