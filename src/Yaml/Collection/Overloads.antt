-- ===== src/Yaml/Collection/Overloads.antt =====
-- All overloads of `getResource`, in the order of the source.
mod AdmissionToCertificates
mod CoreToStorage
use pulumi_kubernetes.Common.{String, [], ◌∷◌, concat}
use pulumi_kubernetes.Common.Dict.{Dict}
use pulumi_kubernetes.Yaml.Collection.Overloads.AdmissionToCertificates.{
  admissionregistration_v1alpha1_overloads, admissionregistration_v1beta1_overloads,
  apiextensions_v1beta1_overloads, apiregistration_v1beta1_overloads, apps_v1_overloads,
  apps_v1beta1_overloads, apps_v1beta2_overloads, authentication_v1_overloads,
  authentication_v1beta1_overloads, authorization_v1_overloads, authorization_v1beta1_overloads,
  autoscaling_v1_overloads, autoscaling_v2beta1_overloads, batch_v1_overloads,
  batch_v1beta1_overloads, batch_v2alpha1_overloads, certificates_v1beta1_overloads,
}
use pulumi_kubernetes.Yaml.Collection.Overloads.CoreToStorage.{
  core_v1_overloads, events_v1beta1_overloads, extensions_v1beta1_overloads, meta_v1_overloads,
  networking_v1_overloads, policy_v1beta1_overloads, rbac_v1_overloads, rbac_v1alpha1_overloads,
  rbac_v1beta1_overloads, scheduling_v1alpha1_overloads, settings_v1alpha1_overloads,
  storage_v1_overloads, storage_v1alpha1_overloads, storage_v1beta1_overloads,
}

unfoldable pub get_resource_overloads : Dict (String × String)
get_resource_overloads = concat (
    admissionregistration_v1alpha1_overloads ∷ admissionregistration_v1beta1_overloads
    ∷ apiextensions_v1beta1_overloads ∷ apiregistration_v1beta1_overloads ∷ apps_v1_overloads
    ∷ apps_v1beta1_overloads ∷ apps_v1beta2_overloads ∷ authentication_v1_overloads
    ∷ authentication_v1beta1_overloads ∷ authorization_v1_overloads
    ∷ authorization_v1beta1_overloads ∷ autoscaling_v1_overloads ∷ autoscaling_v2beta1_overloads
    ∷ batch_v1_overloads ∷ batch_v1beta1_overloads ∷ batch_v2alpha1_overloads
    ∷ certificates_v1beta1_overloads ∷ core_v1_overloads ∷ events_v1beta1_overloads
    ∷ extensions_v1beta1_overloads ∷ meta_v1_overloads ∷ networking_v1_overloads
    ∷ policy_v1beta1_overloads ∷ rbac_v1_overloads ∷ rbac_v1alpha1_overloads
    ∷ rbac_v1beta1_overloads ∷ scheduling_v1alpha1_overloads ∷ settings_v1alpha1_overloads
    ∷ storage_v1_overloads ∷ storage_v1alpha1_overloads ∷ storage_v1beta1_overloads ∷ [])
