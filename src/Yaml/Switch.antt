-- ===== src/Yaml/Switch.antt =====
-- The whole `switch` of `parseYamlObject`, in the order of the source.
mod AdmissionToApps
mod AuthenticationToCertificates
mod CoreToExtensions
mod MetaToPolicy
mod RbacToStorage
use pulumi_kubernetes.Common.{List, [], ◌∷◌, concat}
use pulumi_kubernetes.Yaml.Case.{Case}
use pulumi_kubernetes.Yaml.Switch.AdmissionToApps.{
  admissionregistration_v1alpha1_cases, admissionregistration_v1beta1_cases,
  apiextensions_v1beta1_cases, apiregistration_v1beta1_cases, apps_v1_cases, apps_v1beta1_cases,
  apps_v1beta2_cases,
}
use pulumi_kubernetes.Yaml.Switch.AuthenticationToCertificates.{
  authentication_v1_cases, authentication_v1beta1_cases, authorization_v1_cases,
  authorization_v1beta1_cases, autoscaling_v1_cases, autoscaling_v2beta1_cases, batch_v1_cases,
  batch_v1beta1_cases, batch_v2alpha1_cases, certificates_v1beta1_cases,
}
use pulumi_kubernetes.Yaml.Switch.CoreToExtensions.{
  core_v1_cases, events_v1beta1_cases, extensions_v1beta1_cases,
}
use pulumi_kubernetes.Yaml.Switch.MetaToPolicy.{
  meta_v1_cases, networking_v1_cases, policy_v1beta1_cases,
}
use pulumi_kubernetes.Yaml.Switch.RbacToStorage.{
  rbac_v1_cases, rbac_v1alpha1_cases, rbac_v1beta1_cases, scheduling_v1alpha1_cases,
  settings_v1alpha1_cases, storage_v1_cases, storage_v1alpha1_cases, storage_v1beta1_cases,
}

unfoldable pub switch_cases : List Case
switch_cases = concat (
    admissionregistration_v1alpha1_cases ∷ admissionregistration_v1beta1_cases
    ∷ apiextensions_v1beta1_cases ∷ apiregistration_v1beta1_cases ∷ apps_v1_cases
    ∷ apps_v1beta1_cases ∷ apps_v1beta2_cases ∷ authentication_v1_cases
    ∷ authentication_v1beta1_cases ∷ authorization_v1_cases ∷ authorization_v1beta1_cases
    ∷ autoscaling_v1_cases ∷ autoscaling_v2beta1_cases ∷ batch_v1_cases ∷ batch_v1beta1_cases
    ∷ batch_v2alpha1_cases ∷ certificates_v1beta1_cases ∷ core_v1_cases ∷ events_v1beta1_cases
    ∷ extensions_v1beta1_cases ∷ meta_v1_cases ∷ networking_v1_cases ∷ policy_v1beta1_cases
    ∷ rbac_v1_cases ∷ rbac_v1alpha1_cases ∷ rbac_v1beta1_cases ∷ scheduling_v1alpha1_cases
    ∷ settings_v1alpha1_cases ∷ storage_v1_cases ∷ storage_v1alpha1_cases ∷ storage_v1beta1_cases
    ∷ [])
