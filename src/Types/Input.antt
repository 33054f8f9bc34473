-- ===== src/Types/Input.antt =====
-- The namespaces of pack/nodejs/types/input.ts, in the order of the source.
pub mod AdmissionregistrationV1alpha1
pub mod AdmissionregistrationV1beta1
pub mod ApiextensionsV1beta1
pub mod ApiregistrationV1beta1
pub mod AppsV1
pub mod AppsV1beta1
pub mod AppsV1beta2
pub mod AuthenticationV1
pub mod AuthenticationV1beta1
pub mod AuthorizationV1
pub mod AuthorizationV1beta1
pub mod AutoscalingV1
pub mod AutoscalingV2beta1
pub mod BatchV1
pub mod BatchV1beta1
pub mod BatchV2alpha1
pub mod CertificatesV1beta1
pub mod CoreV1
pub mod EventsV1beta1
pub mod ExtensionsV1beta1
pub mod MetaV1
pub mod NetworkingV1
pub mod PkgRuntime
pub mod PkgVersion
pub mod PolicyV1beta1
pub mod RbacV1
pub mod RbacV1alpha1
pub mod RbacV1beta1
pub mod SchedulingV1alpha1
pub mod SettingsV1alpha1
pub mod StorageV1
pub mod StorageV1alpha1
pub mod StorageV1beta1
use pulumi_kubernetes.Common.{[], ◌∷◌}
use pulumi_kubernetes.Types.Shape.{Namespaces}
use pulumi_kubernetes.Types.Input.AdmissionregistrationV1alpha1
use pulumi_kubernetes.Types.Input.AdmissionregistrationV1beta1
use pulumi_kubernetes.Types.Input.ApiextensionsV1beta1
use pulumi_kubernetes.Types.Input.ApiregistrationV1beta1
use pulumi_kubernetes.Types.Input.AppsV1
use pulumi_kubernetes.Types.Input.AppsV1beta1
use pulumi_kubernetes.Types.Input.AppsV1beta2
use pulumi_kubernetes.Types.Input.AuthenticationV1
use pulumi_kubernetes.Types.Input.AuthenticationV1beta1
use pulumi_kubernetes.Types.Input.AuthorizationV1
use pulumi_kubernetes.Types.Input.AuthorizationV1beta1
use pulumi_kubernetes.Types.Input.AutoscalingV1
use pulumi_kubernetes.Types.Input.AutoscalingV2beta1
use pulumi_kubernetes.Types.Input.BatchV1
use pulumi_kubernetes.Types.Input.BatchV1beta1
use pulumi_kubernetes.Types.Input.BatchV2alpha1
use pulumi_kubernetes.Types.Input.CertificatesV1beta1
use pulumi_kubernetes.Types.Input.CoreV1
use pulumi_kubernetes.Types.Input.EventsV1beta1
use pulumi_kubernetes.Types.Input.ExtensionsV1beta1
use pulumi_kubernetes.Types.Input.MetaV1
use pulumi_kubernetes.Types.Input.NetworkingV1
use pulumi_kubernetes.Types.Input.PkgRuntime
use pulumi_kubernetes.Types.Input.PkgVersion
use pulumi_kubernetes.Types.Input.PolicyV1beta1
use pulumi_kubernetes.Types.Input.RbacV1
use pulumi_kubernetes.Types.Input.RbacV1alpha1
use pulumi_kubernetes.Types.Input.RbacV1beta1
use pulumi_kubernetes.Types.Input.SchedulingV1alpha1
use pulumi_kubernetes.Types.Input.SettingsV1alpha1
use pulumi_kubernetes.Types.Input.StorageV1
use pulumi_kubernetes.Types.Input.StorageV1alpha1
use pulumi_kubernetes.Types.Input.StorageV1beta1

unfoldable pub input_types : Namespaces
input_types =
    ("admissionregistration.v1alpha1", AdmissionregistrationV1alpha1.interfaces)
    ∷ ("admissionregistration.v1beta1", AdmissionregistrationV1beta1.interfaces)
    ∷ ("apiextensions.v1beta1", ApiextensionsV1beta1.interfaces)
    ∷ ("apiregistration.v1beta1", ApiregistrationV1beta1.interfaces)
    ∷ ("apps.v1", AppsV1.interfaces)
    ∷ ("apps.v1beta1", AppsV1beta1.interfaces)
    ∷ ("apps.v1beta2", AppsV1beta2.interfaces)
    ∷ ("authentication.v1", AuthenticationV1.interfaces)
    ∷ ("authentication.v1beta1", AuthenticationV1beta1.interfaces)
    ∷ ("authorization.v1", AuthorizationV1.interfaces)
    ∷ ("authorization.v1beta1", AuthorizationV1beta1.interfaces)
    ∷ ("autoscaling.v1", AutoscalingV1.interfaces)
    ∷ ("autoscaling.v2beta1", AutoscalingV2beta1.interfaces)
    ∷ ("batch.v1", BatchV1.interfaces)
    ∷ ("batch.v1beta1", BatchV1beta1.interfaces)
    ∷ ("batch.v2alpha1", BatchV2alpha1.interfaces)
    ∷ ("certificates.v1beta1", CertificatesV1beta1.interfaces)
    ∷ ("core.v1", CoreV1.interfaces)
    ∷ ("events.v1beta1", EventsV1beta1.interfaces)
    ∷ ("extensions.v1beta1", ExtensionsV1beta1.interfaces)
    ∷ ("meta.v1", MetaV1.interfaces)
    ∷ ("networking.v1", NetworkingV1.interfaces)
    ∷ ("pkg.runtime", PkgRuntime.interfaces)
    ∷ ("pkg.version", PkgVersion.interfaces)
    ∷ ("policy.v1beta1", PolicyV1beta1.interfaces)
    ∷ ("rbac.v1", RbacV1.interfaces)
    ∷ ("rbac.v1alpha1", RbacV1alpha1.interfaces)
    ∷ ("rbac.v1beta1", RbacV1beta1.interfaces)
    ∷ ("scheduling.v1alpha1", SchedulingV1alpha1.interfaces)
    ∷ ("settings.v1alpha1", SettingsV1alpha1.interfaces)
    ∷ ("storage.v1", StorageV1.interfaces)
    ∷ ("storage.v1alpha1", StorageV1alpha1.interfaces)
    ∷ ("storage.v1beta1", StorageV1beta1.interfaces)
    ∷ []
