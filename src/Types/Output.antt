-- ===== src/Types/Output.antt =====
-- The namespaces of pack/nodejs/types/output.ts, in the order of the source.
pub mod AdmissionregistrationV1alpha1
pub mod AdmissionregistrationV1beta1
pub mod ApiextensionsV1beta1
pub mod ApiregistrationV1beta1
pub mod AppsV1
pub mod AppsV1beta1
pub mod AppsV1beta2
pub mod AuthenticationV1
pub mod AuthenticationV1beta1
pub mod AuthorizationV1
pub mod AuthorizationV1beta1
pub mod AutoscalingV1
pub mod AutoscalingV2beta1
pub mod BatchV1
pub mod BatchV1beta1
pub mod BatchV2alpha1
pub mod CertificatesV1beta1
pub mod CoreV1
pub mod EventsV1beta1
pub mod ExtensionsV1beta1
pub mod MetaV1
pub mod NetworkingV1
pub mod PkgRuntime
pub mod PkgVersion
pub mod PolicyV1beta1
pub mod RbacV1
pub mod RbacV1alpha1
pub mod RbacV1beta1
pub mod SchedulingV1alpha1
pub mod SettingsV1alpha1
pub mod StorageV1
pub mod StorageV1alpha1
pub mod StorageV1beta1
use pulumi_kubernetes.Common.{[], ◌∷◌}
use pulumi_kubernetes.Types.Shape.{Namespaces}
use pulumi_kubernetes.Types.Output.AdmissionregistrationV1alpha1
use pulumi_kubernetes.Types.Output.AdmissionregistrationV1beta1
use pulumi_kubernetes.Types.Output.ApiextensionsV1beta1
use pulumi_kubernetes.Types.Output.ApiregistrationV1beta1
use pulumi_kubernetes.Types.Output.AppsV1
use pulumi_kubernetes.Types.Output.AppsV1beta1
use pulumi_kubernetes.Types.Output.AppsV1beta2
use pulumi_kubernetes.Types.Output.AuthenticationV1
use pulumi_kubernetes.Types.Output.AuthenticationV1beta1
use pulumi_kubernetes.Types.Output.AuthorizationV1
use pulumi_kubernetes.Types.Output.AuthorizationV1beta1
use pulumi_kubernetes.Types.Output.AutoscalingV1
use pulumi_kubernetes.Types.Output.AutoscalingV2beta1
use pulumi_kubernetes.Types.Output.BatchV1
use pulumi_kubernetes.Types.Output.BatchV1beta1
use pulumi_kubernetes.Types.Output.BatchV2alpha1
use pulumi_kubernetes.Types.Output.CertificatesV1beta1
use pulumi_kubernetes.Types.Output.CoreV1
use pulumi_kubernetes.Types.Output.EventsV1beta1
use pulumi_kubernetes.Types.Output.ExtensionsV1beta1
use pulumi_kubernetes.Types.Output.MetaV1
use pulumi_kubernetes.Types.Output.NetworkingV1
use pulumi_kubernetes.Types.Output.PkgRuntime
use pulumi_kubernetes.Types.Output.PkgVersion
use pulumi_kubernetes.Types.Output.PolicyV1beta1
use pulumi_kubernetes.Types.Output.RbacV1
use pulumi_kubernetes.Types.Output.RbacV1alpha1
use pulumi_kubernetes.Types.Output.RbacV1beta1
use pulumi_kubernetes.Types.Output.SchedulingV1alpha1
use pulumi_kubernetes.Types.Output.SettingsV1alpha1
use pulumi_kubernetes.Types.Output.StorageV1
use pulumi_kubernetes.Types.Output.StorageV1alpha1
use pulumi_kubernetes.Types.Output.StorageV1beta1

unfoldable pub output_types : Namespaces
output_types =
    ("admissionregistration.v1alpha1", AdmissionregistrationV1alpha1.interfaces)
    ∷ ("admissionregistration.v1beta1", AdmissionregistrationV1beta1.interfaces)
    ∷ ("apiextensions.v1beta1", ApiextensionsV1beta1.interfaces)
    ∷ ("apiregistration.v1beta1", ApiregistrationV1beta1.interfaces)
    ∷ ("apps.v1", AppsV1.interfaces)
    ∷ ("apps.v1beta1", AppsV1beta1.interfaces)
    ∷ ("apps.v1beta2", AppsV1beta2.interfaces)
    ∷ ("authentication.v1", AuthenticationV1.interfaces)
    ∷ ("authentication.v1beta1", AuthenticationV1beta1.interfaces)
    ∷ ("authorization.v1", AuthorizationV1.interfaces)
    ∷ ("authorization.v1beta1", AuthorizationV1beta1.interfaces)
    ∷ ("autoscaling.v1", AutoscalingV1.interfaces)
    ∷ ("autoscaling.v2beta1", AutoscalingV2beta1.interfaces)
    ∷ ("batch.v1", BatchV1.interfaces)
    ∷ ("batch.v1beta1", BatchV1beta1.interfaces)
    ∷ ("batch.v2alpha1", BatchV2alpha1.interfaces)
    ∷ ("certificates.v1beta1", CertificatesV1beta1.interfaces)
    ∷ ("core.v1", CoreV1.interfaces)
    ∷ ("events.v1beta1", EventsV1beta1.interfaces)
    ∷ ("extensions.v1beta1", ExtensionsV1beta1.interfaces)
    ∷ ("meta.v1", MetaV1.interfaces)
    ∷ ("networking.v1", NetworkingV1.interfaces)
    ∷ ("pkg.runtime", PkgRuntime.interfaces)
    ∷ ("pkg.version", PkgVersion.interfaces)
    ∷ ("policy.v1beta1", PolicyV1beta1.interfaces)
    ∷ ("rbac.v1", RbacV1.interfaces)
    ∷ ("rbac.v1alpha1", RbacV1alpha1.interfaces)
    ∷ ("rbac.v1beta1", RbacV1beta1.interfaces)
    ∷ ("scheduling.v1alpha1", SchedulingV1alpha1.interfaces)
    ∷ ("settings.v1alpha1", SettingsV1alpha1.interfaces)
    ∷ ("storage.v1", StorageV1.interfaces)
    ∷ ("storage.v1alpha1", StorageV1alpha1.interfaces)
    ∷ ("storage.v1beta1", StorageV1beta1.interfaces)
    ∷ []
