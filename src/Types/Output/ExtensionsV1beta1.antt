-- ===== src/Types/Output/ExtensionsV1beta1.antt =====
-- The namespace `extensions.v1beta1` of pack/nodejs/types/output.ts, in alphabetical parts.
pub mod FromAllowedFlexVolume
pub mod FromHttpIngressPath
pub mod FromPodSecurityPolicyList
use pulumi_kubernetes.Common.{List, [], ◌∷◌, concat}
use pulumi_kubernetes.Types.Shape.{Interface}
use pulumi_kubernetes.Types.Output.ExtensionsV1beta1.FromAllowedFlexVolume
use pulumi_kubernetes.Types.Output.ExtensionsV1beta1.FromHttpIngressPath
use pulumi_kubernetes.Types.Output.ExtensionsV1beta1.FromPodSecurityPolicyList

abbrev pub interfaces : List Interface
interfaces = concat (
    FromAllowedFlexVolume.interfaces ∷ FromHttpIngressPath.interfaces
    ∷ FromPodSecurityPolicyList.interfaces ∷ [])
