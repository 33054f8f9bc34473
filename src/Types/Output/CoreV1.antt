-- ===== src/Types/Output/CoreV1.antt =====
-- The namespace `core.v1` of pack/nodejs/types/output.ts, in alphabetical parts.
pub mod FromAwsElasticBlockStoreVolumeSource
pub mod FromConfigMapVolumeSource
pub mod FromEnvFromSource
pub mod FromIscsiPersistentVolumeSource
pub mod FromNodeCondition
pub mod FromPersistentVolumeClaimVolumeSource
pub mod FromPodStatus
pub mod FromResourceQuotaList
pub mod FromServicePort
use pulumi_kubernetes.Common.{List, [], ◌∷◌, concat}
use pulumi_kubernetes.Types.Shape.{Interface}
use pulumi_kubernetes.Types.Output.CoreV1.FromAwsElasticBlockStoreVolumeSource
use pulumi_kubernetes.Types.Output.CoreV1.FromConfigMapVolumeSource
use pulumi_kubernetes.Types.Output.CoreV1.FromEnvFromSource
use pulumi_kubernetes.Types.Output.CoreV1.FromIscsiPersistentVolumeSource
use pulumi_kubernetes.Types.Output.CoreV1.FromNodeCondition
use pulumi_kubernetes.Types.Output.CoreV1.FromPersistentVolumeClaimVolumeSource
use pulumi_kubernetes.Types.Output.CoreV1.FromPodStatus
use pulumi_kubernetes.Types.Output.CoreV1.FromResourceQuotaList
use pulumi_kubernetes.Types.Output.CoreV1.FromServicePort

abbrev pub interfaces : List Interface
interfaces = concat (
    FromAwsElasticBlockStoreVolumeSource.interfaces ∷ FromConfigMapVolumeSource.interfaces
    ∷ FromEnvFromSource.interfaces ∷ FromIscsiPersistentVolumeSource.interfaces
    ∷ FromNodeCondition.interfaces ∷ FromPersistentVolumeClaimVolumeSource.interfaces
    ∷ FromPodStatus.interfaces ∷ FromResourceQuotaList.interfaces ∷ FromServicePort.interfaces ∷ [])
