-- ===== src/Types/Output/AppsV1beta2.antt =====
-- The namespace `apps.v1beta2` of pack/nodejs/types/output.ts, in alphabetical parts.
pub mod FromControllerRevision
pub mod FromReplicaSetCondition
use pulumi_kubernetes.Common.{List, [], ◌∷◌, concat}
use pulumi_kubernetes.Types.Shape.{Interface}
use pulumi_kubernetes.Types.Output.AppsV1beta2.FromControllerRevision
use pulumi_kubernetes.Types.Output.AppsV1beta2.FromReplicaSetCondition

abbrev pub interfaces : List Interface
interfaces = concat (FromControllerRevision.interfaces ∷ FromReplicaSetCondition.interfaces ∷ [])
