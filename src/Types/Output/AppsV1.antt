-- ===== src/Types/Output/AppsV1.antt =====
-- The namespace `apps.v1` of pack/nodejs/types/output.ts, in alphabetical parts.
pub mod FromControllerRevision
pub mod FromReplicaSet
use pulumi_kubernetes.Common.{List, [], ◌∷◌, concat}
use pulumi_kubernetes.Types.Shape.{Interface}
use pulumi_kubernetes.Types.Output.AppsV1.FromControllerRevision
use pulumi_kubernetes.Types.Output.AppsV1.FromReplicaSet

abbrev pub interfaces : List Interface
interfaces = concat (FromControllerRevision.interfaces ∷ FromReplicaSet.interfaces ∷ [])
