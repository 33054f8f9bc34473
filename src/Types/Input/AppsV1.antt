-- ===== src/Types/Input/AppsV1.antt =====
-- The namespace `apps.v1` of pack/nodejs/types/input.ts, in alphabetical parts.
pub mod FromControllerRevision
pub mod FromReplicaSet
use pulumi_kubernetes.Common.{List, [], ◌∷◌, concat}
use pulumi_kubernetes.Types.Shape.{Interface}
use pulumi_kubernetes.Types.Input.AppsV1.FromControllerRevision
use pulumi_kubernetes.Types.Input.AppsV1.FromReplicaSet

abbrev pub interfaces : List Interface
interfaces = concat (FromControllerRevision.interfaces ∷ FromReplicaSet.interfaces ∷ [])
