-- ===== src/Types/Input/CoreV1/FromResourceQuotaList.antt =====
-- The interfaces of `core.v1` in pack/nodejs/types/input.ts from ResourceQuotaList to ServiceList.
use pulumi_kubernetes.Common.{List, [], ◌∷◌}
use pulumi_kubernetes.Types.Shape.{
  Interface, guarded, interface, required, optional, text, number, boolean, any_object, list, dict,
  ref, input,
}

abbrev pub resource_quota_list : Interface
resource_quota_list = guarded "ResourceQuotaList" "v1" "ResourceQuotaList" (
    required "items" (list (ref "core.v1" "ResourceQuota"))
    ∷ optional "apiVersion" text
    ∷ optional "kind" text
    ∷ optional "metadata" (ref "meta.v1" "ListMeta")
    ∷ [])

abbrev pub resource_quota_spec : Interface
resource_quota_spec =
    interface "ResourceQuotaSpec" (optional "hard" any_object ∷ optional "scopes" (list text) ∷ [])

abbrev pub resource_quota_status : Interface
resource_quota_status =
    interface "ResourceQuotaStatus" (optional "hard" any_object ∷ optional "used" any_object ∷ [])

abbrev pub resource_requirements : Interface
resource_requirements =
    interface "ResourceRequirements"
      (optional "limits" any_object ∷ optional "requests" any_object ∷ [])

abbrev pub se_linux_options : Interface
se_linux_options = interface "SELinuxOptions" (
    optional "level" text ∷ optional "role" text ∷ optional "type" text ∷ optional "user" text ∷ [])

abbrev pub scale_io_persistent_volume_source : Interface
scale_io_persistent_volume_source = interface "ScaleIOPersistentVolumeSource" (
    required "gateway" text
    ∷ required "secretRef" (ref "core.v1" "SecretReference")
    ∷ required "system" text
    ∷ optional "fsType" text
    ∷ optional "protectionDomain" text
    ∷ optional "readOnly" boolean
    ∷ optional "sslEnabled" boolean
    ∷ optional "storageMode" text
    ∷ optional "storagePool" text
    ∷ optional "volumeName" text
    ∷ [])

abbrev pub scale_io_volume_source : Interface
scale_io_volume_source = interface "ScaleIOVolumeSource" (
    required "gateway" text
    ∷ required "secretRef" (ref "core.v1" "LocalObjectReference")
    ∷ required "system" text
    ∷ optional "fsType" text
    ∷ optional "protectionDomain" text
    ∷ optional "readOnly" boolean
    ∷ optional "sslEnabled" boolean
    ∷ optional "storageMode" text
    ∷ optional "storagePool" text
    ∷ optional "volumeName" text
    ∷ [])

abbrev pub secret : Interface
secret = guarded "Secret" "v1" "Secret" (
    optional "apiVersion" text
    ∷ optional "data" any_object
    ∷ optional "kind" text
    ∷ optional "metadata" (ref "meta.v1" "ObjectMeta")
    ∷ optional "stringData" (dict (input text))
    ∷ optional "type" text
    ∷ [])

abbrev pub secret_env_source : Interface
secret_env_source =
    interface "SecretEnvSource" (optional "name" text ∷ optional "optional" boolean ∷ [])

abbrev pub secret_key_selector : Interface
secret_key_selector =
    interface "SecretKeySelector"
      (required "key" text ∷ optional "name" text ∷ optional "optional" boolean ∷ [])

abbrev pub secret_list : Interface
secret_list = guarded "SecretList" "v1" "SecretList" (
    required "items" (list (ref "core.v1" "Secret"))
    ∷ optional "apiVersion" text
    ∷ optional "kind" text
    ∷ optional "metadata" (ref "meta.v1" "ListMeta")
    ∷ [])

abbrev pub secret_projection : Interface
secret_projection = interface "SecretProjection" (
    optional "items" (list (ref "core.v1" "KeyToPath"))
    ∷ optional "name" text
    ∷ optional "optional" boolean
    ∷ [])

abbrev pub secret_reference : Interface
secret_reference =
    interface "SecretReference" (optional "name" text ∷ optional "namespace" text ∷ [])

abbrev pub secret_volume_source : Interface
secret_volume_source = interface "SecretVolumeSource" (
    optional "defaultMode" number
    ∷ optional "items" (list (ref "core.v1" "KeyToPath"))
    ∷ optional "optional" boolean
    ∷ optional "secretName" text
    ∷ [])

abbrev pub security_context : Interface
security_context = interface "SecurityContext" (
    optional "allowPrivilegeEscalation" boolean
    ∷ optional "capabilities" (ref "core.v1" "Capabilities")
    ∷ optional "privileged" boolean
    ∷ optional "readOnlyRootFilesystem" boolean
    ∷ optional "runAsNonRoot" boolean
    ∷ optional "runAsUser" number
    ∷ optional "seLinuxOptions" (ref "core.v1" "SELinuxOptions")
    ∷ [])

abbrev pub service : Interface
service = guarded "Service" "v1" "Service" (
    optional "apiVersion" text
    ∷ optional "kind" text
    ∷ optional "metadata" (ref "meta.v1" "ObjectMeta")
    ∷ optional "spec" (ref "core.v1" "ServiceSpec")
    ∷ optional "status" (ref "core.v1" "ServiceStatus")
    ∷ [])

abbrev pub service_account : Interface
service_account = guarded "ServiceAccount" "v1" "ServiceAccount" (
    optional "apiVersion" text
    ∷ optional "automountServiceAccountToken" boolean
    ∷ optional "imagePullSecrets" (list (ref "core.v1" "LocalObjectReference"))
    ∷ optional "kind" text
    ∷ optional "metadata" (ref "meta.v1" "ObjectMeta")
    ∷ optional "secrets" (list (ref "core.v1" "ObjectReference"))
    ∷ [])

abbrev pub service_account_list : Interface
service_account_list = guarded "ServiceAccountList" "v1" "ServiceAccountList" (
    required "items" (list (ref "core.v1" "ServiceAccount"))
    ∷ optional "apiVersion" text
    ∷ optional "kind" text
    ∷ optional "metadata" (ref "meta.v1" "ListMeta")
    ∷ [])

abbrev pub service_list : Interface
service_list = guarded "ServiceList" "v1" "ServiceList" (
    required "items" (list (ref "core.v1" "Service"))
    ∷ optional "apiVersion" text
    ∷ optional "kind" text
    ∷ optional "metadata" (ref "meta.v1" "ListMeta")
    ∷ [])

abbrev pub interfaces : List Interface
interfaces =
    resource_quota_list ∷ resource_quota_spec ∷ resource_quota_status ∷ resource_requirements
    ∷ se_linux_options ∷ scale_io_persistent_volume_source ∷ scale_io_volume_source ∷ secret
    ∷ secret_env_source ∷ secret_key_selector ∷ secret_list ∷ secret_projection ∷ secret_reference
    ∷ secret_volume_source ∷ security_context ∷ service ∷ service_account ∷ service_account_list
    ∷ service_list ∷ []
