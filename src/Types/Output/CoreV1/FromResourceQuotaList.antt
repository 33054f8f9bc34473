-- ===== src/Types/Output/CoreV1/FromResourceQuotaList.antt =====
-- The interfaces of `core.v1` in pack/nodejs/types/output.ts from ResourceQuotaList to ServiceList.
use pulumi_kubernetes.Common.{List, [], ◌∷◌}
use pulumi_kubernetes.Types.Shape.{
  Interface, interface, readonly, text, number, boolean, any_object, list, dict, ref,
}

abbrev pub resource_quota_list : Interface
resource_quota_list = interface "ResourceQuotaList" (
    readonly "apiVersion" text
    ∷ readonly "items" (list (ref "core.v1" "ResourceQuota"))
    ∷ readonly "kind" text
    ∷ readonly "metadata" (ref "meta.v1" "ListMeta")
    ∷ [])

abbrev pub resource_quota_spec : Interface
resource_quota_spec =
    interface "ResourceQuotaSpec" (readonly "hard" any_object ∷ readonly "scopes" (list text) ∷ [])

abbrev pub resource_quota_status : Interface
resource_quota_status =
    interface "ResourceQuotaStatus" (readonly "hard" any_object ∷ readonly "used" any_object ∷ [])

abbrev pub resource_requirements : Interface
resource_requirements =
    interface "ResourceRequirements"
      (readonly "limits" any_object ∷ readonly "requests" any_object ∷ [])

abbrev pub se_linux_options : Interface
se_linux_options = interface "SELinuxOptions" (
    readonly "level" text ∷ readonly "role" text ∷ readonly "type" text ∷ readonly "user" text ∷ [])

abbrev pub scale_io_persistent_volume_source : Interface
scale_io_persistent_volume_source = interface "ScaleIOPersistentVolumeSource" (
    readonly "fsType" text
    ∷ readonly "gateway" text
    ∷ readonly "protectionDomain" text
    ∷ readonly "readOnly" boolean
    ∷ readonly "secretRef" (ref "core.v1" "SecretReference")
    ∷ readonly "sslEnabled" boolean
    ∷ readonly "storageMode" text
    ∷ readonly "storagePool" text
    ∷ readonly "system" text
    ∷ readonly "volumeName" text
    ∷ [])

abbrev pub scale_io_volume_source : Interface
scale_io_volume_source = interface "ScaleIOVolumeSource" (
    readonly "fsType" text
    ∷ readonly "gateway" text
    ∷ readonly "protectionDomain" text
    ∷ readonly "readOnly" boolean
    ∷ readonly "secretRef" (ref "core.v1" "LocalObjectReference")
    ∷ readonly "sslEnabled" boolean
    ∷ readonly "storageMode" text
    ∷ readonly "storagePool" text
    ∷ readonly "system" text
    ∷ readonly "volumeName" text
    ∷ [])

abbrev pub secret : Interface
secret = interface "Secret" (
    readonly "apiVersion" text
    ∷ readonly "data" any_object
    ∷ readonly "kind" text
    ∷ readonly "metadata" (ref "meta.v1" "ObjectMeta")
    ∷ readonly "stringData" (dict text)
    ∷ readonly "type" text
    ∷ [])

abbrev pub secret_env_source : Interface
secret_env_source =
    interface "SecretEnvSource" (readonly "name" text ∷ readonly "optional" boolean ∷ [])

abbrev pub secret_key_selector : Interface
secret_key_selector =
    interface "SecretKeySelector"
      (readonly "key" text ∷ readonly "name" text ∷ readonly "optional" boolean ∷ [])

abbrev pub secret_list : Interface
secret_list = interface "SecretList" (
    readonly "apiVersion" text
    ∷ readonly "items" (list (ref "core.v1" "Secret"))
    ∷ readonly "kind" text
    ∷ readonly "metadata" (ref "meta.v1" "ListMeta")
    ∷ [])

abbrev pub secret_projection : Interface
secret_projection = interface "SecretProjection" (
    readonly "items" (list (ref "core.v1" "KeyToPath"))
    ∷ readonly "name" text
    ∷ readonly "optional" boolean
    ∷ [])

abbrev pub secret_reference : Interface
secret_reference =
    interface "SecretReference" (readonly "name" text ∷ readonly "namespace" text ∷ [])

abbrev pub secret_volume_source : Interface
secret_volume_source = interface "SecretVolumeSource" (
    readonly "defaultMode" number
    ∷ readonly "items" (list (ref "core.v1" "KeyToPath"))
    ∷ readonly "optional" boolean
    ∷ readonly "secretName" text
    ∷ [])

abbrev pub security_context : Interface
security_context = interface "SecurityContext" (
    readonly "allowPrivilegeEscalation" boolean
    ∷ readonly "capabilities" (ref "core.v1" "Capabilities")
    ∷ readonly "privileged" boolean
    ∷ readonly "readOnlyRootFilesystem" boolean
    ∷ readonly "runAsNonRoot" boolean
    ∷ readonly "runAsUser" number
    ∷ readonly "seLinuxOptions" (ref "core.v1" "SELinuxOptions")
    ∷ [])

abbrev pub service : Interface
service = interface "Service" (
    readonly "apiVersion" text
    ∷ readonly "kind" text
    ∷ readonly "metadata" (ref "meta.v1" "ObjectMeta")
    ∷ readonly "spec" (ref "core.v1" "ServiceSpec")
    ∷ readonly "status" (ref "core.v1" "ServiceStatus")
    ∷ [])

abbrev pub service_account : Interface
service_account = interface "ServiceAccount" (
    readonly "apiVersion" text
    ∷ readonly "automountServiceAccountToken" boolean
    ∷ readonly "imagePullSecrets" (list (ref "core.v1" "LocalObjectReference"))
    ∷ readonly "kind" text
    ∷ readonly "metadata" (ref "meta.v1" "ObjectMeta")
    ∷ readonly "secrets" (list (ref "core.v1" "ObjectReference"))
    ∷ [])

abbrev pub service_account_list : Interface
service_account_list = interface "ServiceAccountList" (
    readonly "apiVersion" text
    ∷ readonly "items" (list (ref "core.v1" "ServiceAccount"))
    ∷ readonly "kind" text
    ∷ readonly "metadata" (ref "meta.v1" "ListMeta")
    ∷ [])

abbrev pub service_list : Interface
service_list = interface "ServiceList" (
    readonly "apiVersion" text
    ∷ readonly "items" (list (ref "core.v1" "Service"))
    ∷ readonly "kind" text
    ∷ readonly "metadata" (ref "meta.v1" "ListMeta")
    ∷ [])

abbrev pub interfaces : List Interface
interfaces =
    resource_quota_list ∷ resource_quota_spec ∷ resource_quota_status ∷ resource_requirements
    ∷ se_linux_options ∷ scale_io_persistent_volume_source ∷ scale_io_volume_source ∷ secret
    ∷ secret_env_source ∷ secret_key_selector ∷ secret_list ∷ secret_projection ∷ secret_reference
    ∷ secret_volume_source ∷ security_context ∷ service ∷ service_account ∷ service_account_list
    ∷ service_list ∷ []
