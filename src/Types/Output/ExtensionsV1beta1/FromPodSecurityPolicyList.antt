-- ===== src/Types/Output/ExtensionsV1beta1/FromPodSecurityPolicyList.antt =====
-- The interfaces of `extensions.v1beta1` in pack/nodejs/types/output.ts from PodSecurityPolicyList to SupplementalGroupsStrategyOptions.
use pulumi_kubernetes.Common.{List, [], ◌∷◌}
use pulumi_kubernetes.Types.Shape.{
  Interface, interface, readonly, text, number, boolean, number_or_text, list, dict, ref,
}

abbrev pub pod_security_policy_list : Interface
pod_security_policy_list = interface "PodSecurityPolicyList" (
    readonly "apiVersion" text
    ∷ readonly "items" (list (ref "extensions.v1beta1" "PodSecurityPolicy"))
    ∷ readonly "kind" text
    ∷ readonly "metadata" (ref "meta.v1" "ListMeta")
    ∷ [])

abbrev pub pod_security_policy_spec : Interface
pod_security_policy_spec = interface "PodSecurityPolicySpec" (
    readonly "allowPrivilegeEscalation" boolean
    ∷ readonly "allowedCapabilities" (list text)
    ∷ readonly "allowedFlexVolumes" (list (ref "extensions.v1beta1" "AllowedFlexVolume"))
    ∷ readonly "allowedHostPaths" (list (ref "extensions.v1beta1" "AllowedHostPath"))
    ∷ readonly "defaultAddCapabilities" (list text)
    ∷ readonly "defaultAllowPrivilegeEscalation" boolean
    ∷ readonly "fsGroup" (ref "extensions.v1beta1" "FSGroupStrategyOptions")
    ∷ readonly "hostIPC" boolean
    ∷ readonly "hostNetwork" boolean
    ∷ readonly "hostPID" boolean
    ∷ readonly "hostPorts" (list (ref "extensions.v1beta1" "HostPortRange"))
    ∷ readonly "privileged" boolean
    ∷ readonly "readOnlyRootFilesystem" boolean
    ∷ readonly "requiredDropCapabilities" (list text)
    ∷ readonly "runAsUser" (ref "extensions.v1beta1" "RunAsUserStrategyOptions")
    ∷ readonly "seLinux" (ref "extensions.v1beta1" "SELinuxStrategyOptions")
    ∷ readonly "supplementalGroups" (ref "extensions.v1beta1" "SupplementalGroupsStrategyOptions")
    ∷ readonly "volumes" (list text)
    ∷ [])

abbrev pub replica_set : Interface
replica_set = interface "ReplicaSet" (
    readonly "apiVersion" text
    ∷ readonly "kind" text
    ∷ readonly "metadata" (ref "meta.v1" "ObjectMeta")
    ∷ readonly "spec" (ref "extensions.v1beta1" "ReplicaSetSpec")
    ∷ readonly "status" (ref "extensions.v1beta1" "ReplicaSetStatus")
    ∷ [])

abbrev pub replica_set_condition : Interface
replica_set_condition = interface "ReplicaSetCondition" (
    readonly "lastTransitionTime" text
    ∷ readonly "message" text
    ∷ readonly "reason" text
    ∷ readonly "status" text
    ∷ readonly "type" text
    ∷ [])

abbrev pub replica_set_list : Interface
replica_set_list = interface "ReplicaSetList" (
    readonly "apiVersion" text
    ∷ readonly "items" (list (ref "extensions.v1beta1" "ReplicaSet"))
    ∷ readonly "kind" text
    ∷ readonly "metadata" (ref "meta.v1" "ListMeta")
    ∷ [])

abbrev pub replica_set_spec : Interface
replica_set_spec = interface "ReplicaSetSpec" (
    readonly "minReadySeconds" number
    ∷ readonly "replicas" number
    ∷ readonly "selector" (ref "meta.v1" "LabelSelector")
    ∷ readonly "template" (ref "core.v1" "PodTemplateSpec")
    ∷ [])

abbrev pub replica_set_status : Interface
replica_set_status = interface "ReplicaSetStatus" (
    readonly "availableReplicas" number
    ∷ readonly "conditions" (list (ref "extensions.v1beta1" "ReplicaSetCondition"))
    ∷ readonly "fullyLabeledReplicas" number
    ∷ readonly "observedGeneration" number
    ∷ readonly "readyReplicas" number
    ∷ readonly "replicas" number
    ∷ [])

abbrev pub rollback_config : Interface
rollback_config = interface "RollbackConfig" (readonly "revision" number ∷ [])

abbrev pub rolling_update_daemon_set : Interface
rolling_update_daemon_set =
    interface "RollingUpdateDaemonSet" (readonly "maxUnavailable" number_or_text ∷ [])

abbrev pub rolling_update_deployment : Interface
rolling_update_deployment =
    interface "RollingUpdateDeployment"
      (readonly "maxSurge" number_or_text ∷ readonly "maxUnavailable" number_or_text ∷ [])

abbrev pub run_as_user_strategy_options : Interface
run_as_user_strategy_options =
    interface "RunAsUserStrategyOptions"
      (readonly "ranges" (list (ref "extensions.v1beta1" "IDRange")) ∷ readonly "rule" text ∷ [])

abbrev pub se_linux_strategy_options : Interface
se_linux_strategy_options =
    interface "SELinuxStrategyOptions"
      (readonly "rule" text ∷ readonly "seLinuxOptions" (ref "core.v1" "SELinuxOptions") ∷ [])

abbrev pub scale : Interface
scale = interface "Scale" (
    readonly "apiVersion" text
    ∷ readonly "kind" text
    ∷ readonly "metadata" (ref "meta.v1" "ObjectMeta")
    ∷ readonly "spec" (ref "extensions.v1beta1" "ScaleSpec")
    ∷ readonly "status" (ref "extensions.v1beta1" "ScaleStatus")
    ∷ [])

abbrev pub scale_spec : Interface
scale_spec = interface "ScaleSpec" (readonly "replicas" number ∷ [])

abbrev pub scale_status : Interface
scale_status = interface "ScaleStatus" (
    readonly "replicas" number
    ∷ readonly "selector" (dict text)
    ∷ readonly "targetSelector" text
    ∷ [])

abbrev pub supplemental_groups_strategy_options : Interface
supplemental_groups_strategy_options =
    interface "SupplementalGroupsStrategyOptions"
      (readonly "ranges" (list (ref "extensions.v1beta1" "IDRange")) ∷ readonly "rule" text ∷ [])

abbrev pub interfaces : List Interface
interfaces =
    pod_security_policy_list ∷ pod_security_policy_spec ∷ replica_set ∷ replica_set_condition
    ∷ replica_set_list ∷ replica_set_spec ∷ replica_set_status ∷ rollback_config
    ∷ rolling_update_daemon_set ∷ rolling_update_deployment ∷ run_as_user_strategy_options
    ∷ se_linux_strategy_options ∷ scale ∷ scale_spec ∷ scale_status
    ∷ supplemental_groups_strategy_options ∷ []
