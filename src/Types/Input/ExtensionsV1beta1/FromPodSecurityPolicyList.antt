-- ===== src/Types/Input/ExtensionsV1beta1/FromPodSecurityPolicyList.antt =====
-- The interfaces of `extensions.v1beta1` in pack/nodejs/types/input.ts from PodSecurityPolicyList to SupplementalGroupsStrategyOptions.
use pulumi_kubernetes.Common.{List, [], ◌∷◌}
use pulumi_kubernetes.Types.Shape.{
  Interface, guarded, interface, required, optional, text, number, boolean, number_or_text, list,
  dict, ref, input,
}

abbrev pub pod_security_policy_list : Interface
pod_security_policy_list =
    guarded "PodSecurityPolicyList" "extensions/v1beta1" "PodSecurityPolicyList" (
      required "items" (list (ref "extensions.v1beta1" "PodSecurityPolicy"))
      ∷ optional "apiVersion" text
      ∷ optional "kind" text
      ∷ optional "metadata" (ref "meta.v1" "ListMeta")
      ∷ [])

abbrev pub pod_security_policy_spec : Interface
pod_security_policy_spec = interface "PodSecurityPolicySpec" (
    required "fsGroup" (ref "extensions.v1beta1" "FSGroupStrategyOptions")
    ∷ required "runAsUser" (ref "extensions.v1beta1" "RunAsUserStrategyOptions")
    ∷ required "seLinux" (ref "extensions.v1beta1" "SELinuxStrategyOptions")
    ∷ required "supplementalGroups" (ref "extensions.v1beta1" "SupplementalGroupsStrategyOptions")
    ∷ optional "allowPrivilegeEscalation" boolean
    ∷ optional "allowedCapabilities" (list text)
    ∷ optional "allowedFlexVolumes" (list (ref "extensions.v1beta1" "AllowedFlexVolume"))
    ∷ optional "allowedHostPaths" (list (ref "extensions.v1beta1" "AllowedHostPath"))
    ∷ optional "defaultAddCapabilities" (list text)
    ∷ optional "defaultAllowPrivilegeEscalation" boolean
    ∷ optional "hostIPC" boolean
    ∷ optional "hostNetwork" boolean
    ∷ optional "hostPID" boolean
    ∷ optional "hostPorts" (list (ref "extensions.v1beta1" "HostPortRange"))
    ∷ optional "privileged" boolean
    ∷ optional "readOnlyRootFilesystem" boolean
    ∷ optional "requiredDropCapabilities" (list text)
    ∷ optional "volumes" (list text)
    ∷ [])

abbrev pub replica_set : Interface
replica_set = guarded "ReplicaSet" "extensions/v1beta1" "ReplicaSet" (
    optional "apiVersion" text
    ∷ optional "kind" text
    ∷ optional "metadata" (ref "meta.v1" "ObjectMeta")
    ∷ optional "spec" (ref "extensions.v1beta1" "ReplicaSetSpec")
    ∷ optional "status" (ref "extensions.v1beta1" "ReplicaSetStatus")
    ∷ [])

abbrev pub replica_set_condition : Interface
replica_set_condition = interface "ReplicaSetCondition" (
    required "status" text
    ∷ required "type" text
    ∷ optional "lastTransitionTime" text
    ∷ optional "message" text
    ∷ optional "reason" text
    ∷ [])

abbrev pub replica_set_list : Interface
replica_set_list = guarded "ReplicaSetList" "extensions/v1beta1" "ReplicaSetList" (
    required "items" (list (ref "extensions.v1beta1" "ReplicaSet"))
    ∷ optional "apiVersion" text
    ∷ optional "kind" text
    ∷ optional "metadata" (ref "meta.v1" "ListMeta")
    ∷ [])

abbrev pub replica_set_spec : Interface
replica_set_spec = interface "ReplicaSetSpec" (
    optional "minReadySeconds" number
    ∷ optional "replicas" number
    ∷ optional "selector" (ref "meta.v1" "LabelSelector")
    ∷ optional "template" (ref "core.v1" "PodTemplateSpec")
    ∷ [])

abbrev pub replica_set_status : Interface
replica_set_status = interface "ReplicaSetStatus" (
    required "replicas" number
    ∷ optional "availableReplicas" number
    ∷ optional "conditions" (list (ref "extensions.v1beta1" "ReplicaSetCondition"))
    ∷ optional "fullyLabeledReplicas" number
    ∷ optional "observedGeneration" number
    ∷ optional "readyReplicas" number
    ∷ [])

abbrev pub rollback_config : Interface
rollback_config = interface "RollbackConfig" (optional "revision" number ∷ [])

abbrev pub rolling_update_daemon_set : Interface
rolling_update_daemon_set =
    interface "RollingUpdateDaemonSet" (optional "maxUnavailable" number_or_text ∷ [])

abbrev pub rolling_update_deployment : Interface
rolling_update_deployment =
    interface "RollingUpdateDeployment"
      (optional "maxSurge" number_or_text ∷ optional "maxUnavailable" number_or_text ∷ [])

abbrev pub run_as_user_strategy_options : Interface
run_as_user_strategy_options =
    interface "RunAsUserStrategyOptions"
      (required "rule" text ∷ optional "ranges" (list (ref "extensions.v1beta1" "IDRange")) ∷ [])

abbrev pub se_linux_strategy_options : Interface
se_linux_strategy_options =
    interface "SELinuxStrategyOptions"
      (required "rule" text ∷ optional "seLinuxOptions" (ref "core.v1" "SELinuxOptions") ∷ [])

abbrev pub scale : Interface
scale = guarded "Scale" "extensions/v1beta1" "Scale" (
    optional "apiVersion" text
    ∷ optional "kind" text
    ∷ optional "metadata" (ref "meta.v1" "ObjectMeta")
    ∷ optional "spec" (ref "extensions.v1beta1" "ScaleSpec")
    ∷ optional "status" (ref "extensions.v1beta1" "ScaleStatus")
    ∷ [])

abbrev pub scale_spec : Interface
scale_spec = interface "ScaleSpec" (optional "replicas" number ∷ [])

abbrev pub scale_status : Interface
scale_status = interface "ScaleStatus" (
    required "replicas" number
    ∷ optional "selector" (dict (input text))
    ∷ optional "targetSelector" text
    ∷ [])

abbrev pub supplemental_groups_strategy_options : Interface
supplemental_groups_strategy_options =
    interface "SupplementalGroupsStrategyOptions"
      (optional "ranges" (list (ref "extensions.v1beta1" "IDRange")) ∷ optional "rule" text ∷ [])

abbrev pub interfaces : List Interface
interfaces =
    pod_security_policy_list ∷ pod_security_policy_spec ∷ replica_set ∷ replica_set_condition
    ∷ replica_set_list ∷ replica_set_spec ∷ replica_set_status ∷ rollback_config
    ∷ rolling_update_daemon_set ∷ rolling_update_deployment ∷ run_as_user_strategy_options
    ∷ se_linux_strategy_options ∷ scale ∷ scale_spec ∷ scale_status
    ∷ supplemental_groups_strategy_options ∷ []
