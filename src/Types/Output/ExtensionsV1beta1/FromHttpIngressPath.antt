-- ===== src/Types/Output/ExtensionsV1beta1/FromHttpIngressPath.antt =====
-- The interfaces of `extensions.v1beta1` in pack/nodejs/types/output.ts from HTTPIngressPath to PodSecurityPolicy.
use pulumi_kubernetes.Common.{List, [], ◌∷◌}
use pulumi_kubernetes.Types.Shape.{
  Interface, interface, readonly, text, number, number_or_text, list, ref,
}

abbrev pub http_ingress_path : Interface
http_ingress_path =
    interface "HTTPIngressPath"
      (readonly "backend" (ref "extensions.v1beta1" "IngressBackend") ∷ readonly "path" text ∷ [])

abbrev pub http_ingress_rule_value : Interface
http_ingress_rule_value =
    interface "HTTPIngressRuleValue"
      (readonly "paths" (list (ref "extensions.v1beta1" "HTTPIngressPath")) ∷ [])

abbrev pub host_port_range : Interface
host_port_range = interface "HostPortRange" (readonly "max" number ∷ readonly "min" number ∷ [])

abbrev pub id_range : Interface
id_range = interface "IDRange" (readonly "max" number ∷ readonly "min" number ∷ [])

abbrev pub ip_block : Interface
ip_block = interface "IPBlock" (readonly "cidr" text ∷ readonly "except" (list text) ∷ [])

abbrev pub ingress : Interface
ingress = interface "Ingress" (
    readonly "apiVersion" text
    ∷ readonly "kind" text
    ∷ readonly "metadata" (ref "meta.v1" "ObjectMeta")
    ∷ readonly "spec" (ref "extensions.v1beta1" "IngressSpec")
    ∷ readonly "status" (ref "extensions.v1beta1" "IngressStatus")
    ∷ [])

abbrev pub ingress_backend : Interface
ingress_backend =
    interface "IngressBackend"
      (readonly "serviceName" text ∷ readonly "servicePort" number_or_text ∷ [])

abbrev pub ingress_list : Interface
ingress_list = interface "IngressList" (
    readonly "apiVersion" text
    ∷ readonly "items" (list (ref "extensions.v1beta1" "Ingress"))
    ∷ readonly "kind" text
    ∷ readonly "metadata" (ref "meta.v1" "ListMeta")
    ∷ [])

abbrev pub ingress_rule : Interface
ingress_rule =
    interface "IngressRule" (
      readonly "host" text ∷ readonly "http" (ref "extensions.v1beta1" "HTTPIngressRuleValue") ∷ [])

abbrev pub ingress_spec : Interface
ingress_spec = interface "IngressSpec" (
    readonly "backend" (ref "extensions.v1beta1" "IngressBackend")
    ∷ readonly "rules" (list (ref "extensions.v1beta1" "IngressRule"))
    ∷ readonly "tls" (list (ref "extensions.v1beta1" "IngressTLS"))
    ∷ [])

abbrev pub ingress_status : Interface
ingress_status =
    interface "IngressStatus" (readonly "loadBalancer" (ref "core.v1" "LoadBalancerStatus") ∷ [])

abbrev pub ingress_tls : Interface
ingress_tls =
    interface "IngressTLS" (readonly "hosts" (list text) ∷ readonly "secretName" text ∷ [])

abbrev pub network_policy : Interface
network_policy = interface "NetworkPolicy" (
    readonly "apiVersion" text
    ∷ readonly "kind" text
    ∷ readonly "metadata" (ref "meta.v1" "ObjectMeta")
    ∷ readonly "spec" (ref "extensions.v1beta1" "NetworkPolicySpec")
    ∷ [])

abbrev pub network_policy_egress_rule : Interface
network_policy_egress_rule = interface "NetworkPolicyEgressRule" (
    readonly "ports" (list (ref "extensions.v1beta1" "NetworkPolicyPort"))
    ∷ readonly "to" (list (ref "extensions.v1beta1" "NetworkPolicyPeer"))
    ∷ [])

abbrev pub network_policy_ingress_rule : Interface
network_policy_ingress_rule = interface "NetworkPolicyIngressRule" (
    readonly "from" (list (ref "extensions.v1beta1" "NetworkPolicyPeer"))
    ∷ readonly "ports" (list (ref "extensions.v1beta1" "NetworkPolicyPort"))
    ∷ [])

abbrev pub network_policy_list : Interface
network_policy_list = interface "NetworkPolicyList" (
    readonly "apiVersion" text
    ∷ readonly "items" (list (ref "extensions.v1beta1" "NetworkPolicy"))
    ∷ readonly "kind" text
    ∷ readonly "metadata" (ref "meta.v1" "ListMeta")
    ∷ [])

abbrev pub network_policy_peer : Interface
network_policy_peer = interface "NetworkPolicyPeer" (
    readonly "ipBlock" (ref "extensions.v1beta1" "IPBlock")
    ∷ readonly "namespaceSelector" (ref "meta.v1" "LabelSelector")
    ∷ readonly "podSelector" (ref "meta.v1" "LabelSelector")
    ∷ [])

abbrev pub network_policy_port : Interface
network_policy_port =
    interface "NetworkPolicyPort" (readonly "port" number_or_text ∷ readonly "protocol" text ∷ [])

abbrev pub network_policy_spec : Interface
network_policy_spec = interface "NetworkPolicySpec" (
    readonly "egress" (list (ref "extensions.v1beta1" "NetworkPolicyEgressRule"))
    ∷ readonly "ingress" (list (ref "extensions.v1beta1" "NetworkPolicyIngressRule"))
    ∷ readonly "podSelector" (ref "meta.v1" "LabelSelector")
    ∷ readonly "policyTypes" (list text)
    ∷ [])

abbrev pub pod_security_policy : Interface
pod_security_policy = interface "PodSecurityPolicy" (
    readonly "apiVersion" text
    ∷ readonly "kind" text
    ∷ readonly "metadata" (ref "meta.v1" "ObjectMeta")
    ∷ readonly "spec" (ref "extensions.v1beta1" "PodSecurityPolicySpec")
    ∷ [])

abbrev pub interfaces : List Interface
interfaces =
    http_ingress_path ∷ http_ingress_rule_value ∷ host_port_range ∷ id_range ∷ ip_block ∷ ingress
    ∷ ingress_backend ∷ ingress_list ∷ ingress_rule ∷ ingress_spec ∷ ingress_status ∷ ingress_tls
    ∷ network_policy ∷ network_policy_egress_rule ∷ network_policy_ingress_rule
    ∷ network_policy_list ∷ network_policy_peer ∷ network_policy_port ∷ network_policy_spec
    ∷ pod_security_policy ∷ []
