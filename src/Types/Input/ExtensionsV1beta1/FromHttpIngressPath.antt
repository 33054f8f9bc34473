-- ===== src/Types/Input/ExtensionsV1beta1/FromHttpIngressPath.antt =====
-- The interfaces of `extensions.v1beta1` in pack/nodejs/types/input.ts from HTTPIngressPath to PodSecurityPolicy.
use pulumi_kubernetes.Common.{List, [], ◌∷◌}
use pulumi_kubernetes.Types.Shape.{
  Interface, guarded, interface, required, optional, text, number, number_or_text, list, ref,
}

abbrev pub http_ingress_path : Interface
http_ingress_path =
    interface "HTTPIngressPath"
      (required "backend" (ref "extensions.v1beta1" "IngressBackend") ∷ optional "path" text ∷ [])

abbrev pub http_ingress_rule_value : Interface
http_ingress_rule_value =
    interface "HTTPIngressRuleValue"
      (required "paths" (list (ref "extensions.v1beta1" "HTTPIngressPath")) ∷ [])

abbrev pub host_port_range : Interface
host_port_range = interface "HostPortRange" (required "max" number ∷ required "min" number ∷ [])

abbrev pub id_range : Interface
id_range = interface "IDRange" (required "max" number ∷ required "min" number ∷ [])

abbrev pub ip_block : Interface
ip_block = interface "IPBlock" (required "cidr" text ∷ optional "except" (list text) ∷ [])

abbrev pub ingress : Interface
ingress = guarded "Ingress" "extensions/v1beta1" "Ingress" (
    optional "apiVersion" text
    ∷ optional "kind" text
    ∷ optional "metadata" (ref "meta.v1" "ObjectMeta")
    ∷ optional "spec" (ref "extensions.v1beta1" "IngressSpec")
    ∷ optional "status" (ref "extensions.v1beta1" "IngressStatus")
    ∷ [])

abbrev pub ingress_backend : Interface
ingress_backend =
    interface "IngressBackend"
      (required "serviceName" text ∷ required "servicePort" number_or_text ∷ [])

abbrev pub ingress_list : Interface
ingress_list = guarded "IngressList" "extensions/v1beta1" "IngressList" (
    required "items" (list (ref "extensions.v1beta1" "Ingress"))
    ∷ optional "apiVersion" text
    ∷ optional "kind" text
    ∷ optional "metadata" (ref "meta.v1" "ListMeta")
    ∷ [])

abbrev pub ingress_rule : Interface
ingress_rule =
    interface "IngressRule" (
      optional "host" text ∷ optional "http" (ref "extensions.v1beta1" "HTTPIngressRuleValue") ∷ [])

abbrev pub ingress_spec : Interface
ingress_spec = interface "IngressSpec" (
    optional "backend" (ref "extensions.v1beta1" "IngressBackend")
    ∷ optional "rules" (list (ref "extensions.v1beta1" "IngressRule"))
    ∷ optional "tls" (list (ref "extensions.v1beta1" "IngressTLS"))
    ∷ [])

abbrev pub ingress_status : Interface
ingress_status =
    interface "IngressStatus" (optional "loadBalancer" (ref "core.v1" "LoadBalancerStatus") ∷ [])

abbrev pub ingress_tls : Interface
ingress_tls =
    interface "IngressTLS" (optional "hosts" (list text) ∷ optional "secretName" text ∷ [])

abbrev pub network_policy : Interface
network_policy = guarded "NetworkPolicy" "extensions/v1beta1" "NetworkPolicy" (
    optional "apiVersion" text
    ∷ optional "kind" text
    ∷ optional "metadata" (ref "meta.v1" "ObjectMeta")
    ∷ optional "spec" (ref "extensions.v1beta1" "NetworkPolicySpec")
    ∷ [])

abbrev pub network_policy_egress_rule : Interface
network_policy_egress_rule = interface "NetworkPolicyEgressRule" (
    optional "ports" (list (ref "extensions.v1beta1" "NetworkPolicyPort"))
    ∷ optional "to" (list (ref "extensions.v1beta1" "NetworkPolicyPeer"))
    ∷ [])

abbrev pub network_policy_ingress_rule : Interface
network_policy_ingress_rule = interface "NetworkPolicyIngressRule" (
    optional "from" (list (ref "extensions.v1beta1" "NetworkPolicyPeer"))
    ∷ optional "ports" (list (ref "extensions.v1beta1" "NetworkPolicyPort"))
    ∷ [])

abbrev pub network_policy_list : Interface
network_policy_list = guarded "NetworkPolicyList" "extensions/v1beta1" "NetworkPolicyList" (
    required "items" (list (ref "extensions.v1beta1" "NetworkPolicy"))
    ∷ optional "apiVersion" text
    ∷ optional "kind" text
    ∷ optional "metadata" (ref "meta.v1" "ListMeta")
    ∷ [])

abbrev pub network_policy_peer : Interface
network_policy_peer = interface "NetworkPolicyPeer" (
    optional "ipBlock" (ref "extensions.v1beta1" "IPBlock")
    ∷ optional "namespaceSelector" (ref "meta.v1" "LabelSelector")
    ∷ optional "podSelector" (ref "meta.v1" "LabelSelector")
    ∷ [])

abbrev pub network_policy_port : Interface
network_policy_port =
    interface "NetworkPolicyPort" (optional "port" number_or_text ∷ optional "protocol" text ∷ [])

abbrev pub network_policy_spec : Interface
network_policy_spec = interface "NetworkPolicySpec" (
    required "podSelector" (ref "meta.v1" "LabelSelector")
    ∷ optional "egress" (list (ref "extensions.v1beta1" "NetworkPolicyEgressRule"))
    ∷ optional "ingress" (list (ref "extensions.v1beta1" "NetworkPolicyIngressRule"))
    ∷ optional "policyTypes" (list text)
    ∷ [])

abbrev pub pod_security_policy : Interface
pod_security_policy = guarded "PodSecurityPolicy" "extensions/v1beta1" "PodSecurityPolicy" (
    optional "apiVersion" text
    ∷ optional "kind" text
    ∷ optional "metadata" (ref "meta.v1" "ObjectMeta")
    ∷ optional "spec" (ref "extensions.v1beta1" "PodSecurityPolicySpec")
    ∷ [])

abbrev pub interfaces : List Interface
interfaces =
    http_ingress_path ∷ http_ingress_rule_value ∷ host_port_range ∷ id_range ∷ ip_block ∷ ingress
    ∷ ingress_backend ∷ ingress_list ∷ ingress_rule ∷ ingress_spec ∷ ingress_status ∷ ingress_tls
    ∷ network_policy ∷ network_policy_egress_rule ∷ network_policy_ingress_rule
    ∷ network_policy_list ∷ network_policy_peer ∷ network_policy_port ∷ network_policy_spec
    ∷ pod_security_policy ∷ []
