-- ===== src/Types/Input/NetworkingV1.antt =====
-- The interfaces of the namespace `networking.v1` of pack/nodejs/types/input.ts.
use pulumi_kubernetes.Common.{List, [], ◌∷◌}
use pulumi_kubernetes.Types.Shape.{
  Interface, guarded, interface, required, optional, text, number_or_text, list, ref,
}

abbrev pub ip_block : Interface
ip_block = interface "IPBlock" (required "cidr" text ∷ optional "except" (list text) ∷ [])

abbrev pub network_policy : Interface
network_policy = guarded "NetworkPolicy" "networking.k8s.io/v1" "NetworkPolicy" (
    optional "apiVersion" text
    ∷ optional "kind" text
    ∷ optional "metadata" (ref "meta.v1" "ObjectMeta")
    ∷ optional "spec" (ref "networking.v1" "NetworkPolicySpec")
    ∷ [])

abbrev pub network_policy_egress_rule : Interface
network_policy_egress_rule = interface "NetworkPolicyEgressRule" (
    optional "ports" (list (ref "networking.v1" "NetworkPolicyPort"))
    ∷ optional "to" (list (ref "networking.v1" "NetworkPolicyPeer"))
    ∷ [])

abbrev pub network_policy_ingress_rule : Interface
network_policy_ingress_rule = interface "NetworkPolicyIngressRule" (
    optional "from" (list (ref "networking.v1" "NetworkPolicyPeer"))
    ∷ optional "ports" (list (ref "networking.v1" "NetworkPolicyPort"))
    ∷ [])

abbrev pub network_policy_list : Interface
network_policy_list = guarded "NetworkPolicyList" "networking.k8s.io/v1" "NetworkPolicyList" (
    required "items" (list (ref "networking.v1" "NetworkPolicy"))
    ∷ optional "apiVersion" text
    ∷ optional "kind" text
    ∷ optional "metadata" (ref "meta.v1" "ListMeta")
    ∷ [])

abbrev pub network_policy_peer : Interface
network_policy_peer = interface "NetworkPolicyPeer" (
    optional "ipBlock" (ref "networking.v1" "IPBlock")
    ∷ optional "namespaceSelector" (ref "meta.v1" "LabelSelector")
    ∷ optional "podSelector" (ref "meta.v1" "LabelSelector")
    ∷ [])

abbrev pub network_policy_port : Interface
network_policy_port =
    interface "NetworkPolicyPort" (optional "port" number_or_text ∷ optional "protocol" text ∷ [])

abbrev pub network_policy_spec : Interface
network_policy_spec = interface "NetworkPolicySpec" (
    required "podSelector" (ref "meta.v1" "LabelSelector")
    ∷ optional "egress" (list (ref "networking.v1" "NetworkPolicyEgressRule"))
    ∷ optional "ingress" (list (ref "networking.v1" "NetworkPolicyIngressRule"))
    ∷ optional "policyTypes" (list text)
    ∷ [])

abbrev pub interfaces : List Interface
interfaces =
    ip_block ∷ network_policy ∷ network_policy_egress_rule ∷ network_policy_ingress_rule
    ∷ network_policy_list ∷ network_policy_peer ∷ network_policy_port ∷ network_policy_spec ∷ []
