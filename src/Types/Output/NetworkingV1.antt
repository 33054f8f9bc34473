-- ===== src/Types/Output/NetworkingV1.antt =====
-- The interfaces of the namespace `networking.v1` of pack/nodejs/types/output.ts.
use pulumi_kubernetes.Common.{List, [], ◌∷◌}
use pulumi_kubernetes.Types.Shape.{Interface, interface, readonly, text, number_or_text, list, ref}

abbrev pub ip_block : Interface
ip_block = interface "IPBlock" (readonly "cidr" text ∷ readonly "except" (list text) ∷ [])

abbrev pub network_policy : Interface
network_policy = interface "NetworkPolicy" (
    readonly "apiVersion" text
    ∷ readonly "kind" text
    ∷ readonly "metadata" (ref "meta.v1" "ObjectMeta")
    ∷ readonly "spec" (ref "networking.v1" "NetworkPolicySpec")
    ∷ [])

abbrev pub network_policy_egress_rule : Interface
network_policy_egress_rule = interface "NetworkPolicyEgressRule" (
    readonly "ports" (list (ref "networking.v1" "NetworkPolicyPort"))
    ∷ readonly "to" (list (ref "networking.v1" "NetworkPolicyPeer"))
    ∷ [])

abbrev pub network_policy_ingress_rule : Interface
network_policy_ingress_rule = interface "NetworkPolicyIngressRule" (
    readonly "from" (list (ref "networking.v1" "NetworkPolicyPeer"))
    ∷ readonly "ports" (list (ref "networking.v1" "NetworkPolicyPort"))
    ∷ [])

abbrev pub network_policy_list : Interface
network_policy_list = interface "NetworkPolicyList" (
    readonly "apiVersion" text
    ∷ readonly "items" (list (ref "networking.v1" "NetworkPolicy"))
    ∷ readonly "kind" text
    ∷ readonly "metadata" (ref "meta.v1" "ListMeta")
    ∷ [])

abbrev pub network_policy_peer : Interface
network_policy_peer = interface "NetworkPolicyPeer" (
    readonly "ipBlock" (ref "networking.v1" "IPBlock")
    ∷ readonly "namespaceSelector" (ref "meta.v1" "LabelSelector")
    ∷ readonly "podSelector" (ref "meta.v1" "LabelSelector")
    ∷ [])

abbrev pub network_policy_port : Interface
network_policy_port =
    interface "NetworkPolicyPort" (readonly "port" number_or_text ∷ readonly "protocol" text ∷ [])

abbrev pub network_policy_spec : Interface
network_policy_spec = interface "NetworkPolicySpec" (
    readonly "egress" (list (ref "networking.v1" "NetworkPolicyEgressRule"))
    ∷ readonly "ingress" (list (ref "networking.v1" "NetworkPolicyIngressRule"))
    ∷ readonly "podSelector" (ref "meta.v1" "LabelSelector")
    ∷ readonly "policyTypes" (list text)
    ∷ [])

abbrev pub interfaces : List Interface
interfaces =
    ip_block ∷ network_policy ∷ network_policy_egress_rule ∷ network_policy_ingress_rule
    ∷ network_policy_list ∷ network_policy_peer ∷ network_policy_port ∷ network_policy_spec ∷ []
