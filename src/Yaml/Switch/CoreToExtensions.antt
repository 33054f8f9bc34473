-- ===== src/Yaml/Switch/CoreToExtensions.antt =====
-- The cases of the `switch` in `parseYamlObject` (pack/nodejs/provider.ts), a list for each namespace.
use pulumi_kubernetes.Common.{List, [], ◌∷◌}
use pulumi_kubernetes.Resources
use pulumi_kubernetes.Yaml.Case.{Case}

abbrev pub core_v1_cases : List Case
core_v1_cases =
    record { label = "v1/Binding"; prefix = "v1/Binding::"; made = Resources.Core.V1.AToE.binding }
    ∷ record {
      label = "v1/ComponentStatus";
      prefix = "v1/ComponentStatus::";
      made = Resources.Core.V1.AToE.component_status;
    }
    ∷ record {
      label = "v1/ComponentStatusList";
      prefix = "v1/ComponentStatusList::";
      made = Resources.Core.V1.AToE.component_status_list;
    }
    ∷ record {
      label = "v1/ConfigMap";
      prefix = "v1/ConfigMap::";
      made = Resources.Core.V1.AToE.config_map;
    }
    ∷ record {
      label = "v1/ConfigMapList";
      prefix = "v1/ConfigMapList::";
      made = Resources.Core.V1.AToE.config_map_list;
    }
    ∷ record {
      label = "v1/Endpoints";
      prefix = "v1/Endpoints::";
      made = Resources.Core.V1.AToE.endpoints;
    }
    ∷ record {
      label = "v1/EndpointsList";
      prefix = "v1/EndpointsList::";
      made = Resources.Core.V1.AToE.endpoints_list;
    }
    ∷ record { label = "v1/Event"; prefix = "v1/Event::"; made = Resources.Core.V1.AToE.event }
    ∷ record {
      label = "v1/EventList";
      prefix = "v1/EventList::";
      made = Resources.Core.V1.AToE.event_list;
    }
    ∷ record {
      label = "v1/LimitRange";
      prefix = "v1/LimitRange::";
      made = Resources.Core.V1.FToO.limit_range;
    }
    ∷ record {
      label = "v1/LimitRangeList";
      prefix = "v1/LimitRangeList::";
      made = Resources.Core.V1.FToO.limit_range_list;
    }
    ∷ record {
      label = "v1/Namespace";
      prefix = "v1/Namespace::";
      made = Resources.Core.V1.FToO.namespace;
    }
    ∷ record {
      label = "v1/NamespaceList";
      prefix = "v1/NamespaceList::";
      made = Resources.Core.V1.FToO.namespace_list;
    }
    ∷ record { label = "v1/Node"; prefix = "v1/Node::"; made = Resources.Core.V1.FToO.node }
    ∷ record {
      label = "v1/NodeConfigSource";
      prefix = "v1/NodeConfigSource::";
      made = Resources.Core.V1.FToO.node_config_source;
    }
    ∷ record {
      label = "v1/NodeList";
      prefix = "v1/NodeList::";
      made = Resources.Core.V1.FToO.node_list;
    }
    ∷ record {
      label = "core/v1/ObjectReference";
      prefix = "core/v1/ObjectReference::";
      made = Resources.Core.V1.FToO.object_reference;
    }
    ∷ record {
      label = "v1/PersistentVolume";
      prefix = "v1/PersistentVolume::";
      made = Resources.Core.V1.PToR.persistent_volume;
    }
    ∷ record {
      label = "v1/PersistentVolumeClaim";
      prefix = "v1/PersistentVolumeClaim::";
      made = Resources.Core.V1.PToR.persistent_volume_claim;
    }
    ∷ record {
      label = "v1/PersistentVolumeClaimList";
      prefix = "v1/PersistentVolumeClaimList::";
      made = Resources.Core.V1.PToR.persistent_volume_claim_list;
    }
    ∷ record {
      label = "v1/PersistentVolumeList";
      prefix = "v1/PersistentVolumeList::";
      made = Resources.Core.V1.PToR.persistent_volume_list;
    }
    ∷ record { label = "v1/Pod"; prefix = "v1/Pod::"; made = Resources.Core.V1.PToR.pod }
    ∷ record {
      label = "v1/PodList";
      prefix = "v1/PodList::";
      made = Resources.Core.V1.PToR.pod_list;
    }
    ∷ record {
      label = "v1/PodTemplate";
      prefix = "v1/PodTemplate::";
      made = Resources.Core.V1.PToR.pod_template;
    }
    ∷ record {
      label = "v1/PodTemplateList";
      prefix = "v1/PodTemplateList::";
      made = Resources.Core.V1.PToR.pod_template_list;
    }
    ∷ record {
      label = "v1/ReplicationController";
      prefix = "v1/ReplicationController::";
      made = Resources.Core.V1.PToR.replication_controller;
    }
    ∷ record {
      label = "v1/ReplicationControllerList";
      prefix = "v1/ReplicationControllerList::";
      made = Resources.Core.V1.PToR.replication_controller_list;
    }
    ∷ record {
      label = "v1/ResourceQuota";
      prefix = "v1/ResourceQuota::";
      made = Resources.Core.V1.PToR.resource_quota;
    }
    ∷ record {
      label = "v1/ResourceQuotaList";
      prefix = "v1/ResourceQuotaList::";
      made = Resources.Core.V1.PToR.resource_quota_list;
    }
    ∷ record { label = "v1/Secret"; prefix = "v1/Secret::"; made = Resources.Core.V1.SToZ.secret }
    ∷ record {
      label = "v1/SecretList";
      prefix = "v1/SecretList::";
      made = Resources.Core.V1.SToZ.secret_list;
    }
    ∷ record {
      label = "v1/Service";
      prefix = "v1/Service::";
      made = Resources.Core.V1.SToZ.service;
    }
    ∷ record {
      label = "v1/ServiceAccount";
      prefix = "v1/ServiceAccount::";
      made = Resources.Core.V1.SToZ.service_account;
    }
    ∷ record {
      label = "v1/ServiceAccountList";
      prefix = "v1/ServiceAccountList::";
      made = Resources.Core.V1.SToZ.service_account_list;
    }
    ∷ record {
      label = "v1/ServiceList";
      prefix = "v1/ServiceList::";
      made = Resources.Core.V1.SToZ.service_list;
    }
    ∷ []

abbrev pub events_v1beta1_cases : List Case
events_v1beta1_cases =
    record {
      label = "events.k8s.io/v1beta1/Event";
      prefix = "events.k8s.io/v1beta1/Event::";
      made = Resources.Events.V1beta1.event;
    }
    ∷ record {
      label = "events.k8s.io/v1beta1/EventList";
      prefix = "events.k8s.io/v1beta1/EventList::";
      made = Resources.Events.V1beta1.event_list;
    }
    ∷ []

abbrev pub extensions_v1beta1_cases : List Case
extensions_v1beta1_cases =
    record {
      label = "extensions/v1beta1/DaemonSet";
      prefix = "extensions/v1beta1/DaemonSet::";
      made = Resources.Extensions.V1beta1.daemon_set;
    }
    ∷ record {
      label = "extensions/v1beta1/DaemonSetList";
      prefix = "extensions/v1beta1/DaemonSetList::";
      made = Resources.Extensions.V1beta1.daemon_set_list;
    }
    ∷ record {
      label = "extensions/v1beta1/Deployment";
      prefix = "extensions/v1beta1/Deployment::";
      made = Resources.Extensions.V1beta1.deployment;
    }
    ∷ record {
      label = "extensions/v1beta1/DeploymentList";
      prefix = "extensions/v1beta1/DeploymentList::";
      made = Resources.Extensions.V1beta1.deployment_list;
    }
    ∷ record {
      label = "extensions/v1beta1/DeploymentRollback";
      prefix = "extensions/v1beta1/DeploymentRollback::";
      made = Resources.Extensions.V1beta1.deployment_rollback;
    }
    ∷ record {
      label = "extensions/v1beta1/Ingress";
      prefix = "extensions/v1beta1/Ingress::";
      made = Resources.Extensions.V1beta1.ingress;
    }
    ∷ record {
      label = "extensions/v1beta1/IngressList";
      prefix = "extensions/v1beta1/IngressList::";
      made = Resources.Extensions.V1beta1.ingress_list;
    }
    ∷ record {
      label = "extensions/v1beta1/NetworkPolicy";
      prefix = "extensions/v1beta1/NetworkPolicy::";
      made = Resources.Extensions.V1beta1.network_policy;
    }
    ∷ record {
      label = "extensions/v1beta1/NetworkPolicyList";
      prefix = "extensions/v1beta1/NetworkPolicyList::";
      made = Resources.Extensions.V1beta1.network_policy_list;
    }
    ∷ record {
      label = "extensions/v1beta1/PodSecurityPolicy";
      prefix = "extensions/v1beta1/PodSecurityPolicy::";
      made = Resources.Extensions.V1beta1.pod_security_policy;
    }
    ∷ record {
      label = "extensions/v1beta1/PodSecurityPolicyList";
      prefix = "extensions/v1beta1/PodSecurityPolicyList::";
      made = Resources.Extensions.V1beta1.pod_security_policy_list;
    }
    ∷ record {
      label = "extensions/v1beta1/ReplicaSet";
      prefix = "extensions/v1beta1/ReplicaSet::";
      made = Resources.Extensions.V1beta1.replica_set;
    }
    ∷ record {
      label = "extensions/v1beta1/ReplicaSetList";
      prefix = "extensions/v1beta1/ReplicaSetList::";
      made = Resources.Extensions.V1beta1.replica_set_list;
    }
    ∷ record {
      label = "extensions/v1beta1/Scale";
      prefix = "extensions/v1beta1/Scale::";
      made = Resources.Extensions.V1beta1.scale;
    }
    ∷ []
