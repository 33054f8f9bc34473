-- ===== src/Yaml/Switch/AdmissionToApps.antt =====
-- The cases of the `switch` in `parseYamlObject` (pack/nodejs/provider.ts), a list for each namespace.
use pulumi_kubernetes.Common.{List, [], ◌∷◌}
use pulumi_kubernetes.Resources
use pulumi_kubernetes.Yaml.Case.{Case}

abbrev pub admissionregistration_v1alpha1_cases : List Case
admissionregistration_v1alpha1_cases =
    record {
      label = "admissionregistration.k8s.io/v1alpha1/InitializerConfiguration";
      prefix = "admissionregistration.k8s.io/v1alpha1/InitializerConfiguration::";
      made = Resources.Admissionregistration.V1alpha1.initializer_configuration;
    }
    ∷ record {
      label = "admissionregistration.k8s.io/v1alpha1/InitializerConfigurationList";
      prefix = "admissionregistration.k8s.io/v1alpha1/InitializerConfigurationList::";
      made = Resources.Admissionregistration.V1alpha1.initializer_configuration_list;
    }
    ∷ []

abbrev pub admissionregistration_v1beta1_cases : List Case
admissionregistration_v1beta1_cases =
    record {
      label = "admissionregistration.k8s.io/v1beta1/MutatingWebhookConfiguration";
      prefix = "admissionregistration.k8s.io/v1beta1/MutatingWebhookConfiguration::";
      made = Resources.Admissionregistration.V1beta1.mutating_webhook_configuration;
    }
    ∷ record {
      label = "admissionregistration.k8s.io/v1beta1/MutatingWebhookConfigurationList";
      prefix = "admissionregistration.k8s.io/v1beta1/MutatingWebhookConfigurationList::";
      made = Resources.Admissionregistration.V1beta1.mutating_webhook_configuration_list;
    }
    ∷ record {
      label = "admissionregistration.k8s.io/v1beta1/ValidatingWebhookConfiguration";
      prefix = "admissionregistration.k8s.io/v1beta1/ValidatingWebhookConfiguration::";
      made = Resources.Admissionregistration.V1beta1.validating_webhook_configuration;
    }
    ∷ record {
      label = "admissionregistration.k8s.io/v1beta1/ValidatingWebhookConfigurationList";
      prefix = "admissionregistration.k8s.io/v1beta1/ValidatingWebhookConfigurationList::";
      made = Resources.Admissionregistration.V1beta1.validating_webhook_configuration_list;
    }
    ∷ []

abbrev pub apiextensions_v1beta1_cases : List Case
apiextensions_v1beta1_cases =
    record {
      label = "apiextensions.k8s.io/v1beta1/CustomResourceDefinition";
      prefix = "apiextensions.k8s.io/v1beta1/CustomResourceDefinition::";
      made = Resources.Apiextensions.V1beta1.custom_resource_definition;
    }
    ∷ record {
      label = "apiextensions.k8s.io/v1beta1/CustomResourceDefinitionList";
      prefix = "apiextensions.k8s.io/v1beta1/CustomResourceDefinitionList::";
      made = Resources.Apiextensions.V1beta1.custom_resource_definition_list;
    }
    ∷ []

abbrev pub apiregistration_v1beta1_cases : List Case
apiregistration_v1beta1_cases =
    record {
      label = "apiregistration/v1beta1/APIService";
      prefix = "apiregistration/v1beta1/APIService::";
      made = Resources.Apiregistration.V1beta1.api_service;
    }
    ∷ record {
      label = "apiregistration/v1beta1/APIServiceList";
      prefix = "apiregistration/v1beta1/APIServiceList::";
      made = Resources.Apiregistration.V1beta1.api_service_list;
    }
    ∷ []

abbrev pub apps_v1_cases : List Case
apps_v1_cases =
    record {
      label = "apps/v1/ControllerRevision";
      prefix = "apps/v1/ControllerRevision::";
      made = Resources.Apps.V1.controller_revision;
    }
    ∷ record {
      label = "apps/v1/ControllerRevisionList";
      prefix = "apps/v1/ControllerRevisionList::";
      made = Resources.Apps.V1.controller_revision_list;
    }
    ∷ record {
      label = "apps/v1/DaemonSet";
      prefix = "apps/v1/DaemonSet::";
      made = Resources.Apps.V1.daemon_set;
    }
    ∷ record {
      label = "apps/v1/DaemonSetList";
      prefix = "apps/v1/DaemonSetList::";
      made = Resources.Apps.V1.daemon_set_list;
    }
    ∷ record {
      label = "apps/v1/Deployment";
      prefix = "apps/v1/Deployment::";
      made = Resources.Apps.V1.deployment;
    }
    ∷ record {
      label = "apps/v1/DeploymentList";
      prefix = "apps/v1/DeploymentList::";
      made = Resources.Apps.V1.deployment_list;
    }
    ∷ record {
      label = "apps/v1/ReplicaSet";
      prefix = "apps/v1/ReplicaSet::";
      made = Resources.Apps.V1.replica_set;
    }
    ∷ record {
      label = "apps/v1/ReplicaSetList";
      prefix = "apps/v1/ReplicaSetList::";
      made = Resources.Apps.V1.replica_set_list;
    }
    ∷ record {
      label = "apps/v1/StatefulSet";
      prefix = "apps/v1/StatefulSet::";
      made = Resources.Apps.V1.stateful_set;
    }
    ∷ record {
      label = "apps/v1/StatefulSetList";
      prefix = "apps/v1/StatefulSetList::";
      made = Resources.Apps.V1.stateful_set_list;
    }
    ∷ []

abbrev pub apps_v1beta1_cases : List Case
apps_v1beta1_cases =
    record {
      label = "apps/v1beta1/ControllerRevision";
      prefix = "apps/v1beta1/ControllerRevision::";
      made = Resources.Apps.V1beta1.controller_revision;
    }
    ∷ record {
      label = "apps/v1beta1/ControllerRevisionList";
      prefix = "apps/v1beta1/ControllerRevisionList::";
      made = Resources.Apps.V1beta1.controller_revision_list;
    }
    ∷ record {
      label = "apps/v1beta1/Deployment";
      prefix = "apps/v1beta1/Deployment::";
      made = Resources.Apps.V1beta1.deployment;
    }
    ∷ record {
      label = "apps/v1beta1/DeploymentList";
      prefix = "apps/v1beta1/DeploymentList::";
      made = Resources.Apps.V1beta1.deployment_list;
    }
    ∷ record {
      label = "apps/v1beta1/DeploymentRollback";
      prefix = "apps/v1beta1/DeploymentRollback::";
      made = Resources.Apps.V1beta1.deployment_rollback;
    }
    ∷ record {
      label = "apps/v1beta1/Scale";
      prefix = "apps/v1beta1/Scale::";
      made = Resources.Apps.V1beta1.scale;
    }
    ∷ record {
      label = "apps/v1beta1/StatefulSet";
      prefix = "apps/v1beta1/StatefulSet::";
      made = Resources.Apps.V1beta1.stateful_set;
    }
    ∷ record {
      label = "apps/v1beta1/StatefulSetList";
      prefix = "apps/v1beta1/StatefulSetList::";
      made = Resources.Apps.V1beta1.stateful_set_list;
    }
    ∷ []

abbrev pub apps_v1beta2_cases : List Case
apps_v1beta2_cases =
    record {
      label = "apps/v1beta2/ControllerRevision";
      prefix = "apps/v1beta2/ControllerRevision::";
      made = Resources.Apps.V1beta2.controller_revision;
    }
    ∷ record {
      label = "apps/v1beta2/ControllerRevisionList";
      prefix = "apps/v1beta2/ControllerRevisionList::";
      made = Resources.Apps.V1beta2.controller_revision_list;
    }
    ∷ record {
      label = "apps/v1beta2/DaemonSet";
      prefix = "apps/v1beta2/DaemonSet::";
      made = Resources.Apps.V1beta2.daemon_set;
    }
    ∷ record {
      label = "apps/v1beta2/DaemonSetList";
      prefix = "apps/v1beta2/DaemonSetList::";
      made = Resources.Apps.V1beta2.daemon_set_list;
    }
    ∷ record {
      label = "apps/v1beta2/Deployment";
      prefix = "apps/v1beta2/Deployment::";
      made = Resources.Apps.V1beta2.deployment;
    }
    ∷ record {
      label = "apps/v1beta2/DeploymentList";
      prefix = "apps/v1beta2/DeploymentList::";
      made = Resources.Apps.V1beta2.deployment_list;
    }
    ∷ record {
      label = "apps/v1beta2/ReplicaSet";
      prefix = "apps/v1beta2/ReplicaSet::";
      made = Resources.Apps.V1beta2.replica_set;
    }
    ∷ record {
      label = "apps/v1beta2/ReplicaSetList";
      prefix = "apps/v1beta2/ReplicaSetList::";
      made = Resources.Apps.V1beta2.replica_set_list;
    }
    ∷ record {
      label = "apps/v1beta2/Scale";
      prefix = "apps/v1beta2/Scale::";
      made = Resources.Apps.V1beta2.scale;
    }
    ∷ record {
      label = "apps/v1beta2/StatefulSet";
      prefix = "apps/v1beta2/StatefulSet::";
      made = Resources.Apps.V1beta2.stateful_set;
    }
    ∷ record {
      label = "apps/v1beta2/StatefulSetList";
      prefix = "apps/v1beta2/StatefulSetList::";
      made = Resources.Apps.V1beta2.stateful_set_list;
    }
    ∷ []
