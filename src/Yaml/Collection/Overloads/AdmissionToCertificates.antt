-- ===== src/Yaml/Collection/Overloads/AdmissionToCertificates.antt =====
-- The overloads of `getResource` (pack/nodejs/provider.ts), a list for each namespace: the text that
-- an overload takes, and the class that it returns, by namespace and name. Each stands in the source
-- twice, with a name and with a namespace and a name.
use pulumi_kubernetes.Common.{String, [], ◌∷◌}
use pulumi_kubernetes.Common.Dict.{Dict}

abbrev pub admissionregistration_v1alpha1_overloads : Dict (String × String)
admissionregistration_v1alpha1_overloads =
    (
      "admissionregistration.k8s.io/v1alpha1/InitializerConfiguration",
      ("admissionregistration.v1alpha1", "InitializerConfiguration"),
    )
    ∷ (
      "admissionregistration.k8s.io/v1alpha1/InitializerConfigurationList",
      ("admissionregistration.v1alpha1", "InitializerConfigurationList"),
    )
    ∷ []

abbrev pub admissionregistration_v1beta1_overloads : Dict (String × String)
admissionregistration_v1beta1_overloads =
    (
      "admissionregistration.k8s.io/v1beta1/MutatingWebhookConfiguration",
      ("admissionregistration.v1beta1", "MutatingWebhookConfiguration"),
    )
    ∷ (
      "admissionregistration.k8s.io/v1beta1/MutatingWebhookConfigurationList",
      ("admissionregistration.v1beta1", "MutatingWebhookConfigurationList"),
    )
    ∷ (
      "admissionregistration.k8s.io/v1beta1/ValidatingWebhookConfiguration",
      ("admissionregistration.v1beta1", "ValidatingWebhookConfiguration"),
    )
    ∷ (
      "admissionregistration.k8s.io/v1beta1/ValidatingWebhookConfigurationList",
      ("admissionregistration.v1beta1", "ValidatingWebhookConfigurationList"),
    )
    ∷ []

abbrev pub apiextensions_v1beta1_overloads : Dict (String × String)
apiextensions_v1beta1_overloads =
    (
      "apiextensions.k8s.io/v1beta1/CustomResourceDefinition",
      ("apiextensions.v1beta1", "CustomResourceDefinition"),
    )
    ∷ (
      "apiextensions.k8s.io/v1beta1/CustomResourceDefinitionList",
      ("apiextensions.v1beta1", "CustomResourceDefinitionList"),
    )
    ∷ []

abbrev pub apiregistration_v1beta1_overloads : Dict (String × String)
apiregistration_v1beta1_overloads =
    ("apiregistration/v1beta1/APIService", ("apiregistration.v1beta1", "APIService"))
    ∷ ("apiregistration/v1beta1/APIServiceList", ("apiregistration.v1beta1", "APIServiceList"))
    ∷ []

abbrev pub apps_v1_overloads : Dict (String × String)
apps_v1_overloads =
    ("apps/v1/ControllerRevision", ("apps.v1", "ControllerRevision"))
    ∷ ("apps/v1/ControllerRevisionList", ("apps.v1", "ControllerRevisionList"))
    ∷ ("apps/v1/DaemonSet", ("apps.v1", "DaemonSet"))
    ∷ ("apps/v1/DaemonSetList", ("apps.v1", "DaemonSetList"))
    ∷ ("apps/v1/Deployment", ("apps.v1", "Deployment"))
    ∷ ("apps/v1/DeploymentList", ("apps.v1", "DeploymentList"))
    ∷ ("apps/v1/ReplicaSet", ("apps.v1", "ReplicaSet"))
    ∷ ("apps/v1/ReplicaSetList", ("apps.v1", "ReplicaSetList"))
    ∷ ("apps/v1/StatefulSet", ("apps.v1", "StatefulSet"))
    ∷ ("apps/v1/StatefulSetList", ("apps.v1", "StatefulSetList"))
    ∷ []

abbrev pub apps_v1beta1_overloads : Dict (String × String)
apps_v1beta1_overloads =
    ("apps/v1beta1/ControllerRevision", ("apps.v1beta1", "ControllerRevision"))
    ∷ ("apps/v1beta1/ControllerRevisionList", ("apps.v1beta1", "ControllerRevisionList"))
    ∷ ("apps/v1beta1/Deployment", ("apps.v1beta1", "Deployment"))
    ∷ ("apps/v1beta1/DeploymentList", ("apps.v1beta1", "DeploymentList"))
    ∷ ("apps/v1beta1/DeploymentRollback", ("apps.v1beta1", "DeploymentRollback"))
    ∷ ("apps/v1beta1/Scale", ("apps.v1beta1", "Scale"))
    ∷ ("apps/v1beta1/StatefulSet", ("apps.v1beta1", "StatefulSet"))
    ∷ ("apps/v1beta1/StatefulSetList", ("apps.v1beta1", "StatefulSetList"))
    ∷ []

abbrev pub apps_v1beta2_overloads : Dict (String × String)
apps_v1beta2_overloads =
    ("apps/v1beta2/ControllerRevision", ("apps.v1beta2", "ControllerRevision"))
    ∷ ("apps/v1beta2/ControllerRevisionList", ("apps.v1beta2", "ControllerRevisionList"))
    ∷ ("apps/v1beta2/DaemonSet", ("apps.v1beta2", "DaemonSet"))
    ∷ ("apps/v1beta2/DaemonSetList", ("apps.v1beta2", "DaemonSetList"))
    ∷ ("apps/v1beta2/Deployment", ("apps.v1beta2", "Deployment"))
    ∷ ("apps/v1beta2/DeploymentList", ("apps.v1beta2", "DeploymentList"))
    ∷ ("apps/v1beta2/ReplicaSet", ("apps.v1beta2", "ReplicaSet"))
    ∷ ("apps/v1beta2/ReplicaSetList", ("apps.v1beta2", "ReplicaSetList"))
    ∷ ("apps/v1beta2/Scale", ("apps.v1beta2", "Scale"))
    ∷ ("apps/v1beta2/StatefulSet", ("apps.v1beta2", "StatefulSet"))
    ∷ ("apps/v1beta2/StatefulSetList", ("apps.v1beta2", "StatefulSetList"))
    ∷ []

abbrev pub authentication_v1_overloads : Dict (String × String)
authentication_v1_overloads =
    ("authentication.k8s.io/v1/TokenReview", ("authentication.v1", "TokenReview")) ∷ []

abbrev pub authentication_v1beta1_overloads : Dict (String × String)
authentication_v1beta1_overloads =
    ("authentication.k8s.io/v1beta1/TokenReview", ("authentication.v1beta1", "TokenReview")) ∷ []

abbrev pub authorization_v1_overloads : Dict (String × String)
authorization_v1_overloads =
    (
      "authorization.k8s.io/v1/LocalSubjectAccessReview",
      ("authorization.v1", "LocalSubjectAccessReview"),
    )
    ∷ (
      "authorization.k8s.io/v1/SelfSubjectAccessReview",
      ("authorization.v1", "SelfSubjectAccessReview"),
    )
    ∷ (
      "authorization.k8s.io/v1/SelfSubjectRulesReview",
      ("authorization.v1", "SelfSubjectRulesReview"),
    )
    ∷ ("authorization.k8s.io/v1/SubjectAccessReview", ("authorization.v1", "SubjectAccessReview"))
    ∷ []

abbrev pub authorization_v1beta1_overloads : Dict (String × String)
authorization_v1beta1_overloads =
    (
      "authorization.k8s.io/v1beta1/LocalSubjectAccessReview",
      ("authorization.v1beta1", "LocalSubjectAccessReview"),
    )
    ∷ (
      "authorization.k8s.io/v1beta1/SelfSubjectAccessReview",
      ("authorization.v1beta1", "SelfSubjectAccessReview"),
    )
    ∷ (
      "authorization.k8s.io/v1beta1/SelfSubjectRulesReview",
      ("authorization.v1beta1", "SelfSubjectRulesReview"),
    )
    ∷ (
      "authorization.k8s.io/v1beta1/SubjectAccessReview",
      ("authorization.v1beta1", "SubjectAccessReview"),
    )
    ∷ []

abbrev pub autoscaling_v1_overloads : Dict (String × String)
autoscaling_v1_overloads =
    (
      "autoscaling/v1/CrossVersionObjectReference",
      ("autoscaling.v1", "CrossVersionObjectReference"),
    )
    ∷ ("autoscaling/v1/HorizontalPodAutoscaler", ("autoscaling.v1", "HorizontalPodAutoscaler"))
    ∷ (
      "autoscaling/v1/HorizontalPodAutoscalerList",
      ("autoscaling.v1", "HorizontalPodAutoscalerList"),
    )
    ∷ ("autoscaling/v1/Scale", ("autoscaling.v1", "Scale"))
    ∷ []

abbrev pub autoscaling_v2beta1_overloads : Dict (String × String)
autoscaling_v2beta1_overloads =
    (
      "autoscaling/v2beta1/CrossVersionObjectReference",
      ("autoscaling.v2beta1", "CrossVersionObjectReference"),
    )
    ∷ (
      "autoscaling/v2beta1/HorizontalPodAutoscaler",
      ("autoscaling.v2beta1", "HorizontalPodAutoscaler"),
    )
    ∷ (
      "autoscaling/v2beta1/HorizontalPodAutoscalerList",
      ("autoscaling.v2beta1", "HorizontalPodAutoscalerList"),
    )
    ∷ []

abbrev pub batch_v1_overloads : Dict (String × String)
batch_v1_overloads =
    ("batch/v1/Job", ("batch.v1", "Job")) ∷ ("batch/v1/JobList", ("batch.v1", "JobList")) ∷ []

abbrev pub batch_v1beta1_overloads : Dict (String × String)
batch_v1beta1_overloads =
    ("batch/v1beta1/CronJob", ("batch.v1beta1", "CronJob"))
    ∷ ("batch/v1beta1/CronJobList", ("batch.v1beta1", "CronJobList"))
    ∷ []

abbrev pub batch_v2alpha1_overloads : Dict (String × String)
batch_v2alpha1_overloads =
    ("batch/v2alpha1/CronJob", ("batch.v2alpha1", "CronJob"))
    ∷ ("batch/v2alpha1/CronJobList", ("batch.v2alpha1", "CronJobList"))
    ∷ []

abbrev pub certificates_v1beta1_overloads : Dict (String × String)
certificates_v1beta1_overloads =
    (
      "certificates.k8s.io/v1beta1/CertificateSigningRequest",
      ("certificates.v1beta1", "CertificateSigningRequest"),
    )
    ∷ (
      "certificates.k8s.io/v1beta1/CertificateSigningRequestList",
      ("certificates.v1beta1", "CertificateSigningRequestList"),
    )
    ∷ []
