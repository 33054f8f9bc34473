-- ===== src/Yaml/Switch/AuthenticationToCertificates.antt =====
-- The cases of the `switch` in `parseYamlObject` (pack/nodejs/provider.ts), a list for each namespace.
use pulumi_kubernetes.Common.{List, [], ◌∷◌}
use pulumi_kubernetes.Resources
use pulumi_kubernetes.Yaml.Case.{Case}

abbrev pub authentication_v1_cases : List Case
authentication_v1_cases =
    record {
      label = "authentication.k8s.io/v1/TokenReview";
      prefix = "authentication.k8s.io/v1/TokenReview::";
      made = Resources.Authentication.V1.token_review;
    }
    ∷ []

abbrev pub authentication_v1beta1_cases : List Case
authentication_v1beta1_cases =
    record {
      label = "authentication.k8s.io/v1beta1/TokenReview";
      prefix = "authentication.k8s.io/v1beta1/TokenReview::";
      made = Resources.Authentication.V1beta1.token_review;
    }
    ∷ []

abbrev pub authorization_v1_cases : List Case
authorization_v1_cases =
    record {
      label = "authorization.k8s.io/v1/LocalSubjectAccessReview";
      prefix = "authorization.k8s.io/v1/LocalSubjectAccessReview::";
      made = Resources.Authorization.V1.local_subject_access_review;
    }
    ∷ record {
      label = "authorization.k8s.io/v1/SelfSubjectAccessReview";
      prefix = "authorization.k8s.io/v1/SelfSubjectAccessReview::";
      made = Resources.Authorization.V1.self_subject_access_review;
    }
    ∷ record {
      label = "authorization.k8s.io/v1/SelfSubjectRulesReview";
      prefix = "authorization.k8s.io/v1/SelfSubjectRulesReview::";
      made = Resources.Authorization.V1.self_subject_rules_review;
    }
    ∷ record {
      label = "authorization.k8s.io/v1/SubjectAccessReview";
      prefix = "authorization.k8s.io/v1/SubjectAccessReview::";
      made = Resources.Authorization.V1.subject_access_review;
    }
    ∷ []

abbrev pub authorization_v1beta1_cases : List Case
authorization_v1beta1_cases =
    record {
      label = "authorization.k8s.io/v1beta1/LocalSubjectAccessReview";
      prefix = "authorization.k8s.io/v1beta1/LocalSubjectAccessReview::";
      made = Resources.Authorization.V1beta1.local_subject_access_review;
    }
    ∷ record {
      label = "authorization.k8s.io/v1beta1/SelfSubjectAccessReview";
      prefix = "authorization.k8s.io/v1beta1/SelfSubjectAccessReview::";
      made = Resources.Authorization.V1beta1.self_subject_access_review;
    }
    ∷ record {
      label = "authorization.k8s.io/v1beta1/SelfSubjectRulesReview";
      prefix = "authorization.k8s.io/v1beta1/SelfSubjectRulesReview::";
      made = Resources.Authorization.V1beta1.self_subject_rules_review;
    }
    ∷ record {
      label = "authorization.k8s.io/v1beta1/SubjectAccessReview";
      prefix = "authorization.k8s.io/v1beta1/SubjectAccessReview::";
      made = Resources.Authorization.V1beta1.subject_access_review;
    }
    ∷ []

abbrev pub autoscaling_v1_cases : List Case
autoscaling_v1_cases =
    record {
      label = "autoscaling/v1/CrossVersionObjectReference";
      prefix = "autoscaling/v1/CrossVersionObjectReference::";
      made = Resources.Autoscaling.V1.cross_version_object_reference;
    }
    ∷ record {
      label = "autoscaling/v1/HorizontalPodAutoscaler";
      prefix = "autoscaling/v1/HorizontalPodAutoscaler::";
      made = Resources.Autoscaling.V1.horizontal_pod_autoscaler;
    }
    ∷ record {
      label = "autoscaling/v1/HorizontalPodAutoscalerList";
      prefix = "autoscaling/v1/HorizontalPodAutoscalerList::";
      made = Resources.Autoscaling.V1.horizontal_pod_autoscaler_list;
    }
    ∷ record {
      label = "autoscaling/v1/Scale";
      prefix = "autoscaling/v1/Scale::";
      made = Resources.Autoscaling.V1.scale;
    }
    ∷ []

abbrev pub autoscaling_v2beta1_cases : List Case
autoscaling_v2beta1_cases =
    record {
      label = "autoscaling/v2beta1/CrossVersionObjectReference";
      prefix = "autoscaling/v2beta1/CrossVersionObjectReference::";
      made = Resources.Autoscaling.V2beta1.cross_version_object_reference;
    }
    ∷ record {
      label = "autoscaling/v2beta1/HorizontalPodAutoscaler";
      prefix = "autoscaling/v2beta1/HorizontalPodAutoscaler::";
      made = Resources.Autoscaling.V2beta1.horizontal_pod_autoscaler;
    }
    ∷ record {
      label = "autoscaling/v2beta1/HorizontalPodAutoscalerList";
      prefix = "autoscaling/v2beta1/HorizontalPodAutoscalerList::";
      made = Resources.Autoscaling.V2beta1.horizontal_pod_autoscaler_list;
    }
    ∷ []

abbrev pub batch_v1_cases : List Case
batch_v1_cases =
    record { label = "batch/v1/Job"; prefix = "batch/v1/Job::"; made = Resources.Batch.V1.job }
    ∷ record {
      label = "batch/v1/JobList";
      prefix = "batch/v1/JobList::";
      made = Resources.Batch.V1.job_list;
    }
    ∷ []

abbrev pub batch_v1beta1_cases : List Case
batch_v1beta1_cases =
    record {
      label = "batch/v1beta1/CronJob";
      prefix = "batch/v1beta1/CronJob::";
      made = Resources.Batch.V1beta1.cron_job;
    }
    ∷ record {
      label = "batch/v1beta1/CronJobList";
      prefix = "batch/v1beta1/CronJobList::";
      made = Resources.Batch.V1beta1.cron_job_list;
    }
    ∷ []

abbrev pub batch_v2alpha1_cases : List Case
batch_v2alpha1_cases =
    record {
      label = "batch/v2alpha1/CronJob";
      prefix = "batch/v2alpha1/CronJob::";
      made = Resources.Batch.V2alpha1.cron_job;
    }
    ∷ record {
      label = "batch/v2alpha1/CronJobList";
      prefix = "batch/v2alpha1/CronJobList::";
      made = Resources.Batch.V2alpha1.cron_job_list;
    }
    ∷ []

abbrev pub certificates_v1beta1_cases : List Case
certificates_v1beta1_cases =
    record {
      label = "certificates.k8s.io/v1beta1/CertificateSigningRequest";
      prefix = "certificates.k8s.io/v1beta1/CertificateSigningRequest::";
      made = Resources.Certificates.V1beta1.certificate_signing_request;
    }
    ∷ record {
      label = "certificates.k8s.io/v1beta1/CertificateSigningRequestList";
      prefix = "certificates.k8s.io/v1beta1/CertificateSigningRequestList::";
      made = Resources.Certificates.V1beta1.certificate_signing_request_list;
    }
    ∷ []
