-- ===== src/Resources/Certificates/V1beta1.antt =====
-- The classes of the namespace `certificates.v1beta1` of pack/nodejs/provider.ts.
use pulumi_kubernetes.Common.{[], ◌∷◌}
use pulumi_kubernetes.Resources.Class.{ResourceClass, assign, copy}

abbrev pub certificate_signing_request : ResourceClass
certificate_signing_request = record {
  name = ("certificates.v1beta1", "CertificateSigningRequest");
  token = "kubernetes:certificates.k8s.io/v1beta1:CertificateSigningRequest";
  args = ("certificates.v1beta1", "CertificateSigningRequest");
  outputs =
      ("apiVersion", "string")
      ∷ ("kind", "string")
      ∷ ("metadata", "outputApi.meta.v1.ObjectMeta")
      ∷ ("spec", "outputApi.certificates.v1beta1.CertificateSigningRequestSpec")
      ∷ ("status", "outputApi.certificates.v1beta1.CertificateSigningRequestStatus")
      ∷ [];
  inputs =
      assign "apiVersion" "certificates.k8s.io/v1beta1"
      ∷ assign "kind" "CertificateSigningRequest"
      ∷ copy "metadata"
      ∷ copy "spec"
      ∷ copy "status"
      ∷ [];
}

abbrev pub certificate_signing_request_list : ResourceClass
certificate_signing_request_list = record {
  name = ("certificates.v1beta1", "CertificateSigningRequestList");
  token = "kubernetes:certificates.k8s.io/v1beta1:CertificateSigningRequestList";
  args = ("certificates.v1beta1", "CertificateSigningRequestList");
  outputs =
      ("apiVersion", "string")
      ∷ ("items", "outputApi.certificates.v1beta1.CertificateSigningRequest[]")
      ∷ ("kind", "string")
      ∷ ("metadata", "outputApi.meta.v1.ListMeta")
      ∷ [];
  inputs =
      assign "apiVersion" "certificates.k8s.io/v1beta1"
      ∷ copy "items"
      ∷ assign "kind" "CertificateSigningRequestList"
      ∷ copy "metadata"
      ∷ [];
}
