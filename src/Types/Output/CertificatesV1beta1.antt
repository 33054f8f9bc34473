-- ===== src/Types/Output/CertificatesV1beta1.antt =====
-- The interfaces of the namespace `certificates.v1beta1` of pack/nodejs/types/output.ts.
use pulumi_kubernetes.Common.{List, [], ◌∷◌}
use pulumi_kubernetes.Types.Shape.{Interface, interface, readonly, text, any_object, list, ref}

abbrev pub certificate_signing_request : Interface
certificate_signing_request = interface "CertificateSigningRequest" (
    readonly "apiVersion" text
    ∷ readonly "kind" text
    ∷ readonly "metadata" (ref "meta.v1" "ObjectMeta")
    ∷ readonly "spec" (ref "certificates.v1beta1" "CertificateSigningRequestSpec")
    ∷ readonly "status" (ref "certificates.v1beta1" "CertificateSigningRequestStatus")
    ∷ [])

abbrev pub certificate_signing_request_condition : Interface
certificate_signing_request_condition = interface "CertificateSigningRequestCondition" (
    readonly "lastUpdateTime" text
    ∷ readonly "message" text
    ∷ readonly "reason" text
    ∷ readonly "type" text
    ∷ [])

abbrev pub certificate_signing_request_list : Interface
certificate_signing_request_list = interface "CertificateSigningRequestList" (
    readonly "apiVersion" text
    ∷ readonly "items" (list (ref "certificates.v1beta1" "CertificateSigningRequest"))
    ∷ readonly "kind" text
    ∷ readonly "metadata" (ref "meta.v1" "ListMeta")
    ∷ [])

abbrev pub certificate_signing_request_spec : Interface
certificate_signing_request_spec = interface "CertificateSigningRequestSpec" (
    readonly "extra" any_object
    ∷ readonly "groups" (list text)
    ∷ readonly "request" text
    ∷ readonly "uid" text
    ∷ readonly "usages" (list text)
    ∷ readonly "username" text
    ∷ [])

abbrev pub certificate_signing_request_status : Interface
certificate_signing_request_status = interface "CertificateSigningRequestStatus" (
    readonly "certificate" text
    ∷ readonly "conditions" (list (ref "certificates.v1beta1" "CertificateSigningRequestCondition"))
    ∷ [])

abbrev pub interfaces : List Interface
interfaces =
    certificate_signing_request ∷ certificate_signing_request_condition
    ∷ certificate_signing_request_list ∷ certificate_signing_request_spec
    ∷ certificate_signing_request_status ∷ []
