-- ===== src/Resources/Core/V1/SToZ.antt =====
-- The classes of `core.v1` in pack/nodejs/provider.ts from Secret to ServiceList.
use pulumi_kubernetes.Common.{[], ◌∷◌}
use pulumi_kubernetes.Resources.Class.{ResourceClass, assign, copy}

abbrev pub secret : ResourceClass
secret = record {
  name = ("core.v1", "Secret");
  token = "kubernetes:core/v1:Secret";
  args = ("core.v1", "Secret");
  outputs =
      ("apiVersion", "string")
      ∷ ("data", "object")
      ∷ ("kind", "string")
      ∷ ("metadata", "outputApi.meta.v1.ObjectMeta")
      ∷ ("stringData", "{[key: string]: pulumi.Output<string>}")
      ∷ ("type", "string")
      ∷ [];
  inputs =
      assign "apiVersion" "v1"
      ∷ copy "data"
      ∷ assign "kind" "Secret"
      ∷ copy "metadata"
      ∷ copy "stringData"
      ∷ copy "type"
      ∷ [];
}

abbrev pub secret_list : ResourceClass
secret_list = record {
  name = ("core.v1", "SecretList");
  token = "kubernetes:core/v1:SecretList";
  args = ("core.v1", "SecretList");
  outputs =
      ("apiVersion", "string")
      ∷ ("items", "outputApi.core.v1.Secret[]")
      ∷ ("kind", "string")
      ∷ ("metadata", "outputApi.meta.v1.ListMeta")
      ∷ [];
  inputs =
      assign "apiVersion" "v1" ∷ copy "items" ∷ assign "kind" "SecretList" ∷ copy "metadata" ∷ [];
}

abbrev pub service : ResourceClass
service = record {
  name = ("core.v1", "Service");
  token = "kubernetes:core/v1:Service";
  args = ("core.v1", "Service");
  outputs =
      ("apiVersion", "string")
      ∷ ("kind", "string")
      ∷ ("metadata", "outputApi.meta.v1.ObjectMeta")
      ∷ ("spec", "outputApi.core.v1.ServiceSpec")
      ∷ ("status", "outputApi.core.v1.ServiceStatus")
      ∷ [];
  inputs =
      assign "apiVersion" "v1"
      ∷ assign "kind" "Service"
      ∷ copy "metadata"
      ∷ copy "spec"
      ∷ copy "status"
      ∷ [];
}

abbrev pub service_account : ResourceClass
service_account = record {
  name = ("core.v1", "ServiceAccount");
  token = "kubernetes:core/v1:ServiceAccount";
  args = ("core.v1", "ServiceAccount");
  outputs =
      ("apiVersion", "string")
      ∷ ("automountServiceAccountToken", "boolean")
      ∷ ("imagePullSecrets", "outputApi.core.v1.LocalObjectReference[]")
      ∷ ("kind", "string")
      ∷ ("metadata", "outputApi.meta.v1.ObjectMeta")
      ∷ ("secrets", "outputApi.core.v1.ObjectReference[]")
      ∷ [];
  inputs =
      assign "apiVersion" "v1"
      ∷ copy "automountServiceAccountToken"
      ∷ copy "imagePullSecrets"
      ∷ assign "kind" "ServiceAccount"
      ∷ copy "metadata"
      ∷ copy "secrets"
      ∷ [];
}

abbrev pub service_account_list : ResourceClass
service_account_list = record {
  name = ("core.v1", "ServiceAccountList");
  token = "kubernetes:core/v1:ServiceAccountList";
  args = ("core.v1", "ServiceAccountList");
  outputs =
      ("apiVersion", "string")
      ∷ ("items", "outputApi.core.v1.ServiceAccount[]")
      ∷ ("kind", "string")
      ∷ ("metadata", "outputApi.meta.v1.ListMeta")
      ∷ [];
  inputs =
      assign "apiVersion" "v1"
      ∷ copy "items"
      ∷ assign "kind" "ServiceAccountList"
      ∷ copy "metadata"
      ∷ [];
}

abbrev pub service_list : ResourceClass
service_list = record {
  name = ("core.v1", "ServiceList");
  token = "kubernetes:core/v1:ServiceList";
  args = ("core.v1", "ServiceList");
  outputs =
      ("apiVersion", "string")
      ∷ ("items", "outputApi.core.v1.Service[]")
      ∷ ("kind", "string")
      ∷ ("metadata", "outputApi.meta.v1.ListMeta")
      ∷ [];
  inputs =
      assign "apiVersion" "v1" ∷ copy "items" ∷ assign "kind" "ServiceList" ∷ copy "metadata" ∷ [];
}
