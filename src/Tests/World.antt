-- ===== src/Tests/World.antt =====
-- A world in which every effect succeeds, and a pod to parse.
use pulumi_kubernetes.Common.{◌<>◌, if◌then◌else◌, ◌==◌, none, [], ◌∷◌, join}
use pulumi_kubernetes.Js.Value.{Value, undefined, object, string, Fields, field, end}
use pulumi_kubernetes.Js.Outcome.{ok}
use pulumi_kubernetes.Options.{ChartOpts}
use pulumi_kubernetes.Runtime.{External}
use pulumi_kubernetes.Yaml.Case.{Case}
use pulumi_kubernetes.Resources
use pulumi_kubernetes.Resources.Instance.{CustomResource}
use pulumi_kubernetes.Yaml.Object.Branches.{instance_of}

abbrev pub pod_meta : Fields
pod_meta = field "name" (string "web") (field "namespace" (string "prod") end)

abbrev pub pod_fields : Fields
pod_fields = field "apiVersion" (string "v1") (
    field "kind" (string "Pod")
      (field "metadata" (object pod_meta) (field "spec" (string "s") end)))

abbrev pub pod : Value
pod = object pod_fields

abbrev pub pod_case : Case
pod_case = record { label = "v1/Pod"; prefix = "v1/Pod::"; made = Resources.Core.V1.PToR.pod }

-- The resource that the pod makes.
abbrev pub web_pod : CustomResource
web_pod = instance_of pod_case.made (string "prod/web") pod_fields none

-- A pod without a namespace.
abbrev pub db_meta : Fields
db_meta = field "name" (string "db") end

abbrev pub db_fields : Fields
db_fields =
    field "apiVersion" (string "v1")
      (field "kind" (string "Pod") (field "metadata" (object db_meta) end))

-- An object of a type that has no class, and one without metadata.
abbrev pub widget_fields : Fields
widget_fields =
    field "apiVersion" (string "example.com/v1")
      (field "kind" (string "Widget") (field "metadata" (object pod_meta) end))

abbrev pub bare_fields : Fields
bare_fields = field "apiVersion" (string "v1") (field "kind" (string "List") end)

-- The loader gives one pod for the text "pod", and nothing for others. Quoting puts words in
-- single quotes.
abbrev pub world : External
world = record {
  platform = "linux";
  quote = λ words. "'" <> (join " " words <> "'");
  safe_load_all = λ text. if text == "pod" then ok (pod ∷ []) else ok [];
  component = λ log. ok tt;
  custom = λ log. ok tt;
  provider = λ log. ok tt;
  glob_sync = λ log. ok ("a.yaml" ∷ []);
  read_file = λ log. ok "pod";
  file_sync = λ log. ok "/tmp/o.yaml";
  dir_sync = λ log. ok "/tmp/d";
  write_file = λ log. ok tt;
  exec_sync = λ log. ok "pod";
  remove = λ log. ok tt;
  type_error_text = λ property v. "TypeError: " <> property;
  run_error_text = λ message. "Error: " <> message;
}

abbrev pub nginx : ChartOpts
nginx = record {
  repo = "stable";
  chart = "nginx";
  version = "1.0";
  namespace = none;
  values = undefined;
  transformations = none;
  fetch_opts = none;
}
