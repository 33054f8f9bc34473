-- ===== src/Tests/Helm.antt =====
-- The theorems on paths, charts and the provider at concrete inputs.
use pulumi_kubernetes.Common.{◌≡◌, refl, true, false, none, some, [], ◌∷◌, ◌++◌, join}
use pulumi_kubernetes.Js.Value.{undefined, object, string, field, end, property, to_text}
use pulumi_kubernetes.Js.Outcome.{ok, throws, foreign, run_error, read}
use pulumi_kubernetes.Options.{FetchOpts}
use pulumi_kubernetes.Runtime.{External, Log, provider, remove_dir, remove_file, dir_sync}
use pulumi_kubernetes.Path.{
  starts_marked, quote_path, is_letter, is_colon, is_special, is_backslash, quote_windows_path,
}
use pulumi_kubernetes.Path.Quoting.{
  quote_windows_path-NoDrive, quote_windows_path_drive, quote_windows_path_identity,
}
use pulumi_kubernetes.Helm.Fetch.{fetch, fetch_flags}
use pulumi_kubernetes.Helm.Chart.{
  chart_fetch_opts, expand_chart, guarded_chart, new_chart, exception_text,
}
use pulumi_kubernetes.Helm.Commands.{fetch_flags-present, expand_chart-fetch_opts}
use pulumi_kubernetes.Helm.Cleanup.{
  opened, fetched, templated, guarded_chart-cleans_up, guarded_chart-removal_failed,
  new_chart-dir_failed, expand_chart-document,
}
use pulumi_kubernetes.Provider.{new_provider}
use pulumi_kubernetes.Provider.Inputs.{inputs_of, new_provider-registers}
use pulumi_kubernetes.Yaml.Document.{parse_yaml_document, parent_of, document_from}
use pulumi_kubernetes.Helm.Expansion.{prepared, cleaned, new_chart-document}
use pulumi_kubernetes.Resources.Class.{populate, populate_from}
use pulumi_kubernetes.Resources.Instance.{CustomResource, new_resource}
use pulumi_kubernetes.Common.Dict.{insert}
use pulumi_kubernetes.Yaml.Switch.{switch_cases}
use pulumi_kubernetes.Yaml.Object.{
  parse_yaml_object, build_object, identify_object, make_object, qualified_id, transform, find_case,
}
use pulumi_kubernetes.Yaml.Object.Branches.{instance_of, registration}
use pulumi_kubernetes.Helm.Release.{IsReleased, new_chart-IsReleased}
use pulumi_kubernetes.Helm.Parents.{IsOwned, chart_opened, new_chart-IsOwned}
use pulumi_kubernetes.Tests.World.{pod_fields, world, nginx, pod}
use pulumi_kubernetes.Resources

quote_windows_path_drive_example : quote_windows_path "C:\\a&" ≡ "C:\\a\\&"
unfolding is_special is_backslash is_colon is_letter
quote_windows_path_drive_example =
    quote_windows_path_drive "C" ":" "\\" "a&" refl refl refl (refl, (refl, tt))

quote_windows_path-NoDrive_example : quote_windows_path "C:a&b:c" ≡ "C\\:a\\&b\\:c"
unfolding is_special is_backslash is_letter starts_marked is_colon
quote_windows_path-NoDrive_example =
    quote_windows_path-NoDrive "C:a&b:c" (refl, (refl, (refl, (refl, (refl, (refl, (refl, tt)))))))

quote_windows_path_identity_example :
    (quote_windows_path "a\\b" ≡ "a\\b") × (quote_windows_path "C:\\a\\b" ≡ "C:\\a\\b")
unfolding is_special is_backslash is_letter
quote_windows_path_identity_example =
    quote_windows_path_identity "C" "a\\b" refl (refl, (refl, (refl, tt)))

abbrev full_fetch : FetchOpts
full_fetch = record (chart_fetch_opts "/tmp/d" "1.0") {
  untar = some false;
  devel = some true;
  username = some "me";
}

fetch_flags-present_example :
    (fetch_flags world (some full_fetch)
      ≡ "--version '1.0'" ∷ "--destination '/tmp/d'" ∷ "--username 'me'" ∷ "--devel" ∷ [])
    × (fetch_flags world none ≡ [])
unfolding quote_path join
fetch_flags-present_example = fetch_flags-present world full_fetch

expand_chart-fetch_opts_example :
    expand_chart world "web"
      (record nginx { fetch_opts = some full_fetch })
      0
      "/tmp/o.yaml"
      "/tmp/d"
    ≡ expand_chart world "web" nginx 0 "/tmp/o.yaml" "/tmp/d"
expand_chart-fetch_opts_example =
    expand_chart-fetch_opts world nginx (some full_fetch) "web" 0 "/tmp/o.yaml" "/tmp/d"

abbrev web_log : Log
web_log = templated world "web" nginx "/tmp/o.yaml" "/tmp/d" []

expand_chart-document_example :
    expand_chart world "web" nginx 0 "/tmp/o.yaml" "/tmp/d" []
    ≡ parse_yaml_document world
        (record { objs = pod ∷ []; transformations = some [] })
        (parent_of 0)
        web_log
expand_chart-document_example =
    expand_chart-document world "web" nginx 0 "/tmp/o.yaml" "/tmp/d" "pod" "pod" (pod ∷ []) [] refl
      refl refl refl

abbrev prepared_web : Log
prepared_web = prepared "web" nginx none []

abbrev made_pod : CustomResource
made_pod = instance_of Resources.Core.V1.PToR.pod (string "prod/web") pod_fields (parent_of 0)

abbrev web_done : Log
web_done =
    templated world "web" nginx "/tmp/o.yaml" "/tmp/d" prepared_web ++ registration made_pod ∷ []

web_parsed :
    parse_yaml_document world
      (record { objs = pod ∷ []; transformations = some [] })
      (parent_of 0)
      (templated world "web" nginx "/tmp/o.yaml" "/tmp/d" prepared_web)
    ≡ (ok (("v1/Pod::prod/web", made_pod) ∷ []), web_done)
unfolding parse_yaml_document document_from parse_yaml_object build_object identify_object
    make_object qualified_id transform find_case switch_cases new_resource populate populate_from
    property read insert to_text
web_parsed = refl

new_chart-document_example : new_chart world "web" nginx none [] ≡ (
  ok (record { self = 0; resources = ("v1/Pod::prod/web", made_pod) ∷ [] }),
  cleaned "/tmp/o.yaml" "/tmp/d" web_done,
)
new_chart-document_example =
    new_chart-document world "web" nginx none [] "/tmp/o.yaml" "/tmp/d" "pod" "pod" (pod ∷ [])
      (ok (("v1/Pod::prod/web", made_pod) ∷ [])) web_done refl refl refl refl refl refl refl
      web_parsed refl refl

-- The chart's repository cannot be reached.
abbrev offline : External
offline = record world { exec_sync = λ log. throws (foreign "no network") }

offline_run :
    expand_chart offline "web" nginx 0 "/tmp/o.yaml" "/tmp/d" []
    ≡ (throws (foreign "no network"), fetched offline nginx "/tmp/d" [])
unfolding expand_chart fetch
offline_run = refl

guarded_chart-cleans_up_example : guarded_chart offline "web" nginx 0 "/tmp/o.yaml" "/tmp/d" [] ≡ (
  throws (run_error "no network"),
  (fetched offline nginx "/tmp/d" [] ++ remove_dir "/tmp/d" ∷ []) ++ remove_file "/tmp/o.yaml" ∷ [],
)
unfolding exception_text
guarded_chart-cleans_up_example =
    guarded_chart-cleans_up offline "web" nginx 0 "/tmp/o.yaml" "/tmp/d" []
      (fetched offline nginx "/tmp/d" []) (throws (foreign "no network")) offline_run refl refl

abbrev stuck : External
stuck = record offline { remove = λ log. throws (foreign "busy") }

stuck_run :
    expand_chart stuck "web" nginx 0 "/tmp/o.yaml" "/tmp/d" []
    ≡ (throws (foreign "no network"), fetched stuck nginx "/tmp/d" [])
unfolding expand_chart fetch
stuck_run = refl

guarded_chart-removal_failed_example :
    guarded_chart stuck "web" nginx 0 "/tmp/o.yaml" "/tmp/d" []
    ≡ (throws (foreign "busy"), fetched stuck nginx "/tmp/d" [] ++ remove_dir "/tmp/d" ∷ [])
guarded_chart-removal_failed_example =
    guarded_chart-removal_failed stuck "web" nginx 0 "/tmp/o.yaml" "/tmp/d" []
      (fetched stuck nginx "/tmp/d" []) (throws (foreign "no network")) (foreign "busy") stuck_run
      refl

abbrev full_disk : External
full_disk = record world { dir_sync = λ log. throws (foreign "no space") }

new_chart-dir_failed_example :
    new_chart full_disk "web" nginx none []
    ≡ (throws (foreign "no space"), opened "web" nginx none [] ++ dir_sync ∷ [])
new_chart-dir_failed_example =
    new_chart-dir_failed full_disk "web" nginx none [] "/tmp/o.yaml" (foreign "no space") refl refl
      refl

new_chart-IsReleased_example :
    IsReleased offline "/tmp/o.yaml" "/tmp/d" (new_chart offline "web" nginx none []).1
new_chart-IsReleased_example =
    new_chart-IsReleased offline "web" nginx none [] "/tmp/o.yaml" "/tmp/d" refl refl refl

new_chart-IsOwned_example :
    IsOwned 0 (chart_opened "web" nginx none []) (new_chart world "web" nginx none []).1
new_chart-IsOwned_example = new_chart-IsOwned world "web" nginx none []

new_provider-registers_example :
    let event =
      provider "kubernetes" "k8s" (inputs_of undefined (string "dev") undefined undefined) none in
    new_provider world "k8s" (object (field "context" (string "dev") end)) none []
    ≡ (ok tt, event ∷ [])
unfolding property
new_provider-registers_example =
    new_provider-registers world "k8s" (object (field "context" (string "dev") end)) none []
