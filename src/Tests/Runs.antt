-- ===== src/Tests/Runs.antt =====
-- Runs at concrete inputs: those of pack/nodejs/tests/path.ts, the command lines, and an object
-- whose type has no class.
use pulumi_kubernetes.Common.{◌≡◌, refl, none, some, join}
use pulumi_kubernetes.Path.{
  is_letter, is_colon, is_special, is_backslash, starts_marked, is_marked, next_mode, escape_from,
  collapse_from, quote_windows_path,
}
use pulumi_kubernetes.Helm.Fetch.{fetch_flags, fetch_command}
use pulumi_kubernetes.Helm.Chart.{template_command}
use pulumi_kubernetes.Tests.World.{world, nginx}

drive_path :
    quote_windows_path "C:\\Users\\grace hopper\\AppData\\Local\\Temp"
    ≡ "C:\\Users\\grace hopper\\AppData\\Local\\Temp"
unfolding is_letter is_colon is_special is_backslash starts_marked is_marked next_mode escape_from
    collapse_from quote_windows_path
drive_path = refl

rooted_path :
    quote_windows_path "\\Users\\grace hopper\\AppData\\Local\\Temp"
    ≡ "\\Users\\grace hopper\\AppData\\Local\\Temp"
unfolding is_letter is_colon is_special is_backslash starts_marked is_marked next_mode escape_from
    collapse_from quote_windows_path
rooted_path = refl

relative_path :
    quote_windows_path "Users\\grace hopper\\AppData\\Local\\Temp"
    ≡ "Users\\grace hopper\\AppData\\Local\\Temp"
unfolding is_letter is_colon is_special is_backslash starts_marked is_marked next_mode escape_from
    collapse_from quote_windows_path
relative_path = refl

fetch_without_options : fetch_command world "stable/nginx" none ≡ "helm fetch 'stable/nginx' "
unfolding fetch_command fetch_flags join
fetch_without_options = refl

template_with_namespace :
    template_command world "web" (record nginx { namespace = some "prod" }) "/tmp/d" "/tmp/o.yaml"
    ≡ "helm template '/tmp/d'/'nginx' --name 'web' --values '/tmp/o.yaml' --namespace 'prod'"
unfolding template_command join
template_with_namespace = refl
