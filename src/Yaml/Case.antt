-- ===== src/Yaml/Case.antt =====
-- One case of the `switch` in `parseYamlObject` (pack/nodejs/provider.ts).
use pulumi_kubernetes.Common.{String}
use pulumi_kubernetes.Resources.Class.{ResourceClass}

-- `case label: return { name: `prefix${id}`, resource: new made(id, obj, opts) };`
pub record Case : Type 0 where
  pub label : String
  pub prefix : String
  pub made : ResourceClass
