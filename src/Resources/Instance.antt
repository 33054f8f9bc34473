-- ===== src/Resources/Instance.antt =====
-- Instances of the resource classes of pack/nodejs/provider.ts.
use pulumi_kubernetes.Common.{String, Option}
use pulumi_kubernetes.Common.Dict.{Dict}
use pulumi_kubernetes.Js.Value.{Value}
use pulumi_kubernetes.Options.{ResourceOptions}
use pulumi_kubernetes.Runtime.{External, M, ◌>>=◌, ◌>>◌, pure, lift, perform, custom}
use pulumi_kubernetes.Resources.Class.{ResourceClass, populate}

-- What the base class was given, and the arguments that the instance keeps in `__inputs`.
pub record CustomResource : Type 0 where
  pub token : String
  pub name : Value
  pub inputs : Dict Value
  pub opts : Option ResourceOptions
  pub kept : Value

-- `new C(name, args, opts)`: the inputs are filled in, then the base class registers the resource.
unfoldable pub new_resource :
    External → ResourceClass → Value → Value → Option ResourceOptions → M CustomResource
unfolding populate
new_resource env c name args opts = do
  inputs ← lift (populate c args)
  perform (custom c.token name inputs opts) env.custom
  pure (record { token = c.token; name = name; inputs = inputs; opts = opts; kept = args })

-- `getInputs()`
unfoldable pub get_inputs : CustomResource → Value
get_inputs r = r.kept
