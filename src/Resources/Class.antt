-- ===== src/Resources/Class.antt =====
-- The shape that every generated resource class of pack/nodejs/provider.ts has: its name, the
-- outputs that it declares, the assignments that its constructor makes, and the token that it
-- registers under.
pub mod Inputs
use pulumi_kubernetes.Common.{String, List, [], ◌∷◌}
use pulumi_kubernetes.Common.Dict.{Dict, insert}
use pulumi_kubernetes.Js.Value.{Value, string}
use pulumi_kubernetes.Js.Outcome.{Outcome, ok, ◌>>=◌, read}

-- `inputs["k"] = "text";` or `inputs["k"] = args.k;`
pub data Assignment : Type 0 where
  assign : String → String → Assignment
  copy : String → Assignment

-- `name` is what the class is declared as, `export class …`, by its namespace and name.
-- `args` is the interface `inputApi.…` of the constructor's arguments, by namespace and name.
-- `outputs` holds the `public readonly` properties with the types inside `pulumi.Output<…>`.
pub record ResourceClass : Type 0 where
  pub name : String × String
  pub token : String
  pub args : String × String
  pub outputs : Dict String
  pub inputs : List Assignment

-- The constructor's assignments to `inputs`, one after another, over the given arguments. A read of
-- missing arguments throws.
unfoldable pub populate_from : Dict Value → List Assignment → Value → Outcome (Dict Value)
populate_from inputs [] args = ok inputs
populate_from inputs (assign k text ∷ rest) args =
    populate_from (insert inputs k (string text)) rest args
populate_from inputs (copy k ∷ rest) args = do
  v ← read args k
  populate_from (insert inputs k v) rest args

unfoldable pub populate : ResourceClass → Value → Outcome (Dict Value)
unfolding populate_from
populate c args = populate_from [] c.inputs args
