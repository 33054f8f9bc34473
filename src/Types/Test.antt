-- ===== src/Types/Test.antt =====
-- The tests `isX(o: any): o is X` of pack/nodejs/types/input.ts.
use pulumi_kubernetes.Common.{String, Bool, true, false, ◌==◌}
use pulumi_kubernetes.Js.Value.{Value, string, array, object, to_text}
use pulumi_kubernetes.Js.Outcome.{Outcome, ok, ◌>>=◌, read}
use pulumi_kubernetes.Types.Shape.{Guard}

-- `v == "text"`, for a text that is no number: an array or an object is turned into a text first, a
-- number or a Boolean the text into a number, which is then not a number and equal to nothing.
abbrev pub loosely_equal : Value → String → Bool
loosely_equal (string s) text = s == text
loosely_equal (array xs) text = to_text (array xs) == text
loosely_equal (object fs) text = to_text (object fs) == text
loosely_equal _ text = false

-- `o.kind == "…"`, behind the `&&`: it is not reached if the first comparison fails.
abbrev pub kind_matches : Guard → Value → Bool → Outcome Bool
kind_matches g o false = ok false
kind_matches g o true = do kind ← read o "kind"; ok (loosely_equal kind g.kind)

-- `o.apiVersion == "…" && o.kind == "…"`
unfoldable pub accepts : Guard → Value → Outcome Bool
accepts g o = do
  api_version ← read o "apiVersion"
  kind_matches g o (loosely_equal api_version g.api_version)
