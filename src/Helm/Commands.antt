-- ===== src/Helm/Commands.antt =====
-- The command lines of pack/nodejs/helm.ts.
use pulumi_kubernetes.Common.{
  ℕ, String, ◌<>◌, ◌≡◌, refl, sym, Bool, true, false, List, [], ◌∷◌, ◌++◌, append_assoc, append-nil,
  Option, some, none,
}
use pulumi_kubernetes.Options.{FetchOpts, ChartOpts}
use pulumi_kubernetes.Runtime.{External}
use pulumi_kubernetes.Helm.Fetch.{push_value, push_switch, push_untar, fetch_flags, word, path}
use pulumi_kubernetes.Helm.Chart.{template_command, expand_chart}

abbrev pub value_flag : String → (String → String) → Option String → Option String
value_flag name quoted none = none
value_flag name quoted (some value) = some (name <> (" " <> quoted value))

abbrev pub switch_flag : String → Option Bool → Option String
switch_flag name (some true) = some name
switch_flag name _ = none

abbrev pub untar_flag : Option Bool → Option String
untar_flag (some false) = none
untar_flag _ = some "--untar"

-- The flags that are there, in order.
abbrev pub present : List (Option String) → List String
present [] = []
present (none ∷ flags) = present flags
present (some flag ∷ flags) = flag ∷ present flags

-- Each option's own flag, in the order of the command line.
abbrev pub own_flags : External → FetchOpts → List (Option String)
own_flags env opts =
    untar_flag opts.untar
    ∷ value_flag "--version" (word env) opts.version
    ∷ value_flag "--ca-file" (path env) opts.ca_file
    ∷ value_flag "--cert-file" (path env) opts.cert_file
    ∷ value_flag "--key-file" (path env) opts.key_file
    ∷ value_flag "--destination" (path env) opts.destination
    ∷ value_flag "--keyring" (path env) opts.keyring
    ∷ value_flag "--password" (word env) opts.password
    ∷ value_flag "--repo" (word env) opts.repo
    ∷ value_flag "--untardir" (path env) opts.untardir
    ∷ value_flag "--username" (word env) opts.username
    ∷ value_flag "--home" (path env) opts.home
    ∷ switch_flag "--devel" opts.devel
    ∷ switch_flag "--prov" opts.prov
    ∷ switch_flag "--verify" opts.verify
    ∷ []

abbrev given : Option String → List String
given none = []
given (some flag) = flag ∷ []

present-cons :
    (o : Option String) (rest : List (Option String)) → present (o ∷ rest) ≡ given o ++ present rest
present-cons none rest = refl
present-cons (some flag) rest = refl

push_value-append :
    (flags : List String) (name : String) (quoted : String → String) (o : Option String)
    → push_value flags name quoted o ≡ flags ++ given (value_flag name quoted o)
push_value-append flags name quoted none = sym (append-nil flags)
push_value-append flags name quoted (some v) = refl

push_switch-append :
    (flags : List String) (name : String) (o : Option Bool)
    → push_switch flags name o ≡ flags ++ given (switch_flag name o)
push_switch-append flags name none = sym (append-nil flags)
push_switch-append flags name (some true) = refl
push_switch-append flags name (some false) = sym (append-nil flags)

push_untar-append : (o : Option Bool) → push_untar [] o ≡ given (untar_flag o)
push_untar-append none = refl
push_untar-append (some true) = refl
push_untar-append (some false) = refl

ruleset flag_laws = (
  present-cons, push_value-append, push_switch-append, push_untar-append, append_assoc, append-nil,
)

-- The flags of `helm fetch` are one for each option that is given, in a fixed order and whatever
-- the other options are: a value behind its name, a switch that is on, and `--untar` unless it is
-- turned off. With no options at all there is no flag.
pub fetch_flags-present :
    (env : External) (opts : FetchOpts)
    → (fetch_flags env (some opts) ≡ present (own_flags env opts)) × (fetch_flags env none ≡ [])
unfolding fetch_flags
fetch_flags-present env opts = (simp flag_laws, refl)

-- The `fetchOpts` of a chart have no effect on its commands and its resources.
pub expand_chart-fetch_opts :
    (env : External) (config : ChartOpts) (given : Option FetchOpts) (release : String) (self : ℕ)
    (overrides chart_dir : String)
    → expand_chart env release (record config { fetch_opts = given }) self overrides chart_dir
      ≡ expand_chart env release config self overrides chart_dir
unfolding expand_chart template_command
expand_chart-fetch_opts env config given release self overrides chart_dir = refl
