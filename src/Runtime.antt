-- ===== src/Runtime.antt =====
-- The effects of the package, in the order in which it makes them, and what it does not implement:
-- Pulumi's constructors, the file system, the shell and the libraries `glob`, `js-yaml`,
-- `shell-quote` and `tmp`. Their answers are a parameter, and may depend on all effects so far.
use pulumi_kubernetes.Common.{String, List, [], ◌∷◌, ◌++◌, Option}
use pulumi_kubernetes.Common.Dict.{Dict}
use pulumi_kubernetes.Js.Value.{Value}
use pulumi_kubernetes.Js.Outcome.{Exception, Outcome, ok, throws}
use pulumi_kubernetes.Options.{ResourceOptions, Config}

-- One effect: a `super` call of a Pulumi component, custom resource or
-- provider, or a library's call.
pub data Event : Type 0 where
  component : String → String → Config → Option ResourceOptions → Event
  custom : String → Value → Dict Value → Option ResourceOptions → Event
  provider : String → String → Dict Value → Option ResourceOptions → Event
  glob_sync : String → Event
  read_file : String → Event
  file_sync : String → Event
  dir_sync : Event
  write_file : String → String → Event
  exec_sync : String → Event
  remove_dir : String → Event
  remove_file : String → Event

abbrev pub Log : Type 0
Log = List Event

-- `type_error_text` and `run_error_text` are `toString()` of the two exceptions that the engine and
-- Pulumi define.
pub record External : Type 0 where
  pub platform : String
  pub quote : List String → String
  pub safe_load_all : String → Outcome (List Value)
  pub component : Log → Outcome (Unit {0})
  pub custom : Log → Outcome (Unit {0})
  pub provider : Log → Outcome (Unit {0})
  pub glob_sync : Log → Outcome (List String)
  pub read_file : Log → Outcome String
  pub file_sync : Log → Outcome String
  pub dir_sync : Log → Outcome String
  pub write_file : Log → Outcome (Unit {0})
  pub exec_sync : Log → Outcome String
  pub remove : Log → Outcome (Unit {0})
  pub type_error_text : String → Value → String
  pub run_error_text : String → String

-- A computation with effects: what it returns or throws, and the effects with its own at the end.
abbrev pub M : Type 0 → Type 0
M A = Log → Outcome A × Log

abbrev pub continue : {A B : Type 0} → (A → M B) → Outcome A × Log → Outcome B × Log
continue f (ok a, log) = f a log
continue f (throws e, log) = (throws e, log)

infixl 5 ◌>>=◌ ◌>>◌
abbrev pub ◌>>=◌ : {A B : Type 0} → M A → (A → M B) → M B
◌>>=◌ m f log = continue f (m log)

abbrev pub ◌>>◌ : {B : Type 0} → M (Unit {0}) → M B → M B
m >> k = m >>= λ _. k

abbrev pub pure : {A : Type 0} → A → M A
pure a log = (ok a, log)

abbrev pub lift : {A : Type 0} → Outcome A → M A
lift o log = (o, log)

abbrev pub throw : {A : Type 0} → Exception → M A
throw e log = (throws e, log)

-- The effect joins the log, and the answer is read from the log that ends in it.
abbrev pub perform : {A : Type 0} → Event → (Log → Outcome A) → M A
perform e answer log = (answer (log ++ e ∷ []), log ++ e ∷ [])
