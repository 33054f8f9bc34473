-- ===== src/Yaml/Dispatch.antt =====
-- The tables of provider.ts against each other: the cases of `parseYamlObject`, the classes that
-- they make and the labels of `getResource`.
pub mod Inputs
pub mod Types
pub mod Fits
pub mod Overloads
use pulumi_kubernetes.Common.{
  ◌↔◌, String, ◌<>◌, ◌≡◌, refl, Bool, true, false, ◌&&◌, ◌||◌, not, if◌then◌else◌, List, [], ◌∷◌,
  arith, contains, all, some, none, ◌==◌, eq_iff, map,
}
use pulumi_kubernetes.Resources.Class.{Assignment, assign, copy, ResourceClass}
use pulumi_kubernetes.Resources.Class.Inputs.{targets, distinct}
use pulumi_kubernetes.Yaml.Case.{Case}
use pulumi_kubernetes.Yaml.Switch.{switch_cases}
use pulumi_kubernetes.Yaml.Object.{find_case}
use pulumi_kubernetes.Yaml.Collection.Labels.{get_resource_labels}

-- The text that a class assigns to a property, if it assigns one.
abbrev pub constant : String → List Assignment → String
constant k [] = ""
constant k (assign j text ∷ rest) = if j == k then text else constant k rest
constant k (copy _ ∷ rest) = constant k rest

abbrev pub api_version_of : ResourceClass → String
api_version_of c = constant "apiVersion" c.inputs

abbrev pub kind_of : ResourceClass → String
kind_of c = constant "kind" c.inputs

-- The API version in a token: the core group, which has no name, is written out.
abbrev pub token_version : String → String
token_version v = if v == "v1" then "core/v1" else v

abbrev same_texts : List String → List String → Bool
same_texts [] [] = true
same_texts (s ∷ ss) (t ∷ ts) = s == t && same_texts ss ts
same_texts _ _ = false

abbrev pub names {ℓ} : {V : Type ℓ} → List (String × V) → List String
names [] = []
names ((k, _) ∷ d) = k ∷ names d

abbrev pub has_slash : String → Bool
has_slash String.[] = false
has_slash (String.◌∷◌ c s) = String.◌∷◌ c String.[] == "/" || has_slash s

-- A case fits the class that it makes.
pub record IsCoherent (c : Case) : Type 0 where
  pub label : c.label ≡ api_version_of c.made <> ("/" <> kind_of c.made)
  pub prefix : c.prefix ≡ c.label <> "::"
  pub token :
      c.made.token
      ≡ "kubernetes:" <> (token_version (api_version_of c.made) <> (":" <> kind_of c.made))
  pub outputs : names c.made.outputs ≡ targets c.made.inputs
  pub distinct_inputs : distinct (targets c.made.inputs) ≡ true
  pub plain_kind : has_slash (kind_of c.made) ≡ false

coherent : Case → Bool
coherent c =
    c.label == api_version_of c.made <> ("/" <> kind_of c.made)
    && (c.prefix == c.label <> "::"
        && (c.made.token
              == "kubernetes:" <> (token_version (api_version_of c.made) <> (":" <> kind_of c.made))
            && (same_texts (names c.made.outputs) (targets c.made.inputs)
                && (distinct (targets c.made.inputs) && not (has_slash (kind_of c.made))))))

same_texts-eq : (ss ts : List String) → same_texts ss ts ≡ true → ss ≡ ts
same_texts-eq [] [] h = refl
same_texts-eq (s ∷ ss) (t ∷ ts) h = ground (arith, eq_iff s t, same_texts-eq ss ts)
same_texts-eq [] (t ∷ ts) h = cc
same_texts-eq (s ∷ ss) [] h = cc

coherent-IsCoherent : (c : Case) → coherent c ≡ true → IsCoherent c
unfolding coherent
coherent-IsCoherent c h = record {
  label = (eq_iff _ _).0 (ground arith);
  prefix = (eq_iff _ _).0 (ground arith);
  token = (eq_iff _ _).0 (ground arith);
  outputs = same_texts-eq _ _ (ground arith);
  distinct_inputs = ground arith;
  plain_kind = ground arith;
}

all-coherent : all coherent switch_cases ≡ true
unfolding coherent switch_cases
all-coherent = refl

same_labels : map (λ (c : Case). c.label) switch_cases ≡ get_resource_labels
unfolding switch_cases get_resource_labels
same_labels = refl

pub find_case-all :
    (p : Case → Bool) (text : String) (cases : List Case) (c : Case)
    → all p cases ≡ true
    → find_case text cases ≡ some c
    → (p c ≡ true) × (c.label ≡ text)
unfolding find_case
find_case-all p text [] c h e = cc
find_case-all p text (d ∷ cases) c h e =
    ground (arith, eq_iff d.label text, find_case-all p text cases c)

find_case-contains :
    (text : String) (cases : List Case)
    → contains (map (λ (c : Case). c.label) cases) text ≡ false
    → find_case text cases ≡ none
unfolding find_case
find_case-contains text [] h = refl
find_case-contains text (d ∷ cases) h = ground (arith, find_case-contains text cases)

contains-find_case :
    (text : String) (cases : List Case)
    → find_case text cases ≡ none
    → contains (map (λ (c : Case). c.label) cases) text ≡ false
unfolding find_case
contains-find_case text [] h = refl
contains-find_case text (d ∷ cases) h = ground (arith, contains-find_case text cases)

-- The class that a case of the `switch` makes registers the kind of the case's label: the label is
-- the class's API version and kind, the token is made of the two, the key's prefix is the label,
-- the inputs are the declared outputs, each set once, and the kind has no slash.
pub find_case-IsCoherent :
    (text : String) (c : Case)
    → find_case text switch_cases ≡ some c
    → (c.label ≡ text) × IsCoherent c
find_case-IsCoherent text c e =
    let (fits, same) = find_case-all coherent text switch_cases c all-coherent e in
    (same, coherent-IsCoherent c fits)

-- `getResource` refuses a type exactly when the `switch` of `parseYamlObject` has no case for it.
pub get_resource_labels-find_case :
    (text : String)
    → (contains get_resource_labels text ≡ false) ↔ (find_case text switch_cases ≡ none)
get_resource_labels-find_case text = (
  λ h. find_case-contains text switch_cases (rw (← same_labels) at h),
  λ h. rw (← same_labels) (contains-find_case text switch_cases h),
)
