-- ===== src/Resources/Class/Inputs.antt =====
-- What a constructor's assignments make of an object.
use pulumi_kubernetes.Common.{
  String, ◌≡◌, refl, ◌∙◌, Bool, true, false, ◌&&◌, ◌||◌, not, List, [], ◌∷◌, ◌++◌, append_assoc,
  append-nil, arith, contains, ◌==◌, eq_iff,
}
use pulumi_kubernetes.Common.Dict.{Dict, insert, has}
use pulumi_kubernetes.Js.Value.{Value, object, string, Fields, property}
use pulumi_kubernetes.Js.Outcome.{ok, read}
use pulumi_kubernetes.Resources.Class.{
  Assignment, assign, copy, ResourceClass, populate_from, populate,
}

abbrev pub target : Assignment → String
target (assign k _) = k
target (copy k) = k

abbrev pub assigned : Assignment → Fields → Value
assigned (assign _ text) args = string text
assigned (copy k) args = property k args

-- Each assignment's property with its value.
abbrev pub expected_inputs : List Assignment → Fields → Dict Value
expected_inputs [] args = []
expected_inputs (a ∷ rest) args = (target a, assigned a args) ∷ expected_inputs rest args

abbrev pub targets : List Assignment → List String
targets [] = []
targets (a ∷ rest) = target a ∷ targets rest

abbrev pub distinct : List String → Bool
distinct [] = true
distinct (k ∷ ks) = not (contains ks k) && distinct ks

-- No key of the dictionary stands in the list.
abbrev fresh : Dict Value → List String → Bool
fresh d [] = true
fresh d (k ∷ ks) = not (has d k) && fresh d ks

insert_fresh :
    (d : Dict Value) (k : String) (v : Value) → has d k ≡ false → insert d k v ≡ d ++ (k, v) ∷ []
unfolding insert has
insert_fresh [] k v h = refl
insert_fresh ((j, w) ∷ d) k v h = ground (arith, insert_fresh d k v)

has-concat :
    (d : Dict Value) (k j : String) (v : Value) → has (d ++ (k, v) ∷ []) j ≡ (has d j || k == j)
unfolding has
has-concat [] k j v = ground arith
has-concat ((i, w) ∷ d) k j v = ground (arith, has-concat d k j v)

fresh-concat :
    (d : Dict Value) (k : String) (v : Value) (ks : List String)
    → fresh d ks ≡ true
    → contains ks k ≡ false
    → fresh (d ++ (k, v) ∷ []) ks ≡ true
fresh-concat d k v [] h p = refl
fresh-concat d k v (j ∷ ks) h p =
    ground (arith, has-concat d k j v, fresh-concat d k v ks, eq_iff k j, eq_iff j k)

populate_from-insert :
    (d : Dict Value) (k : String) (v : Value) (l : List Assignment) (args : Fields)
    → has d k ≡ false
    → populate_from (d ++ (k, v) ∷ []) l (object args)
      ≡ ok ((d ++ (k, v) ∷ []) ++ expected_inputs l args)
    → populate_from (insert d k v) l (object args) ≡ ok (d ++ (k, v) ∷ expected_inputs l args)
populate_from-insert d k v l args free ih = rw (insert_fresh d k v free) (ih ∙ rw append_assoc)

populate_from-eq :
    (d : Dict Value) (l : List Assignment) (args : Fields)
    → distinct (targets l) ≡ true
    → fresh d (targets l) ≡ true
    → populate_from d l (object args) ≡ ok (d ++ expected_inputs l args)
unfolding populate_from read
populate_from-eq d [] args u h = rw append-nil
populate_from-eq d (assign k text ∷ l) args u h =
    populate_from-insert d k (string text) l args (ground arith) (
      populate_from-eq (d ++ (k, (string text)) ∷ []) l args (ground arith)
        (fresh-concat d k (string text) (targets l) (ground arith) (ground arith)))
populate_from-eq d (copy k ∷ l) args u h =
    populate_from-insert d k (property k args) l args (ground arith) (
      populate_from-eq (d ++ (k, (property k args)) ∷ []) l args (ground arith)
        (fresh-concat d k (property k args) (targets l) (ground arith) (ground arith)))

fresh-nil : (ks : List String) → fresh [] ks ≡ true
unfolding has
fresh-nil [] = refl
fresh-nil (k ∷ ks) = fresh-nil ks

-- A constructor whose assignments are to distinct properties gives the base class one input for
-- each, in order.
pub populate-object :
    (c : ResourceClass) (args : Fields)
    → distinct (targets c.inputs) ≡ true
    → populate c (object args) ≡ ok (expected_inputs c.inputs args)
unfolding populate
populate-object c args u = populate_from-eq [] c.inputs args u (fresh-nil (targets c.inputs))
