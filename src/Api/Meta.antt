-- ===== src/Api/Meta.antt =====
-- What every Kubernetes object carries (`metav1.ObjectMeta`), maps of texts, references.
use spot_instance_training_o.Base.{
  ℕ, ◌≡◌, refl, Bool, true, false, String, Option, none, some, List, [], ◌∷◌, arith, str_eq, eq_iff,
  if◌then◌else◌,
}

-- A `map[string]string`; the empty list is also the nil map.
abbrev pub Labels : Type 0
Labels = List (String × String)

-- `m[k]` with its `ok`.
unfoldable pub label : String → Labels → Option String
label k [] = none
label k ((j, v) ∷ m) = if str_eq j k then some v else label k m

-- `m[k]`, the empty text where it is missing.
unfoldable pub label_or_empty : String → Labels → String
unfolding label
label_or_empty k m = elim (label k m) [ none ↦ "" | some v ↦ v ]

-- `m[k] = v`
unfoldable pub set_label : String → String → Labels → Labels
set_label k v [] = (k, v) ∷ []
set_label k v ((j, w) ∷ m) = if str_eq j k then (k, v) ∷ m else (j, w) ∷ set_label k v m

-- `_, ok := m[k]`
unfoldable pub has_label : String → Labels → Bool
unfolding label
has_label k m = elim (label k m) [ none ↦ false | some _ ↦ true ]

-- `metav1.OwnerReference`, as far as an owner is told apart.
pub record OwnerReference : Type 0 where
  pub uid : String
  pub controller : Bool

-- `metav1.ObjectMeta`. Times are nanoseconds of the Unix epoch; a deletion time that is not set
-- (`IsZero`) is `none`.
pub record ObjectMeta : Type 0 where
  pub name : String
  pub namespace : String
  pub uid : String
  pub labels : Labels
  pub annotations : Labels
  pub finalizers : List String
  pub owner_references : List OwnerReference
  pub creation_timestamp : ℕ
  pub deletion_timestamp : Option ℕ

-- `!meta.DeletionTimestamp.IsZero()`
abbrev pub is_deleting : ObjectMeta → Bool
is_deleting m = elim m.deletion_timestamp [ none ↦ false | some _ ↦ true ]

-- `corev1.SecretReference`
pub record SecretReference : Type 0 where
  pub name : String
  pub namespace : String

-- A written entry is the one that is read, and the others stay.
pub label-set_label :
    (k j v : String) (m : Labels)
    → label j (set_label k v m) ≡ (if str_eq k j then some v else label j m)
unfolding label set_label
label-set_label k j v [] = refl
label-set_label k j v ((i, w) ∷ m) =
    ground (arith, eq_iff k j, eq_iff i k, eq_iff i j, label-set_label k j v m)
