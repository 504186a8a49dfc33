-- ===== src/Metastore/Listing.antt =====
-- `list_schemas` (crates/catalog-metastore/src/metastore.rs) answers in descending order of the names.
use mathlib.Core.List.{Perm, perm_middle, append-nil}
use mathlib.Core.List.Perm
use rustice.Prelude.{
  text_lt, true, false, ◌≡◌, refl, List, [], ◌∷◌, ◌++◌, Text, arith, Bool-cases, inl, inr,
}
use rustice.Metastore.Error.{ok}
use rustice.Metastore.External.{External}
use rustice.Metastore.Models.{RwObject, Schema, DatabaseIdent}
use rustice.Metastore.State.{Metastore}
use rustice.Metastore.Databases.{schema_name, insert_sorted, sort_onto, schema_rows, list_schemas}

-- No name is below the one that follows it.
abbrev pub IsDescending : List (RwObject Schema) → Type 0
IsDescending [] = Unit {0}
IsDescending (a ∷ []) = Unit {0}
IsDescending (a ∷ b ∷ l) = (text_lt (schema_name a) (schema_name b) ≡ false) × IsDescending (b ∷ l)

text_lt_asymm : (s t : Text) → text_lt s t ≡ true → text_lt t s ≡ false
unfolding text_lt
text_lt_asymm [] [] h = refl
text_lt_asymm [] (d ∷ t) h = refl
text_lt_asymm (c ∷ s) [] h = cc
text_lt_asymm (c ∷ s) (d ∷ t) h = ground (arith, text_lt_asymm s t)

insert_sorted-IsDescending :
    (a : RwObject Schema) (l : List (RwObject Schema))
    → IsDescending l
    → IsDescending (insert_sorted a l)
unfolding insert_sorted
insert_sorted-IsDescending a [] h = tt
insert_sorted-IsDescending a (b ∷ []) h =
    ground (arith, text_lt_asymm (schema_name b) (schema_name a))
insert_sorted-IsDescending a (b ∷ c ∷ l) h =
    ground (
      arith,
      text_lt_asymm (schema_name b) (schema_name a),
      insert_sorted-IsDescending a (c ∷ l) h.1,
    )

sort_onto-IsDescending :
    (sorted l : List (RwObject Schema)) → IsDescending sorted → IsDescending (sort_onto sorted l)
unfolding sort_onto
sort_onto-IsDescending sorted [] h = h
sort_onto-IsDescending sorted (a ∷ l) h =
    sort_onto-IsDescending (insert_sorted a sorted) l (insert_sorted-IsDescending a sorted h)

insert_sorted-perm :
    (a : RwObject Schema) (l : List (RwObject Schema)) → Perm (insert_sorted a l) (a ∷ l)
unfolding insert_sorted
insert_sorted-perm a [] = Perm.refl (a ∷ [])
insert_sorted-perm a (b ∷ l) = elim (Bool-cases (text_lt (schema_name b) (schema_name a))) [
  | inl above ↦ rw above (Perm.refl (a ∷ b ∷ l))
  | inr below ↦ rw below (Perm.trans (Perm.cons b (insert_sorted-perm a l)) (Perm.swap a b l))
]

sort_onto-perm : (sorted l : List (RwObject Schema)) → Perm (sort_onto sorted l) (l ++ sorted)
unfolding sort_onto
sort_onto-perm sorted [] = Perm.refl sorted
sort_onto-perm sorted (a ∷ l) =
    Perm.trans (sort_onto-perm (insert_sorted a sorted) l)
      (Perm.trans (Perm.append (Perm.refl l) (insert_sorted-perm a sorted)) (perm_middle l sorted))

-- `list_schemas` changes nothing and answers the rows that stand under the database's name, each as
-- often as it stands there, in descending order of the schemas' names.
list_schemas_lem :
    {x : External} (database : DatabaseIdent) (s : Metastore x)
    → (rows : List (RwObject Schema)) × (list_schemas database s ≡ (ok rows, s))
      × IsDescending rows
      × Perm rows (schema_rows database s.schemas)
unfolding list_schemas
list_schemas_lem database s =
    let rows = schema_rows database s.schemas in
    (
      sort_onto [] rows,
      refl,
      sort_onto-IsDescending [] rows tt,
      rw append-nil at (sort_onto-perm [] rows),
    )
