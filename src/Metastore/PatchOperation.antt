-- ===== src/Metastore/PatchOperation.antt =====
-- `patch_missing_operation` (crates/catalog-metastore/src/metastore_bootstrap_config.rs) on JSON values
-- whose objects keep the order of insertion.
use mathlib.Core.Option.{some-injective}
use rustice.Prelude.{
  subst, true, Option, none, some, Text, codes, text_beq, text_beq_iff, if◌then◌else◌, is_some, ◌≡◌,
  refl, arith, Option-cases, inl, inr, Bool-cases,
}
use rustice.Functions.Json.{
  Value, null, bool, number, string, array, object, Items, nil, cons, Entries, end, entry, lookup,
}

-- What a change of a value makes of it, or `none` for an error.
abbrev pub Change : Type 0
Change = Value → Option Value

abbrev some_entry : Text → Value → Option Entries → Option Entries
some_entry k v none = none
some_entry k v (some es) = some (entry k v es)

abbrev first_entry : Text → Entries → Option Value → Option Entries
first_entry k es none = none
first_entry k es (some v) = some (entry k v es)

abbrev some_item : Value → Option Items → Option Items
some_item v none = none
some_item v (some vs) = some (cons v vs)

abbrev cons_item : Option Value → Option Items → Option Items
cons_item none vs = none
cons_item (some v) vs = some_item v vs

abbrev map_array : Option Items → Option Value
map_array none = none
map_array (some vs) = some (array vs)

abbrev map_object : Option Entries → Option Value
map_object none = none
map_object (some es) = some (object es)

-- `if let Some(v) = value.get_mut(k)`: the value under the key, changed in its place.
unfoldable pub change_entry : Text → Change → Entries → Option Entries
change_entry k f end = some end
change_entry k f (entry j v es) =
    if text_beq j k then first_entry j es (f v) else some_entry j v (change_entry k f es)

unfoldable pub get_mut : Text → Change → Change
get_mut k f (object es) = map_object (change_entry k f es)
get_mut k f v = some v

-- `as_array_mut`, and the loop over it, which ends at the first error.
unfoldable pub change_items : Change → Items → Option Items
change_items f nil = some nil
change_items f (cons v vs) = cons_item (f v) (change_items f vs)

unfoldable pub as_array_mut : Change → Change
as_array_mut f (array vs) = map_array (change_items f vs)
as_array_mut f v = some v

-- `Map::insert` of a key that is not there.
unfoldable pub push_entry : Text → Value → Entries → Entries
push_entry k v end = entry k v end
push_entry k v (entry j w es) = entry j w (push_entry k v es)

unfoldable pub patch_summary : Change
patch_summary (object es) =
    if is_some (lookup (codes "operation") es)
    then some (object es)
    else some (object (push_entry (codes "operation") (string (codes "append")) es))
patch_summary v = none

unfoldable pub patch_missing_operation : Change
patch_missing_operation =
    get_mut (codes "snapshots") (as_array_mut (get_mut (codes "summary") patch_summary))

-- What a change leaves is left as it is when it is made again.
abbrev Settles : Change → Type 0
Settles f = (v w : Value) → f v ≡ some w → f w ≡ some w

lookup-push_entry :
    (k : Text) (v : Value) (es : Entries) → is_some (lookup k (push_entry k v es)) ≡ true
unfolding lookup push_entry
lookup-push_entry k v end = ground (arith, text_beq_iff k k)
lookup-push_entry k v (entry j w es) = ground (arith, lookup-push_entry k v es)

patch_summary-Settles : Settles patch_summary
unfolding patch_summary
patch_summary-Settles (object es) w h =
    elim (Bool-cases (is_some (lookup (codes "operation") es))) [
      | inl there ↦ ground (arith, there, h)
      | inr missing ↦
          let pushed = push_entry (codes "operation") (string (codes "append")) es in
          let e : some (object pushed) ≡ some w = rw missing at h in
          subst (λ u. patch_summary u ≡ some u) (some-injective (object pushed) w e)
            (ground (arith, lookup-push_entry (codes "operation") (string (codes "append")) es))
    ]
patch_summary-Settles null w h = absurd (cc h)
patch_summary-Settles (bool b) w h = absurd (cc h)
patch_summary-Settles (number n) w h = absurd (cc h)
patch_summary-Settles (string s) w h = absurd (cc h)
patch_summary-Settles (array vs) w h = absurd (cc h)

change_entry-again :
    (k : Text) (f : Change) (es ds : Entries)
    → Settles f
    → change_entry k f es ≡ some ds
    → change_entry k f ds ≡ some ds
unfolding change_entry
change_entry-again k f end ds s h =
    subst (λ u. change_entry k f u ≡ some u) (some-injective end ds h) refl
change_entry-again k f (entry j v es) ds s h = elim (Bool-cases (text_beq j k)) [
  | inl same ↦ elim (Option-cases (f v)) [
    | inl failed ↦ absurd (ground (arith, same, failed, h))
    | inr (w, changed) ↦ ground (arith, same, changed, h, s v w changed)
  ]
  | inr other ↦ elim (Option-cases (change_entry k f es)) [
    | inl failed ↦ absurd (ground (arith, other, failed, h))
    | inr (rest, changed) ↦
        ground (arith, other, changed, h, change_entry-again k f es rest s changed)
  ]
]

change_items-again :
    (f : Change) (vs ws : Items)
    → Settles f
    → change_items f vs ≡ some ws
    → change_items f ws ≡ some ws
unfolding change_items
change_items-again f nil ws s h =
    subst (λ u. change_items f u ≡ some u) (some-injective nil ws h) refl
change_items-again f (cons v vs) ws s h = elim (Option-cases (f v)) [
  | inl failed ↦ absurd (ground (arith, failed, h))
  | inr (w, changed) ↦ elim (Option-cases (change_items f vs)) [
    | inl failed ↦ absurd (ground (arith, failed, changed, h))
    | inr (rest, done) ↦
        ground (arith, changed, done, h, s v w changed, change_items-again f vs rest s done)
  ]
]

get_mut-Settles : (k : Text) (f : Change) → Settles f → Settles (get_mut k f)
unfolding get_mut
get_mut-Settles k f s (object es) w h = elim (Option-cases (change_entry k f es)) [
  | inl failed ↦ absurd (ground (arith, failed, h))
  | inr (ds, changed) ↦ ground (arith, changed, h, change_entry-again k f es ds s changed)
]
get_mut-Settles k f s null w h = cc h
get_mut-Settles k f s (bool b) w h = cc h
get_mut-Settles k f s (number n) w h = cc h
get_mut-Settles k f s (string t) w h = cc h
get_mut-Settles k f s (array vs) w h = cc h

as_array_mut-Settles : (f : Change) → Settles f → Settles (as_array_mut f)
unfolding as_array_mut
as_array_mut-Settles f s (array vs) w h = elim (Option-cases (change_items f vs)) [
  | inl failed ↦ absurd (ground (arith, failed, h))
  | inr (ws, changed) ↦ ground (arith, changed, h, change_items-again f vs ws s changed)
]
as_array_mut-Settles f s null w h = cc h
as_array_mut-Settles f s (bool b) w h = cc h
as_array_mut-Settles f s (number n) w h = cc h
as_array_mut-Settles f s (string t) w h = cc h
as_array_mut-Settles f s (object es) w h = cc h

-- Patched metadata is left as it is when it is patched again.
pub patch_missing_operation-again :
    (v w : Value) → patch_missing_operation v ≡ some w → patch_missing_operation w ≡ some w
unfolding patch_missing_operation
patch_missing_operation-again =
    get_mut-Settles (codes "snapshots") _
      (as_array_mut-Settles _ (get_mut-Settles (codes "summary") _ patch_summary-Settles))
