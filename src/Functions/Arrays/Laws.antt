-- ===== src/Functions/Arrays/Laws.antt =====
-- Inserting, removing and slicing (crates/functions/src/semi-structured/array: array_insert.rs,
-- array_remove_at.rs, array_slice.rs).
use rustice.Prelude.{
  ℕ, zero, suc, ◌+◌, ◌-◌, ◌≤◌, ◌<◌, some, ℤ, pos, negsuc, ◌≡◌, refl, arith, ap, sym, ◌∙◌, ltb, true,
}
use rustice.Functions.Json.{Value, array, Items, nil, cons}
use rustice.Functions.Arrays.{
  ok, len, insert_at, remove_at, take_items, drop_items, items_between, actual_index, max_zero,
  insert_value, remove_index, remove_at_position, slice_indices, slice_array,
}

remove_at-insert_at :
    (i : ℕ) (x : Value) (vs : Items) → i ≤ len vs → remove_at i (insert_at i x vs) ≡ vs
unfolding remove_at insert_at len
remove_at-insert_at zero x vs h = refl
remove_at-insert_at (suc i) x nil h = absurd (omega (arith, h))
remove_at-insert_at (suc i) x (cons v vs) h =
    ap (cons v) (remove_at-insert_at i x vs (omega (arith, h)))

len-insert_at : (i : ℕ) (x : Value) (vs : Items) → i ≤ len vs → len (insert_at i x vs) ≡ len vs + 1
unfolding insert_at len
len-insert_at zero x vs h = omega arith
len-insert_at (suc i) x nil h = absurd (omega (arith, h))
len-insert_at (suc i) x (cons v vs) h = omega (arith, len-insert_at i x vs (omega (arith, h)))

-- To remove at the index of an inserted element gives the old array back.
remove_inserted :
    (i : ℕ) (x : Value) (vs : Items)
    → i ≤ len vs
    → remove_at_position (array (insert_at i x vs)) (pos i) ≡ ok (some vs)
unfolding remove_at_position remove_index actual_index
remove_inserted i x vs h =
    let e = remove_at-insert_at i x vs h in
    let l = len-insert_at i x vs h in ground (arith, e, l, h)

-- The items before an index, the element, and the items from the index on
abbrev append_items : Items → Items → Items
append_items nil us = us
append_items (cons v vs) us = cons v (append_items vs us)

abbrev pub with_element : ℕ → Value → Items → Items
with_element i x vs = append_items (take_items i vs) (cons x (drop_items i vs))

insert_at-with_element :
    (i : ℕ) (x : Value) (vs : Items) → i ≤ len vs → insert_at i x vs ≡ with_element i x vs
unfolding insert_at len take_items drop_items
insert_at-with_element zero x vs h = refl
insert_at-with_element (suc i) x nil h = absurd (omega (arith, h))
insert_at-with_element (suc i) x (cons v vs) h =
    ap (cons v) (insert_at-with_element i x vs (omega (arith, h)))

-- The index that a position means in an array: from 0 at the front, or from -1 for the last item, and the
-- front for all positions before it
abbrev pub index_of : ℤ → ℕ → ℕ
index_of (pos i) n = i
index_of (negsuc k) n = n - (k + 1)

max_zero-actual_index :
    (position : ℤ) (n : ℕ) → max_zero (actual_index position n) ≡ index_of position n
unfolding max_zero actual_index
max_zero-actual_index (pos i) n = refl
max_zero-actual_index (negsuc k) n = ground arith

-- The same item by its position from the end
remove_from_end :
    (i : ℕ) (x : Value) (vs : Items)
    → i ≤ len vs
    → remove_at_position (array (insert_at i x vs)) (negsuc (len vs - i)) ≡ ok (some vs)
unfolding remove_at_position remove_index actual_index
remove_from_end i x vs h =
    let e = remove_at-insert_at i x vs h in
    let l = len-insert_at i x vs h in
    let there : ltb (len vs - i) (len vs + 1) ≡ true = ground (arith, h) in
    let back : len vs + 1 - (len vs - i + 1) ≡ i = omega (arith, h) in
    let inside : ltb i (len vs + 1) ≡ true = ground (arith, h) in
    rw l (rw there (rw back (rw l (rw inside (rw e refl)))))

-- The position of an insertion counts from 0 at the front, or from -1 for the last item of the array; one
-- that is before the front counts as the front. Where it is not behind the end, the result has the items
-- before it, then the element, then the others, and to remove the element there, by its position from the
-- front or from the end, gives the old array back.
pub remove_at_position-insert_value :
    (position : ℤ) (element : Value) (vs : Items)
    → index_of position (len vs) ≤ len vs
    → let i = index_of position (len vs) in
      (insert_value (array vs) position element ≡ ok (with_element i element vs))
      × (remove_at_position (array (with_element i element vs)) (pos i) ≡ ok (some vs))
      × (remove_at_position (array (with_element i element vs)) (negsuc (len vs - i))
          ≡ ok (some vs))
unfolding insert_value
remove_at_position-insert_value position element vs h =
    let i : ℕ = index_of position (len vs) in
    let e = insert_at-with_element i element vs h in
    (
      rw (max_zero-actual_index position (len vs)) (ground (arith, h, e)),
      ap (λ us. remove_at_position (array us) (pos i)) (sym e) ∙ remove_inserted i element vs h,
      ap (λ us. remove_at_position (array us) (negsuc (len vs - i))) (sym e)
          ∙ remove_from_end i element vs h,
    )

len-drop_items : (n : ℕ) (vs : Items) → n ≤ len vs → len (drop_items n vs) ≡ len vs - n
unfolding drop_items len
len-drop_items zero vs h = omega arith
len-drop_items (suc n) nil h = omega arith
len-drop_items (suc n) (cons v vs) h = omega (arith, len-drop_items n vs (omega (arith, h)))

len-take_items : (n : ℕ) (vs : Items) → n ≤ len vs → len (take_items n vs) ≡ n
unfolding take_items len
len-take_items zero vs h = refl
len-take_items (suc n) nil h = omega (arith, h)
len-take_items (suc n) (cons v vs) h = omega (arith, len-take_items n vs (omega (arith, h)))

-- A slice within the array has as many items as there are from the one index to the other.
slice_array-len :
    (from to : ℕ) (vs : Items)
    → from < len vs
    → from ≤ to
    → to ≤ len vs
    → (result : Items) × (slice_array (array vs) (pos from) (pos to) ≡ ok (some result))
      × (len result + from ≡ to)
unfolding slice_array slice_indices actual_index items_between
slice_array-len from to vs h k m =
    let d = len-drop_items from vs (omega (arith, h)) in
    let t = len-take_items (to - from) (drop_items from vs) (omega (arith, h, k, m, d)) in
    (items_between from to vs, ground (arith, h, k, m), omega (arith, t, k))
