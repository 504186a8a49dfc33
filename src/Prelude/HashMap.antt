-- ===== src/Prelude/HashMap.antt =====
-- `HashMap` and `DashMap` as association lists with at most one entry for a key. The order of the
-- entries stands for the unspecified order of iteration.
use Prim.Native.Nat.{◌+◌, ◌≤◌}
use mathlib.Core.Path.{◌≡◌, refl}
use mathlib.Core.Bool.{Bool, true, false, ◌&&◌, ◌||◌}
use mathlib.Core.Option.{Option, none, some}
use mathlib.Core.List.{List, [], ◌∷◌}
use native.Mathlib.Omega.{arith}
use rustice.Prelude.Tests.{if◌then◌else◌, is_some}
use rustice.Prelude.Lists.{filter, any, length}
use rustice.Prelude.Instances.{HashKey, ◌==◌}

abbrev pub HashMap {ℓ κ} : Type ℓ → Type κ → Type (ℓ ⊔ κ)
HashMap K V = List (K × V)

module _ {ℓ κ} {K : Type ℓ} {V : Type κ} where
  abbrev pub keys : HashMap K V → List K
  keys [] = []
  keys ((k, v) ∷ m) = k ∷ keys m

  abbrev pub values : HashMap K V → List V
  values [] = []
  values ((k, v) ∷ m) = v ∷ values m

  unfoldable pub retain : (K → V → Bool) → HashMap K V → HashMap K V
  retain p [] = []
  retain p ((k, v) ∷ m) = let rest = retain p m in if p k v then (k, v) ∷ rest else rest

module _ {ℓ κ} {K : Type ℓ} {V : Type κ} ⦃e : HashKey K⦄ where
  unfoldable pub get : K → HashMap K V → Option V
  get j [] = none
  get j ((k, v) ∷ m) = if k == j then some v else get j m

  abbrev pub contains_key : K → HashMap K V → Bool
  contains_key j m = is_some (get j m)

  unfoldable pub insert : K → V → HashMap K V → HashMap K V
  insert j w [] = (j, w) ∷ []
  insert j w ((k, v) ∷ m) = if k == j then (j, w) ∷ m else (k, v) ∷ insert j w m

  unfoldable pub remove : K → HashMap K V → HashMap K V
  remove j [] = []
  remove j ((k, v) ∷ m) = let rest = remove j m in if k == j then rest else (k, v) ∷ rest

  -- `for k in ks { m.remove(&k) }`
  unfoldable pub remove_all : List K → HashMap K V → HashMap K V
  remove_all [] m = m
  remove_all (k ∷ ks) m = remove_all ks (remove k m)

  pub get-insert :
      (k j : K) (v : V) (m : HashMap K V)
      → get j (insert k v m) ≡ (if k == j then some v else get j m)
  unfolding get insert
  get-insert k j v [] = refl
  get-insert k j v ((i, w) ∷ m) =
      ground (arith, e.same_iff k j, e.same_iff i k, e.same_iff i j, get-insert k j v m)

  pub get-remove :
      (k j : K) (m : HashMap K V) → get j (remove k m) ≡ (if k == j then none else get j m)
  unfolding get remove
  get-remove k j [] = ground arith
  get-remove k j ((i, w) ∷ m) =
      ground (arith, e.same_iff k j, e.same_iff i k, e.same_iff i j, get-remove k j m)

  pub get-remove_all :
      (ks : List K) (j : K) (m : HashMap K V)
      → get j (remove_all ks m) ≡ (if any (λ k. k == j) ks then none else get j m)
  unfolding remove_all
  get-remove_all [] j m = refl
  get-remove_all (k ∷ ks) j m = ground (arith, get-remove_all ks j (remove k m), get-remove k j m)

  -- A key of the map that passes the test is among those collected.
  any-filter-keys :
      (p : K → Bool) (j : K) (m : HashMap K V)
      → any (λ k. k == j) (filter p (keys m)) ≡ (p j && contains_key j m)
  unfolding get
  any-filter-keys p j [] = ground arith
  any-filter-keys p j ((k, v) ∷ m) = ground (arith, any-filter-keys p j m, e.same_iff k j)

  -- Removing the collected keys that pass a test removes the entries that pass it.
  pub get-remove_all-filter :
      (p : K → Bool) (j : K) (m : HashMap K V)
      → get j (remove_all (filter p (keys m)) m) ≡ (if p j then none else get j m)
  get-remove_all-filter p j m =
      ground (arith, get-remove_all (filter p (keys m)) j m, any-filter-keys p j m)

  -- Each key has one entry.
  abbrev pub Unique : HashMap K V → Type 0
  Unique [] = Unit {0}
  Unique ((k, v) ∷ m) = (contains_key k m ≡ false) × Unique m

  pub contains-insert :
      (k j : K) (v : V) (m : HashMap K V)
      → contains_key j (insert k v m) ≡ (k == j || contains_key j m)
  contains-insert k j v m = ground (arith, get-insert k j v m)

  pub insert_there : (k : K) (v : V) (m : HashMap K V) → contains_key k (insert k v m) ≡ true
  insert_there k v m = ground (arith, contains-insert k k v m, e.same_iff k k)

  -- Putting a value in again changes nothing.
  pub insert-get : (k : K) (v : V) (m : HashMap K V) → get k m ≡ some v → insert k v m ≡ m
  unfolding insert get
  insert-get k v [] h = cc
  insert-get k v ((j, w) ∷ m) h = ground (arith, e.same_iff j k, insert-get k v m)

  pub insert_keeps :
      (k j : K) (v : V) (m : HashMap K V)
      → contains_key j m ≡ true
      → contains_key j (insert k v m) ≡ true
  insert_keeps k j v m h = ground (arith, contains-insert k j v m, h)

  pub insert-Unique : (k : K) (v : V) (m : HashMap K V) → Unique m → Unique (insert k v m)
  unfolding insert get
  insert-Unique k v [] h = (refl, tt)
  insert-Unique k v ((j, w) ∷ m) h =
      ground
        (arith, insert-Unique k v m h.1, contains-insert k j v m, e.same_iff j k, e.same_iff k j)

  pub remove-Unique : (k : K) (m : HashMap K V) → Unique m → Unique (remove k m)
  unfolding remove
  remove-Unique k [] h = tt
  remove-Unique k ((j, w) ∷ m) h = ground (arith, remove-Unique k m h.1, get-remove k j m)

  pub contains-retain :
      (p : K → V → Bool) (j : K) (m : HashMap K V)
      → contains_key j m ≡ false
      → contains_key j (retain p m) ≡ false
  unfolding get retain
  contains-retain p j [] h = refl
  contains-retain p j ((k, v) ∷ m) h = ground (arith, contains-retain p j m)

  pub retain-Unique : (p : K → V → Bool) (m : HashMap K V) → Unique m → Unique (retain p m)
  unfolding retain
  retain-Unique p [] h = tt
  retain-Unique p ((j, w) ∷ m) h = ground (arith, retain-Unique p m h.1, contains-retain p j m h.0)

  -- `retain` keeps the entries that pass the test.
  pub get-retain :
      (p : K → V → Bool) (j : K) (m : HashMap K V)
      → Unique m
      → get j (retain p m)
        ≡ elim (get j m) [ none ↦ none | some v ↦ if p j v then some v else none ]
  unfolding get retain
  get-retain p j [] h = refl
  get-retain p j ((k, v) ∷ m) h =
      ground (arith, get-retain p j m h.1, contains-retain p k m h.0, e.same_iff k j)

  pub length-insert :
      (k : K) (v : V) (m : HashMap K V)
      → length (insert k v m) ≡ (if contains_key k m then length m else length m + 1)
  unfolding insert get
  length-insert k v [] = omega arith
  length-insert k v ((j, w) ∷ m) = ground (arith, length-insert k v m)

  pub length-remove-le : (k : K) (m : HashMap K V) → length (remove k m) ≤ length m
  unfolding remove
  length-remove-le k [] = omega arith
  length-remove-le k ((j, w) ∷ m) = ground (arith, length-remove-le k m)
