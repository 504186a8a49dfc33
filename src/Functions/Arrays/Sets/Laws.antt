-- ===== src/Functions/Arrays/Sets/Laws.antt =====
-- Distinct items, and the items of one array inside and outside another
-- (crates/functions/src/semi-structured/array).
use rustice.Prelude.{
  subst, sym, ◌+◌, Bool, true, false, some, not, ◌||◌, ◌≡◌, refl, arith, ap, ◌∙◌, Bool-cases, inl,
  inr,
}
use rustice.Functions.Json.{Value, array, Items, nil, cons}
use rustice.Functions.Arrays.{len}
use rustice.Functions.Arrays.Sets.{filter_items, contains, distinct_from, distinct_value}

abbrev AllItems : (Value → Type 0) → Items → Type 0
AllItems P nil = Unit {0}
AllItems P (cons v vs) = P v × AllItems P vs

-- No item equals a later one.
abbrev pub IsDistinct : (Value → Value → Bool) → Items → Type 0
IsDistinct eq nil = Unit {0}
IsDistinct eq (cons v vs) = AllItems (λ w. eq v w ≡ false) vs × IsDistinct eq vs

AllItems-map :
    {P Q : Value → Type 0}
    → ((v : Value) → P v → Q v)
    → (vs : Items) → AllItems P vs
    → AllItems Q vs
AllItems-map f nil h = tt
AllItems-map f (cons v vs) h = (f v h.0, AllItems-map f vs h.1)

module _ (eq : Value → Value → Bool) where
  distinct_from_seen :
      (seen : Items) (v : Value) (vs : Items)
      → contains eq seen v ≡ true
      → distinct_from eq seen (cons v vs) ≡ distinct_from eq seen vs
  unfolding distinct_from
  distinct_from_seen seen v vs h = ground (arith, h)

  distinct_from_nil : (seen : Items) → distinct_from eq seen nil ≡ nil
  unfolding distinct_from
  distinct_from_nil seen = refl

  distinct_from_new :
      (seen : Items) (v : Value) (vs : Items)
      → contains eq seen v ≡ false
      → distinct_from eq seen (cons v vs) ≡ cons v (distinct_from eq (cons v seen) vs)
  unfolding distinct_from
  distinct_from_new seen v vs h = ground (arith, h)

  contains_cons :
      (seen : Items) (v w : Value)
      → contains eq (cons v seen) w ≡ false
      → (eq v w ≡ false) × (contains eq seen w ≡ false)
  unfolding contains
  contains_cons seen v w h = elim (Bool-cases (eq v w)) [
    | inl e ↦ absurd (ground (arith, h, e))
    | inr e ↦ (e, ground (arith, h, e))
  ]

  -- What is pushed has not been seen before.
  distinct_from-unseen :
      (seen vs : Items) → AllItems (λ w. contains eq seen w ≡ false) (distinct_from eq seen vs)
  distinct_from-unseen seen nil =
      subst (AllItems (λ w. contains eq seen w ≡ false)) (sym (distinct_from_nil seen)) tt
  distinct_from-unseen seen (cons v vs) = elim (Bool-cases (contains eq seen v)) [
    | inl h ↦
        subst (AllItems (λ w. contains eq seen w ≡ false)) (sym (distinct_from_seen seen v vs h))
          (distinct_from-unseen seen vs)
    | inr h ↦
        subst (AllItems (λ w. contains eq seen w ≡ false)) (sym (distinct_from_new seen v vs h)) (
          h,
          AllItems-map (λ w k. (contains_cons seen v w k).1) (distinct_from eq (cons v seen) vs)
              (distinct_from-unseen (cons v seen) vs),
        )
  ]

  distinct_from-IsDistinct : (seen vs : Items) → IsDistinct eq (distinct_from eq seen vs)
  distinct_from-IsDistinct seen nil = subst (IsDistinct eq) (sym (distinct_from_nil seen)) tt
  distinct_from-IsDistinct seen (cons v vs) = elim (Bool-cases (contains eq seen v)) [
    | inl h ↦
        subst (IsDistinct eq) (sym (distinct_from_seen seen v vs h))
          (distinct_from-IsDistinct seen vs)
    | inr h ↦ subst (IsDistinct eq) (sym (distinct_from_new seen v vs h)) (
      AllItems-map (λ w k. (contains_cons seen v w k).0) (distinct_from eq (cons v seen) vs)
          (distinct_from-unseen (cons v seen) vs),
      distinct_from-IsDistinct (cons v seen) vs,
    )
  ]

  module _ (trans : (u v w : Value) → eq u v ≡ true → eq v w ≡ true → eq u w ≡ true) where
    contains_trans :
        (seen : Items) (v x : Value)
        → contains eq seen v ≡ true
        → eq v x ≡ true
        → contains eq seen x ≡ true
    unfolding contains
    contains_trans nil v x h k = absurd (ground (arith, h))
    contains_trans (cons u seen) v x h k = elim (Bool-cases (eq u v)) [
      | inl e ↦ rw (trans u v x e k) refl
      | inr e ↦ ground (arith, e, h, k, contains_trans seen v x)
    ]

    -- A value that equals one that has been seen has been seen.
    absorb :
        (seen : Items) (v x : Value) (b : Bool)
        → contains eq seen v ≡ true
        → (contains eq seen x || b) ≡ (contains eq seen x || (eq v x || b))
    absorb seen v x b h = elim (Bool-cases (eq v x)) [
      | inl e ↦ rw (contains_trans seen v x h e) refl
      | inr e ↦ rw e refl
    ]

    swap_or :
        (a b c d : Bool) → ((a || b) || c) ≡ ((a || b) || d) → (b || (a || c)) ≡ (b || (a || d))
    swap_or true true c d h = refl
    swap_or true false c d h = refl
    swap_or false true c d h = refl
    swap_or false false c d h = h

    absorb_cons :
        (seen : Items) (v x : Value) (vs : Items)
        → contains eq seen v ≡ true
        → (contains eq seen x || contains eq vs x)
          ≡ (contains eq seen x || contains eq (cons v vs) x)
    unfolding contains
    absorb_cons seen v x vs h = absorb seen v x (contains eq vs x) h

    swap_cons :
        (seen : Items) (v x : Value) (vs : Items)
        → (contains eq (cons v seen) x || contains eq (distinct_from eq (cons v seen) vs) x)
          ≡ (contains eq (cons v seen) x || contains eq vs x)
        → (contains eq seen x || contains eq (cons v (distinct_from eq (cons v seen) vs)) x)
          ≡ (contains eq seen x || contains eq (cons v vs) x)
    unfolding contains
    swap_cons seen v x vs h =
        swap_or (eq v x) (contains eq seen x) (contains eq (distinct_from eq (cons v seen) vs) x)
          (contains eq vs x) h

    contains-distinct_from :
        (seen vs : Items) (x : Value)
        → (contains eq seen x || contains eq (distinct_from eq seen vs) x)
          ≡ (contains eq seen x || contains eq vs x)
    contains-distinct_from seen nil x =
        ap (λ ws. contains eq seen x || contains eq ws x) (distinct_from_nil seen)
    contains-distinct_from seen (cons v vs) x = elim (Bool-cases (contains eq seen v)) [
      | inl h ↦
          ap (λ ws. contains eq seen x || contains eq ws x) (distinct_from_seen seen v vs h)
          ∙ contains-distinct_from seen vs x
          ∙ absorb_cons seen v x vs h
      | inr h ↦
          ap (λ ws. contains eq seen x || contains eq ws x) (distinct_from_new seen v vs h)
          ∙ swap_cons seen v x vs (contains-distinct_from (cons v seen) vs x)
    ]

  -- The items of one array that stand in another and those that do not are all items of the first.
  len_partition :
      (vs ws : Items)
      → len (filter_items (contains eq ws) vs) + len (filter_items (λ v. not (contains eq ws v)) vs)
        ≡ len vs
  unfolding filter_items len
  len_partition nil ws = refl
  len_partition (cons v vs) ws = ground (arith, len_partition vs ws)

-- Where equality is transitive, array_distinct keeps the values of an array as they are: a value is in
-- the result exactly when it is in the array. In the result no item equals a later one.
pub contains-distinct_value :
    (eq : Value → Value → Bool)
    → ((u v w : Value) → eq u v ≡ true → eq v w ≡ true → eq u w ≡ true)
    → (vs : Items) (x : Value)
    → (result : Items) × (distinct_value eq (array vs) ≡ some result)
      × (contains eq result x ≡ contains eq vs x)
      × IsDistinct eq result
unfolding distinct_value contains
contains-distinct_value eq trans vs x = (
  distinct_from eq nil vs,
  refl,
  contains-distinct_from eq trans nil vs x,
  distinct_from-IsDistinct eq nil vs,
)
