-- ===== src/Executor/TimeLaws.antt =====
-- What the texts and structures of times hold (crates/executor/src/utils.rs).
use rustice.Prelude.{
  Option, none, ℕ, zero, suc, ◌+◌, ◌-◌, ◌*◌, ◌/◌, ◌%◌, ◌<◌, true, false, some, ◌++◌, Text, codes, ℤ,
  pos, negsuc, show_usize, ltb, leb, digits, zeroes-show_usize, ◌≡◌, refl, arith, ap, ◌∙◌,
  Bool-cases, inl, inr,
}
use rustice.Executor.Times.{
  TimeUnit, second, millisecond, microsecond, nanosecond, Chrono, neg, show_int, ◌+ℤ◌, times,
  quotient, remainder, as_i32, format_time_string, encoded_offset, convert_time, billion, tz_to_i32,
  convert_timestamp_to_struct, nanos_of, or_zero_offset, offset_of,
}

-- The units of a second, and the digits of a fraction
abbrev pub per_second : TimeUnit → ℕ
per_second second = 1
per_second millisecond = 1000
per_second microsecond = 1000000
per_second nanosecond = 1000000000

abbrev pub fraction_text : TimeUnit → ℕ → Text
fraction_text second n = codes "000"
fraction_text millisecond n = digits 3 n
fraction_text microsecond n = digits 6 n
fraction_text nanosecond n = digits 9 n

module _ (chrono : Chrono) where
  -- What `chrono` makes of a time of `v` units
  abbrev pub IsTimeOf : TimeUnit → ℕ → chrono.DateTime → Type 0
  IsTimeOf unit v d =
      (chrono.from_timestamp unit (pos v) ≡ some d)
      × (chrono.timestamp d ≡ pos (v / per_second unit))
      × (chrono.timestamp_subsec unit d ≡ v % per_second unit)

  -- A time of the day is written as its whole seconds and, behind the dot, its fraction with exactly the
  -- digits of the column's unit: three for seconds and milliseconds, six and nine for the others.
  pub convert_time_lem :
      (unit : TimeUnit) (v : ℕ) (d : chrono.DateTime)
      → IsTimeOf unit v d
      → convert_time chrono unit (pos v)
        ≡ show_usize (v / per_second unit)
          ++ (codes "." ++ fraction_text unit (v % per_second unit))
  unfolding convert_time format_time_string show_int
  convert_time_lem second v d (from, seconds, sub) = rw from (rw seconds refl)
  convert_time_lem millisecond v d (from, seconds, sub) = rw from (
      rw seconds (
        rw sub (
          ap (λ s. show_usize (v / 1000) ++ (codes "." ++ s))
            (zeroes-show_usize 2 (v % 1000) (omega arith)))))
  convert_time_lem microsecond v d (from, seconds, sub) = rw from (
      rw seconds (
        rw sub (
          ap (λ s. show_usize (v / 1000000) ++ (codes "." ++ s))
            (zeroes-show_usize 5 (v % 1000000) (omega arith)))))
  convert_time_lem nanosecond v d (from, seconds, sub) = rw from (
      rw seconds (
        rw sub (
          ap (λ s. show_usize (v / 1000000000) ++ (codes "." ++ s))
            (zeroes-show_usize 8 (v % 1000000000) (omega arith)))))

neg-plus : (m n : ℕ) → neg m +ℤ neg n ≡ neg (m + n)
unfolding ◌+ℤ◌
neg-plus zero zero = refl
neg-plus zero (suc n) = ground arith
neg-plus (suc m) zero = ground arith
neg-plus (suc m) (suc n) = refl

times-neg : (m d : ℕ) → times (neg m) d ≡ neg (m * d)
unfolding times
times-neg zero d = let e : 0 * d ≡ 0 = omega arith in rw e refl
times-neg (suc m) d = refl

as_i32-neg : (m : ℕ) → m < billion → as_i32 (neg m) ≡ neg m
unfolding as_i32
as_i32-neg zero h = refl
as_i32-neg (suc m) h =
    let e : suc m % 4294967296 ≡ suc m = omega (arith, h) in
    let small : leb (suc m) 2147483648 ≡ true = ground (arith, h) in rw e (rw small refl)

as_i32-remainder : (z : ℤ) → as_i32 (remainder z billion) ≡ remainder z billion
unfolding as_i32 remainder
as_i32-remainder (pos n) = ground arith
as_i32-remainder (negsuc n) = as_i32-neg (suc n % billion) (omega arith)

quotient-remainder : (z : ℤ) → times (quotient z billion) billion +ℤ remainder z billion ≡ z
unfolding quotient remainder times ◌+ℤ◌
quotient-remainder (pos n) =
    let e : n / billion * billion + n % billion ≡ n = omega arith in ap pos e
quotient-remainder (negsuc n) =
    let q = suc n / billion in
    let r = suc n % billion in
    let e : q * billion + r ≡ suc n = omega arith in
    ap (λ z. z +ℤ neg r) (times-neg q billion) ∙ (neg-plus (q * billion) r ∙ ap neg e)

quotient-neg : (m : ℕ) → quotient (neg m) 60 ≡ neg (m / 60)
unfolding quotient
quotient-neg zero = refl
quotient-neg (suc m) = refl

plus-minus : (n : ℕ) → negsuc n +ℤ pos 1440 +ℤ negsuc 1439 ≡ negsuc n
unfolding ◌+ℤ◌
plus-minus n = elim (Bool-cases (ltb n 1440)) [
  | inl small ↦
      let back : ltb 1439 (1440 - suc n) ≡ false = ground arith in
      let e : 1440 - (1440 - suc n) ≡ suc n = ground (arith, small) in
      rw small (rw back (rw e refl))
  | inr large ↦
      let e : suc n - 1440 + 1440 ≡ suc n = ground (arith, large) in
      rw large (neg-plus (suc n - 1440) 1440 ∙ ap neg e)
]

encoded_offset-times : (minutes : ℤ) → encoded_offset (times minutes 60) +ℤ negsuc 1439 ≡ minutes
unfolding encoded_offset times quotient ◌+ℤ◌
encoded_offset-times (pos n) = ground arith
encoded_offset-times (negsuc n) =
    let e : suc n * 60 / 60 ≡ suc n = omega arith in
    ap (λ z. z +ℤ pos 1440 +ℤ negsuc 1439) (quotient-neg (suc n * 60) ∙ ap neg e) ∙ plus-minus n

-- The offset that is read back: `utc`, or that of the zone where there is one
abbrev pub kept_offset {ℓ} : {A : Type ℓ} → A → Option A → ℤ → A
kept_offset utc found (pos zero) = utc
kept_offset utc (some offset) nanos = offset
kept_offset utc none nanos = utc

module _ {FixedOffset : Type 0} (east_opt : ℤ → Option FixedOffset) (utc : FixedOffset)
    (zero_offset : east_opt (pos 0) ≡ some utc) where
  kept :
      (found : Option FixedOffset) (minutes nanos : ℤ)
      → east_opt (times minutes 60) ≡ found
      → offset_of east_opt (convert_timestamp_to_struct (some (times minutes 60)) nanos)
        ≡ some (kept_offset utc found nanos)
  unfolding offset_of or_zero_offset convert_timestamp_to_struct tz_to_i32
  kept found minutes (pos zero) e = unfold ◌+ℤ◌ times in rw zero_offset refl
  kept (some o) minutes (pos (suc n)) e = rw (encoded_offset-times minutes) (rw e refl)
  kept none minutes (pos (suc n)) e = rw (encoded_offset-times minutes) (rw e zero_offset)
  kept (some o) minutes (negsuc n) e = rw (encoded_offset-times minutes) (rw e refl)
  kept none minutes (negsuc n) e = rw (encoded_offset-times minutes) (rw e zero_offset)

  -- The structure of a timestamp is read back as the same nanoseconds, also before the epoch. A zone's
  -- offset of whole minutes is read back as the same offset, or in UTC where `east_opt` has none for it;
  -- the epoch itself is read back in UTC in every zone. That `east_opt` has an offset of no seconds is asked.
  pub convert_timestamp_to_struct_lem :
      (minutes nanos : ℤ)
      → let s = convert_timestamp_to_struct (some (times minutes 60)) nanos in
        (nanos_of s ≡ nanos)
        × (offset_of east_opt s ≡ some (kept_offset utc (east_opt (times minutes 60)) nanos))
  unfolding nanos_of convert_timestamp_to_struct
  convert_timestamp_to_struct_lem minutes nanos = (
    ap (λ f. times (quotient nanos billion) billion +ℤ f) (as_i32-remainder nanos)
        ∙ quotient-remainder nanos,
    kept (east_opt (times minutes 60)) minutes nanos refl,
  )
