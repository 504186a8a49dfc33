-- ===== src/Executor/Times.antt =====
-- The timestamps and times of query results as texts and as structures (crates/executor/src/utils.rs). An
-- item of an array is a value here; a null stays a null. `chrono` is the record `Chrono`.
use rustice.Prelude.{
  ℕ, zero, suc, ◌+◌, ◌-◌, ◌*◌, ◌/◌, ◌%◌, Option, none, some, ◌++◌, Text, codes, ℤ, pos, negsuc,
  show_usize, length, if◌then◌else◌, ltb, leb, zeroes,
}

pub data TimeUnit : Type 0 where
  second millisecond microsecond nanosecond : TimeUnit

-- `DateTime`: `from_timestamp` by unit, `timestamp`, and `timestamp_subsec_…` by unit
pub record Chrono : Type 1 where
  pub DateTime : Type 0
  pub default : DateTime
  pub from_timestamp : TimeUnit → ℤ → Option DateTime
  pub timestamp : DateTime → ℤ
  pub timestamp_subsec : TimeUnit → DateTime → ℕ

-- The number with a sign, of zero or below
abbrev pub neg : ℕ → ℤ
neg zero = pos 0
neg (suc n) = negsuc n

unfoldable pub show_int : ℤ → Text
show_int (pos n) = show_usize n
show_int (negsuc n) = codes "-" ++ show_usize (suc n)

-- Sums, and products, quotients and remainders by a positive number, with the signs of Rust
infixl 20 ◌+ℤ◌
unfoldable pub ◌+ℤ◌ : ℤ → ℤ → ℤ
pos m +ℤ pos n = pos (m + n)
pos m +ℤ negsuc n = if ltb n m then pos (m - suc n) else neg (suc n - m)
negsuc m +ℤ pos n = if ltb m n then pos (n - suc m) else neg (suc m - n)
negsuc m +ℤ negsuc n = neg (suc m + suc n)

unfoldable pub times : ℤ → ℕ → ℤ
times (pos n) d = pos (n * d)
times (negsuc n) d = neg (suc n * d)

unfoldable pub quotient : ℤ → ℕ → ℤ
quotient (pos n) d = pos (n / d)
quotient (negsuc n) d = neg (suc n / d)

unfoldable pub remainder : ℤ → ℕ → ℤ
remainder (pos n) d = pos (n % d)
remainder (negsuc n) d = neg (suc n % d)

-- A cast to `i32`: two's complement
unfoldable pub as_i32 : ℤ → ℤ
as_i32 (pos n) = let m = n % 4294967296 in if ltb m 2147483648 then pos m else neg (4294967296 - m)
as_i32 (negsuc n) =
    let m = suc n % 4294967296 in if leb m 2147483648 then neg m else pos (4294967296 - m)

unfoldable pub format_time_string : ℤ → Text → ℕ → Text
format_time_string timestamp sub_str scale =
    show_int timestamp ++ (codes "." ++ (zeroes (scale - length sub_str) ++ sub_str))

-- `local_minus_utc() / 60 + 1440`
unfoldable pub encoded_offset : ℤ → ℤ
encoded_offset local_minus_utc = quotient local_minus_utc 60 +ℤ pos 1440

module _ (chrono : Chrono) where
  abbrev or_default : Option chrono.DateTime → chrono.DateTime
  or_default none = chrono.default
  or_default (some d) = d

  -- One value of a column of times, as JSON
  unfoldable pub convert_time : TimeUnit → ℤ → Text
  convert_time second ts =
      format_time_string (chrono.timestamp (or_default (chrono.from_timestamp second ts)))
        (codes "000") 0
  convert_time millisecond ts =
      let d = or_default (chrono.from_timestamp millisecond ts) in
      format_time_string (chrono.timestamp d) (show_usize (chrono.timestamp_subsec millisecond d)) 3
  convert_time microsecond ts =
      let d = or_default (chrono.from_timestamp microsecond ts) in
      format_time_string (chrono.timestamp d) (show_usize (chrono.timestamp_subsec microsecond d)) 6
  convert_time nanosecond ts =
      let d = or_default (chrono.from_timestamp nanosecond ts) in
      format_time_string (chrono.timestamp d) (show_usize (chrono.timestamp_subsec nanosecond d)) 9

  -- One timestamp as JSON, with the encoded offset of the time zone where there is one
  abbrev with_offset : Option ℤ → Text → Text
  with_offset none text = text
  with_offset (some tz) text = text ++ (codes " " ++ show_int tz)

  unfoldable pub timestamp_text : TimeUnit → chrono.DateTime → Text
  timestamp_text second d = show_int (chrono.timestamp d)
  timestamp_text unit d =
      show_int (chrono.timestamp d) ++ (codes "." ++ show_usize (chrono.timestamp_subsec unit d))

  unfoldable pub convert_timestamp : TimeUnit → Option ℤ → ℤ → Text
  convert_timestamp unit tz_encoded ts =
      with_offset tz_encoded (timestamp_text unit (or_default (chrono.from_timestamp unit ts)))

-- The structure of a timestamp with a time zone; the offset is that of the zone, where it is known.
pub record TimestampStruct : Type 0 where
  pub epoch : ℤ
  pub fraction : ℤ
  pub timezone : ℤ

abbrev pub billion : ℕ
billion = 1000000000

unfoldable pub tz_to_i32 : Option ℤ → ℤ → ℤ
tz_to_i32 offset (pos zero) = pos 1440
tz_to_i32 none nanos = pos 1440
tz_to_i32 (some local_minus_utc) nanos = encoded_offset local_minus_utc

unfoldable pub convert_timestamp_to_struct : Option ℤ → ℤ → TimestampStruct
convert_timestamp_to_struct offset nanos = record {
  epoch = quotient nanos billion;
  fraction = as_i32 (remainder nanos billion);
  timezone = tz_to_i32 offset nanos;
}

-- What `build_timestamp_strings` makes of a structure, before it is printed: the nanoseconds since the
-- epoch, and the offset, none for its error. `FixedOffset::east_opt` is a parameter.
unfoldable pub nanos_of : TimestampStruct → ℤ
nanos_of s = times s.epoch billion +ℤ s.fraction

module _ {FixedOffset : Type 0} (east_opt : ℤ → Option FixedOffset) where
  unfoldable pub or_zero_offset : Option FixedOffset → Option FixedOffset
  or_zero_offset (some offset) = some offset
  or_zero_offset none = east_opt (pos 0)

  unfoldable pub offset_of : TimestampStruct → Option FixedOffset
  offset_of s = or_zero_offset (east_opt (times (s.timezone +ℤ negsuc 1439) 60))
