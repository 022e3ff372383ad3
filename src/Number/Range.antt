-- ===== src/Number/Range.antt =====
-- Numbers that were read lie within `int`.
use week7_02_sql_index.Prelude.{
  zero, suc, Bool, true, false, ◌&&◌, Option, none, some, ◌≡◌, if◌then◌else◌, arith, Bool-cases,
  inl, inr, ℤ, pos, negsuc, ◌≤ℤ◌, ◌<ℤ◌, eqb_ℤ,
}
use week7_02_sql_index.Text.{Bytes}
use week7_02_sql_index.Number.Defs.{int_min, int_max, in_int, strtol, is_empty, read_int, succ_ℤ}

abbrev pub InInt : ℤ → Type 0
InInt v = (int_min ≤ℤ v) × (v ≤ℤ int_max)

pub read_int-InInt : (text : Bytes) (v : ℤ) → read_int text ≡ some v → InInt v
unfolding read_int
read_int-InInt text v e = by_test (is_empty (strtol text).1) (strtol text).0 e
  where
    by_test :
        (b : Bool) (w : ℤ)
        → ◌≡◌ {A = Option ℤ} (if b && in_int w then some w else none) (some v)
        → InInt v
    by_test false w e = cc
    by_test true w e = elim (Bool-cases (in_int w)) [
      | inl within ↦
          let same : ◌≡◌ {A = Option ℤ} (some w) (some v) = rw within at e in
          let equal : w ≡ v = cc in rw (← equal) (ground arith, ground arith)
      | inr beyond ↦ let none_some : ◌≡◌ {A = Option ℤ} none (some v) = rw beyond at e in cc
    ]

pub succ-above : (k m : ℤ) → k ≤ℤ m → k <ℤ succ_ℤ m
succ-above k (pos n) h = omega arith
succ-above k (negsuc zero) h = omega arith
succ-above k (negsuc (suc n)) h = omega arith

pub succ-InInt : (m : ℤ) → InInt m → eqb_ℤ m int_max ≡ false → InInt (succ_ℤ m)
succ-InInt (pos n) h other = (omega arith, ground (arith, h.1))
succ-InInt (negsuc zero) h other = (omega arith, omega arith)
succ-InInt (negsuc (suc n)) h other = (omega (arith, h.0), omega arith)
