-- ===== src/Shared/Quantity/Exact.antt =====
-- Within the precision of the decimal library, quantities are thousandths and compute exactly.
use komi_saas_api.Base.{◌+◌, ◌-◌, ◌≤◌, ◌<◌, ◌≡◌, ltb, ◌==◌, arith, if◌then◌else◌}
use komi_saas_api.Base.Throws.{ok, err}
use komi_saas_api.Shared.Failure.{invalid_quantity}
use komi_saas_api.Shared.Decimal.{Decimal, DecimalLaws, limit}
use komi_saas_api.Shared.Quantity.{
  Quantity, of, zero, add, difference, subtract, is_zero, is_greater_than, get_value,
}

module _ {d : Decimal} (l : DecimalLaws d) where
  open l use {Fits, milli}

  pub zero_fits : Fits (zero d)
  unfolding zero
  zero_fits = rw (l.rounded d.nought l.nought_fits) l.nought_fits

  pub zero_milli : milli (zero d) ≡ 0
  unfolding zero
  zero_milli = rw (l.rounded d.nought l.nought_fits) l.nought_milli

  pub add_fits : (a b : Quantity d) → Fits a → Fits b → milli a + milli b < limit → Fits (add d a b)
  unfolding add
  add_fits a b fa fb h = let f = l.plus_fits a b fa fb h in rw (l.rounded (d.plus a b) f) f

  pub add_milli :
      (a b : Quantity d)
      → Fits a
      → Fits b
      → milli a + milli b < limit
      → milli (add d a b) ≡ milli a + milli b
  unfolding add
  add_milli a b fa fb h =
      rw (l.rounded (d.plus a b) (l.plus_fits a b fa fb h)) (l.plus_milli a b fa fb h)

  pub difference_fits :
      (a b : Quantity d) → Fits a → Fits b → milli b ≤ milli a → Fits (difference d a b)
  unfolding difference
  difference_fits a b fa fb h = let f = l.minus_fits a b fa fb h in rw (l.rounded (d.minus a b) f) f

  pub difference_milli :
      (a b : Quantity d)
      → Fits a
      → Fits b
      → milli b ≤ milli a
      → milli (difference d a b) ≡ milli a - milli b
  unfolding difference
  difference_milli a b fa fb h =
      rw (l.rounded (d.minus a b) (l.minus_fits a b fa fb h)) (l.minus_milli a b fa fb h)

  -- A subtraction throws exactly when the result would be negative; otherwise it is the difference.
  pub subtract_lem :
      (a b : Quantity d)
      → Fits a
      → Fits b
      → subtract d a b
        ≡ (if ltb (milli a) (milli b) then err invalid_quantity else ok (difference d a b))
  unfolding subtract
  subtract_lem a b fa fb = rw (l.minus_sign a b fa fb)

  pub is_zero_lem : (a : Quantity d) → Fits a → is_zero d a ≡ (milli a == 0)
  unfolding is_zero
  is_zero_lem a fa = l.is_zero_lem a fa

  pub is_greater_than_lem :
      (a b : Quantity d) → Fits a → Fits b → is_greater_than d a b ≡ ltb (milli b) (milli a)
  unfolding is_greater_than
  is_greater_than_lem a b fa fb = l.greater_than_lem a b fa fb

  -- What a quantity within the precision prints as is read back as the same quantity.
  pub of-get_value : (a : Quantity d) → Fits a → of d (get_value d a) ≡ ok a
  unfolding of get_value
  of-get_value a fa =
      rw (l.parse-to_string a fa)
        (rw (l.finite a fa) (rw (l.not_negative a fa) (rw (l.rounded a fa))))

  -- For quantities within the precision, what was taken away and what is left add up to the
  -- quantity again.
  pub add-difference :
      (a b : Quantity d)
      → Fits a
      → Fits b
      → milli b ≤ milli a
      → milli (add d (difference d a b) b) ≡ milli a
  add-difference a b fa fb h =
      let f = difference_fits a b fa fb h in
      let m = difference_milli a b fa fb h in
      omega (arith, add_milli (difference d a b) b f fb (omega (arith, l.milli_bound a fa)))

  pub subtract-ok :
      (a b : Quantity d)
      → Fits a
      → Fits b
      → milli b ≤ milli a
      → subtract d a b ≡ ok (difference d a b)
  subtract-ok a b fa fb h = ground (arith, subtract_lem a b fa fb)
