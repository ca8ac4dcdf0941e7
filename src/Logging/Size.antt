-- ===== src/Logging/Size.antt =====
-- How deep and how wide the copy for the log is.
use komi_saas_api.Base.{
  ℕ, zero, suc, ◌-◌, ◌≤◌, ◌<◌, String, ltb, leb, ◌≡◌, refl, subst, arith, Bool-cases, inl, inr,
}
use Prim.Native.String.{◌++◌ as str_append}
use komi_saas_api.Logging.Sanitizer.{
  Value, text, primitive, date, error, buffer, array, object, Values, no_items, item, Fields,
  no_fields, field, Script, count_items, push, summarize, is_sensitive, sanitize, sanitize_items,
  sanitize_fields,
}

-- Arrays and objects are nested at most `n` deep, and no array has more than 21 items; what stands in an
-- error is not counted.
abbrev mutual
  pub Within : ℕ → Value → Type 0
  Within n (text s) = Unit
  Within n (primitive p) = Unit
  Within n (date moment) = Unit
  Within n (error e own) = Unit
  Within n (buffer bytes) = Unit
  Within n (array items) = (0 < n) × (count_items items ≤ 21) × WithinItems (n - 1) items
  Within n (object fields) = (0 < n) × WithinFields (n - 1) fields

  pub WithinItems : ℕ → Values → Type 0
  WithinItems n no_items = Unit
  WithinItems n (item v vs) = Within n v × WithinItems n vs

  pub WithinFields : ℕ → Fields → Type 0
  WithinFields n no_fields = Unit
  WithinFields n (field key v fs) = Within n v × WithinFields n fs

push-WithinItems :
    (n : ℕ) (s : String) (vs : Values)
    → WithinItems n vs
    → WithinItems n (push vs (text s)) × (count_items (push vs (text s)) ≡ suc (count_items vs))
push-WithinItems n s no_items h = ((tt, tt), refl)
push-WithinItems n s (item v vs) h =
    let (rest, counted) = push-WithinItems n s vs h.1 in ((h.0, rest), ground arith)

module _ (script : Script) where
  summarize-WithinItems :
      (n count : ℕ) (vs : Values)
      → count_items vs ≤ 20
      → WithinItems n vs
      → WithinItems n (summarize script count vs) × (count_items (summarize script count vs) ≤ 21)
  summarize-WithinItems n count vs few h = elim (Bool-cases (ltb 20 count)) [
    | inl more ↦
        let note = str_append "[+" (str_append (script.show (count - 20)) " elementos]") in
        let (pushed, counted) = push-WithinItems n note vs h in
        rw more (pushed, omega (arith, counted))
    | inr all_shown ↦ rw all_shown (h, omega arith)
  ]

  few_items :
      (vs : Values) (left depth : ℕ) → count_items (sanitize_items script vs left depth) ≤ left
  unfolding sanitize
  few_items no_items left depth = omega arith
  few_items (item v vs) zero depth = omega arith
  few_items (item v vs) (suc left) depth = omega (arith, few_items vs left depth)

  mutual
    unfolding sanitize

    sanitize-Within : (v : Value) (depth : ℕ) → Within (8 - depth) (sanitize script v depth)
    sanitize-Within (text s) depth = tt
    sanitize-Within (primitive p) depth = tt
    sanitize-Within (date moment) depth = tt
    sanitize-Within (error e own) depth = tt
    sanitize-Within (buffer bytes) depth = tt
    sanitize-Within (array items) depth =
        let inner = items-Within items 20 (suc depth) in
        let less : 8 - suc depth ≡ 8 - depth - 1 = omega arith in
        let (kept, few) =
          summarize-WithinItems (8 - depth - 1) (count_items items)
            (sanitize_items script items 20 (suc depth)) (few_items items 20 (suc depth))
            (subst (λ n. WithinItems n (sanitize_items script items 20 (suc depth))) less inner) in
        elim (Bool-cases (leb 8 depth)) [
          | inl deep ↦ rw deep tt
          | inr room ↦ let positive : 0 < 8 - depth = ground arith in rw room (positive, few, kept)
        ]
    sanitize-Within (object fields) depth =
        let inner = fields-Within fields (suc depth) in
        let less : 8 - suc depth ≡ 8 - depth - 1 = omega arith in
        let kept =
          subst (λ n. WithinFields n (sanitize_fields script fields (suc depth))) less inner in
        elim (Bool-cases (leb 8 depth)) [
          | inl deep ↦ rw deep tt
          | inr room ↦ let positive : 0 < 8 - depth = ground arith in rw room (positive, kept)
        ]

    items-Within :
        (vs : Values) (left depth : ℕ)
        → WithinItems (8 - depth) (sanitize_items script vs left depth)
    items-Within no_items left depth = tt
    items-Within (item v vs) zero depth = tt
    items-Within (item v vs) (suc left) depth =
        (sanitize-Within v depth, items-Within vs left depth)

    fields-Within :
        (fs : Fields) (depth : ℕ) → WithinFields (8 - depth) (sanitize_fields script fs depth)
    fields-Within no_fields depth = tt
    fields-Within (field key v fs) depth = elim (Bool-cases (is_sensitive script key)) [
      | inl hidden ↦ rw hidden (tt, fields-Within fs depth)
      | inr shown ↦ rw shown (sanitize-Within v depth, fields-Within fs depth)
    ]

  -- What is written of a value, apart from the errors in it, which are written whole, has arrays
  -- and objects at most eight deep, and no array of more than 21 items.
  pub log_is_bounded : (v : Value) → Within 8 (sanitize script v 0)
  log_is_bounded v = sanitize-Within v 0
