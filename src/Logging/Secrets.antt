-- ===== src/Logging/Secrets.antt =====
-- What stands under a sensitive key leaves no trace in the log.
use komi_saas_api.Base.{ℕ, zero, suc, String, true, ◌≡◌, refl, ap}
use komi_saas_api.Logging.Sanitizer.{
  Value, array, object, Values, no_items, item, Fields, no_fields, field, Script, count_items,
  is_sensitive, sanitize, sanitize_items, sanitize_fields,
}

-- Two values that differ only in what stands under sensitive keys, at any depth but not in an error.
mutual
  pub data Alike (script : Script) : Value → Value → Type 0 where
    same : (v : Value) → Alike script v v
    in_array : {vs ws : Values} → AlikeItems script vs ws → Alike script (array vs) (array ws)
    in_object : {fs gs : Fields} → AlikeFields script fs gs → Alike script (object fs) (object gs)

  pub data AlikeItems (script : Script) : Values → Values → Type 0 where
    no_more : AlikeItems script no_items no_items
    next_item :
        {v w : Value} {vs ws : Values}
        → Alike script v w
        → AlikeItems script vs ws
        → AlikeItems script (item v vs) (item w ws)

  pub data AlikeFields (script : Script) : Fields → Fields → Type 0 where
    no_more_fields : AlikeFields script no_fields no_fields
    shown :
        (key : String) {v w : Value} {fs gs : Fields}
        → Alike script v w
        → AlikeFields script fs gs
        → AlikeFields script (field key v fs) (field key w gs)
    hidden :
        (key : String) (v w : Value) {fs gs : Fields}
        → is_sensitive script key ≡ true
        → AlikeFields script fs gs
        → AlikeFields script (field key v fs) (field key w gs)

module _ (script : Script) where
  count-Alike : {vs ws : Values} → AlikeItems script vs ws → count_items vs ≡ count_items ws
  count-Alike no_more = refl
  count-Alike (next_item a rest) = ap suc (count-Alike rest)

  mutual
    unfolding sanitize

    sanitize-Alike :
        {v w : Value}
        → Alike script v w
        → (depth : ℕ) → sanitize script v depth ≡ sanitize script w depth
    sanitize-Alike (same v) depth = refl
    sanitize-Alike (in_array items) depth =
        rw (items-Alike items 20 (suc depth), count-Alike items) refl
    sanitize-Alike (in_object fields) depth = rw (fields-Alike fields (suc depth)) refl

    items-Alike :
        {vs ws : Values}
        → AlikeItems script vs ws
        → (left depth : ℕ)
        → sanitize_items script vs left depth ≡ sanitize_items script ws left depth
    items-Alike no_more left depth = refl
    items-Alike (next_item a rest) zero depth = refl
    items-Alike (next_item a rest) (suc left) depth =
        rw (sanitize-Alike a depth, items-Alike rest left depth) refl

    fields-Alike :
        {fs gs : Fields}
        → AlikeFields script fs gs
        → (depth : ℕ) → sanitize_fields script fs depth ≡ sanitize_fields script gs depth
    fields-Alike no_more_fields depth = refl
    fields-Alike (shown key a rest) depth =
        rw (sanitize-Alike a depth, fields-Alike rest depth) refl
    fields-Alike (hidden key v w h rest) depth = rw (h, fields-Alike rest depth) refl

  -- Two values that differ only in what stands under sensitive keys, at any depth but not inside
  -- an error, are written to the log alike.
  pub secrets_leave_no_trace :
      {v w : Value} → Alike script v w → sanitize script v 0 ≡ sanitize script w 0
  secrets_leave_no_trace a = sanitize-Alike a 0
