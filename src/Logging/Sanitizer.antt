-- ===== src/Logging/Sanitizer.antt =====
-- The copy of a value that is written to the log (src/infrastructure/logging/sanitizer.util.ts).
use komi_saas_api.Base.{
  ℕ, zero, suc, ◌-◌, String, Bool, List, [], ◌∷◌, any, ltb, leb, str_eq, utf16_length,
  if◌then◌else◌,
}
use Prim.Native.String.{◌++◌ as str_append}

-- A JavaScript value, as far as the code looks at it: a text; another primitive, by its text; a date,
-- by its milliseconds; an error, by its text, with its own enumerable fields; a buffer, by its length; an
-- array; an object, with its own enumerable fields in order.
mutual
  pub data Value : Type 0 where
    text primitive : String → Value
    error : String → Fields → Value
    date buffer : ℕ → Value
    array : Values → Value
    object : Fields → Value

  pub data Values : Type 0 where
    no_items : Values
    item : Value → Values → Values

  pub data Fields : Type 0 where
    no_fields : Fields
    field : String → Value → Fields → Fields

abbrev pub sensitive_fields : List String
sensitive_fields =
    "password" ∷ "newpassword" ∷ "oldpassword" ∷ "currentpassword" ∷ "confirmpassword"
    ∷ "passwordhash" ∷ "hashedpassword" ∷ "secret" ∷ "clientsecret" ∷ "token" ∷ "accesstoken"
    ∷ "refreshtoken" ∷ "idtoken" ∷ "apikey" ∷ "api_key" ∷ "authorization" ∷ "cookie" ∷ "sessionid"
    ∷ []

-- JavaScript's `toLowerCase`, `slice(0, n)`, `toISOString` of a valid date, and a number in a template.
pub record Script : Type 0 where
  pub lower_case : String → String
  pub slice_to : ℕ → String → String
  pub to_iso : ℕ → String
  pub show : ℕ → String

abbrev pub count_items : Values → ℕ
count_items no_items = 0
count_items (item v vs) = suc (count_items vs)

-- `visible.push(…)`
abbrev pub push : Values → Value → Values
push no_items last = item last no_items
push (item v vs) last = item v (push vs last)

module _ (script : Script) where
  unfoldable pub truncate : String → String
  truncate value =
      if leb (utf16_length value) 2000
      then value
      else str_append (script.slice_to 2000 value)
          (str_append " [+" (str_append (script.show (utf16_length value - 2000)) " caracteres]"))

  unfoldable pub is_sensitive : String → Bool
  is_sensitive key = any (str_eq (script.lower_case key)) sensitive_fields

  -- The end of `sanitizeArray`.
  abbrev pub summarize : ℕ → Values → Values
  summarize count visible =
      if ltb 20 count
      then push visible
          (text (str_append "[+" (str_append (script.show (count - 20)) " elementos]")))
      else visible

  -- `sanitize`, the map over the first items of `sanitizeArray`, and the map over the entries.
  unfoldable mutual
    unfolding truncate is_sensitive

    pub sanitize : Value → ℕ → Value
    sanitize (text s) depth = text (truncate s)
    sanitize (primitive p) depth = primitive p
    sanitize (date moment) depth = text (script.to_iso moment)
    sanitize (error e fields) depth = error e fields
    sanitize (buffer bytes) depth =
        text (str_append "[Buffer " (str_append (script.show bytes) " bytes]"))
    sanitize (array items) depth =
        let visible = sanitize_items items 20 (suc depth) in
        if leb 8 depth
        then text "[PROFUNDIDAD MAXIMA]"
        else array (summarize (count_items items) visible)
    sanitize (object fields) depth =
        let entries = sanitize_fields fields (suc depth) in
        if leb 8 depth then text "[PROFUNDIDAD MAXIMA]" else object entries

    pub sanitize_items : Values → ℕ → ℕ → Values
    sanitize_items no_items left depth = no_items
    sanitize_items (item v vs) zero depth = no_items
    sanitize_items (item v vs) (suc left) depth =
        item (sanitize v depth) (sanitize_items vs left depth)

    pub sanitize_fields : Fields → ℕ → Fields
    sanitize_fields no_fields depth = no_fields
    sanitize_fields (field key nested rest) depth =
        let clean = sanitize nested depth in
        field key (if is_sensitive key then text "[REDACTADO]" else clean)
          (sanitize_fields rest depth)
