-- ===== src/Shared/Value.antt =====
-- What the value objects of the contexts share: the identifier (src/shared/value-object/
-- uuid.value-object.ts), and the text that is trimmed and has a least and a greatest length. Each
-- context gives its own exceptions.
use komi_saas_api.Base.{ℕ, String, Bool, not, ◌||◌, ltb, is_empty, trim, utf16_length, ◌≡◌, arith}
use komi_saas_api.Base.Text.Trimming.{trim-trim}
use komi_saas_api.Base.Throws.{Result, ok, ◌>>◌, throw_if}

-- `new Uuid(value)`; the test of the uuid package is an argument.
unfoldable pub create_uuid :
    {E : Type 0} → (String → Bool) → (String → E) → String → Result E String
create_uuid valid_uuid invalid value =
    throw_if (is_empty value || not (valid_uuid value)) (invalid value) >> ok value

-- `raw.trim()` between two lengths; `short` and `long` are thrown outside them.
unfoldable pub trimmed_between : {E : Type 0} → ℕ → ℕ → E → E → String → Result E String
trimmed_between least greatest short long raw = do
  let value = trim raw
  throw_if (ltb (utf16_length value) least) short
  throw_if (ltb greatest (utf16_length value)) long
  ok value

-- A value that was accepted is accepted again, as it is.
pub trimmed_between-again :
    {E : Type 0} (least greatest : ℕ) (short long : E) (raw value : String)
    → trimmed_between least greatest short long raw ≡ ok value
    → trimmed_between least greatest short long value ≡ ok value
unfolding trimmed_between
trimmed_between-again least greatest short long raw value e = ground (arith, trim-trim raw)
