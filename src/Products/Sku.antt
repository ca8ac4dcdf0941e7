-- ===== src/Products/Sku.antt =====
-- The SKU of a product (src/context/products/domain/value-object/product-sku.value-object.ts). The
-- sequence's value is a whole number that JavaScript keeps exactly, below 2 ^ 53.
use Prim.Native.Nat.{zero, suc}
use Prim.Native.Char.{Char, code}
use Prim.Native.String.{◌++◌}
use text.Mathlib.TextLemmas.{append_cancel_left}
use komi_saas_api.Base.{
  ℕ, ◌+◌, ◌-◌, ◌*◌, ◌/◌, ◌%◌, ◌<◌, String, ltb, ◌≡◌, ◌≢◌, refl, arith, utf16_length, sym, ap, ◌∙◌,
  if◌then◌else◌, Bool-cases, inl, inr,
}

unfoldable pub digit_char : ℕ → Char
digit_char zero = "0"
digit_char (suc zero) = "1"
digit_char (suc (suc zero)) = "2"
digit_char (suc (suc (suc zero))) = "3"
digit_char (suc (suc (suc (suc zero)))) = "4"
digit_char (suc (suc (suc (suc (suc zero))))) = "5"
digit_char (suc (suc (suc (suc (suc (suc zero)))))) = "6"
digit_char (suc (suc (suc (suc (suc (suc (suc zero))))))) = "7"
digit_char (suc (suc (suc (suc (suc (suc (suc (suc zero)))))))) = "8"
digit_char (suc (suc (suc (suc (suc (suc (suc (suc (suc n))))))))) = "9"

-- The digits of `n` before `rest`, on fuel.
unfoldable pub digits : ℕ → ℕ → String → String
unfolding digit_char
digits zero n rest = rest
digits (suc fuel) n rest =
    let more = digits fuel (n / 10) (String.◌∷◌ (digit_char (n % 10)) rest) in
    if ltb n 10 then String.◌∷◌ (digit_char n) rest else more

-- `String(n)`
unfoldable pub decimal : ℕ → String
unfolding digits
decimal n = digits (suc n) n ""

unfoldable pub zeros : ℕ → String → String
zeros zero s = s
zeros (suc k) s = String.◌∷◌ "0" (zeros k s)

-- `s.padStart(width, "0")`
unfoldable pub pad_start : ℕ → String → String
unfolding zeros
pad_start width s = zeros (width - utf16_length s) s

-- `ProductSku.fromNumber`
unfoldable pub from_number : ℕ → String
unfolding decimal pad_start
from_number sequence = "PROD-" ++ pad_start 4 (decimal sequence)

-- What digits spell behind `n`.
unfoldable pub value : String → ℕ → ℕ
value String.[] n = n
value (String.◌∷◌ c s) n = value s (n * 10 + (code c - 48))

digit_char-code : (n : ℕ) → n < 10 → code (digit_char n) - 48 ≡ n
unfolding digit_char
digit_char-code zero h = refl
digit_char-code (suc zero) h = refl
digit_char-code (suc (suc zero)) h = refl
digit_char-code (suc (suc (suc zero))) h = refl
digit_char-code (suc (suc (suc (suc zero)))) h = refl
digit_char-code (suc (suc (suc (suc (suc zero))))) h = refl
digit_char-code (suc (suc (suc (suc (suc (suc zero)))))) h = refl
digit_char-code (suc (suc (suc (suc (suc (suc (suc zero))))))) h = refl
digit_char-code (suc (suc (suc (suc (suc (suc (suc (suc zero)))))))) h = refl
digit_char-code (suc (suc (suc (suc (suc (suc (suc (suc (suc zero))))))))) h = refl
digit_char-code (suc (suc (suc (suc (suc (suc (suc (suc (suc (suc n)))))))))) h =
    absurd (omega arith)

value-digits : (fuel n : ℕ) (rest : String) → n < fuel → value (digits fuel n rest) 0 ≡ value rest n
unfolding digits value
value-digits zero n rest h = absurd (omega arith)
value-digits (suc fuel) n rest h = elim (Bool-cases (ltb n 10)) [
  | inl small ↦ rw small (ap (value rest) (omega (arith, digit_char-code n (ground arith))))
  | inr large ↦ rw large (
      value-digits fuel (n / 10) (String.◌∷◌ (digit_char (n % 10)) rest) (ground arith)
      ∙ ap (value rest) (omega (arith, digit_char-code (n % 10) (omega arith))))
]

value-zeros : (k : ℕ) (s : String) → value (zeros k s) 0 ≡ value s 0
unfolding zeros value
value-zeros zero s = refl
value-zeros (suc k) s = value-zeros k s

-- The number is read back from its padded print.
value-pad_start : (n : ℕ) → value (pad_start 4 (decimal n)) 0 ≡ n
unfolding pad_start decimal value
value-pad_start n =
    value-zeros (4 - utf16_length (decimal n)) (decimal n) ∙ value-digits (suc n) n "" (omega arith)

sku_read : (m n : ℕ) → from_number m ≡ from_number n → m ≡ n
unfolding from_number
sku_read m n e =
    let same : pad_start 4 (decimal m) ≡ pad_start 4 (decimal n) =
      append_cancel_left "PROD-" (pad_start 4 (decimal m)) (pad_start 4 (decimal n)) e in
    sym (value-pad_start m) ∙ ap (λ s. value s 0) same ∙ value-pad_start n

-- Two values of the sequence that differ give SKUs that differ, also where one has more than four
-- digits.
pub skus_differ : (m n : ℕ) → m ≢ n → from_number m ≢ from_number n
skus_differ m n other e = other (sku_read m n e)
