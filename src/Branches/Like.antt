-- ===== src/Branches/Like.antt =====
-- The escaping of a text that is searched with ILIKE
-- (`escapeLike` of src/context/branch/infrastructure/persistence/repositories/branch.repository.ts). The
-- database's ILIKE is a parameter, and its documented behaviour on letters and escapes the hypotheses.
use Prim.Native.Char.{Char, code}
use komi_saas_api.Base.{
  ℕ, String, Bool, true, false, ◌&&◌, ◌||◌, ◌==◌, is_empty, if◌then◌else◌, ◌≡◌, refl, arith,
  Bool-cases, inl, inr,
}

-- `[\\%_]`
abbrev pub is_wildcard : Char → Bool
is_wildcard c = code c == 92 || code c == 37 || code c == 95

abbrev pub backslash : Char
backslash = "\\"

unfoldable pub escape_like : String → String
escape_like String.[] = ""
escape_like (String.◌∷◌ c s) =
    let rest = escape_like s in
    if is_wildcard c then String.◌∷◌ backslash (String.◌∷◌ c rest) else String.◌∷◌ c rest

-- Two texts that are one where letters are compared by `fold`.
unfoldable pub same_text : (Char → ℕ) → String → String → Bool
same_text fold String.[] String.[] = true
same_text fold String.[] (String.◌∷◌ x t) = false
same_text fold (String.◌∷◌ c s) String.[] = false
same_text fold (String.◌∷◌ c s) (String.◌∷◌ x t) = fold c == fold x && same_text fold s t

-- What the documentation of ILIKE says of a pattern that starts with a letter or an escaped character;
-- `ilike text pattern` is `text ILIKE pattern`, and letters are compared by `fold`.
pub record IlikeLaws (ilike : String → String → Bool) (fold : Char → ℕ) : Type 0 where
  pub nothing : (text : String) → ilike text "" ≡ is_empty text
  pub letter :
      (c x : Char) (pattern text : String)
      → is_wildcard c ≡ false
      → ilike (String.◌∷◌ x text) (String.◌∷◌ c pattern) ≡ fold c == fold x && ilike text pattern
  pub letter_end :
      (c : Char) (pattern : String)
      → is_wildcard c ≡ false
      → ilike "" (String.◌∷◌ c pattern) ≡ false
  pub escaped :
      (c x : Char) (pattern text : String)
      → ilike (String.◌∷◌ x text) (String.◌∷◌ backslash (String.◌∷◌ c pattern))
        ≡ fold c == fold x && ilike text pattern
  pub escaped_end :
      (c : Char) (pattern : String) → ilike "" (String.◌∷◌ backslash (String.◌∷◌ c pattern)) ≡ false

module _ {ilike : String → String → Bool} {fold : Char → ℕ} (laws : IlikeLaws ilike fold) where
  -- An escaped name matches the texts that are that name, and no others.
  pub ilike-escape_like :
      (name text : String) → ilike text (escape_like name) ≡ same_text fold name text
  unfolding escape_like same_text
  ilike-escape_like String.[] String.[] = laws.nothing ""
  ilike-escape_like String.[] (String.◌∷◌ x t) = laws.nothing (String.◌∷◌ x t)
  ilike-escape_like (String.◌∷◌ c s) String.[] = elim (Bool-cases (is_wildcard c)) [
    | inl w ↦ rw w (laws.escaped_end c (escape_like s))
    | inr l ↦ rw l (laws.letter_end c (escape_like s) l)
  ]
  ilike-escape_like (String.◌∷◌ c s) (String.◌∷◌ x t) = elim (Bool-cases (is_wildcard c)) [
    | inl w ↦ rw w (rw (laws.escaped c x (escape_like s) t, ilike-escape_like s t) refl)
    | inr l ↦ rw l (rw (laws.letter c x (escape_like s) t l, ilike-escape_like s t) refl)
  ]

pub same_text-sym :
    (fold : Char → ℕ) (a b : String) → same_text fold a b ≡ true → same_text fold b a ≡ true
unfolding same_text
same_text-sym fold String.[] String.[] e = refl
same_text-sym fold String.[] (String.◌∷◌ x t) e = absurd (ground arith)
same_text-sym fold (String.◌∷◌ c s) String.[] e = absurd (ground arith)
same_text-sym fold (String.◌∷◌ c s) (String.◌∷◌ x t) e = ground (arith, same_text-sym fold s t)

pub same_text_trans :
    (fold : Char → ℕ) (a b c : String)
    → same_text fold a b ≡ true
    → same_text fold b c ≡ true
    → same_text fold a c ≡ true
unfolding same_text
same_text_trans fold String.[] String.[] c e h = h
same_text_trans fold String.[] (String.◌∷◌ x t) c e h = absurd (ground arith)
same_text_trans fold (String.◌∷◌ c s) String.[] d e h = absurd (ground arith)
same_text_trans fold (String.◌∷◌ c s) (String.◌∷◌ x t) String.[] e h = absurd (ground arith)
same_text_trans fold (String.◌∷◌ c s) (String.◌∷◌ x t) (String.◌∷◌ y u) e h =
    ground (arith, same_text_trans fold s t u)
