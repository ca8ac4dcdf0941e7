-- ===== src/Branches/Tests.antt =====
-- The requests on branches at a concrete table.
use Prim.Native.Char.{Char, code}
use komi_saas_api.Base.{
  ℕ, ◌+◌, String, Bool, true, false, ◌&&◌, ◌==◌, leb, [], ◌∷◌, any, str_eq, ◌≡◌, refl, arith, trim,
  utf16_length, if◌then◌else◌, is_empty, eq_iff,
}
use komi_saas_api.Base.Throws.{ok, err}
use komi_saas_api.Shared.Value.{trimmed_between}
use komi_saas_api.Branches.Like.{is_wildcard, backslash, escape_like, same_text, IlikeLaws}
use komi_saas_api.Branches.Branch as Branch_ops
use komi_saas_api.Branches.Branch.{
  Branch, BranchData, Changes, create_name, create_address, create_phone, create_city,
  create_department, name_exists, has_name,
}
use komi_saas_api.Branches.Table.{
  BranchRow, Outcome, Ports, search_aggregate_by_id, exists_by_name, save, update,
}
use komi_saas_api.Branches.Requests.{create_branch, delete_branch}
use komi_saas_api.Branches.Names.{bears, IsTidy}
use komi_saas_api.Branches.Names.Reading.{exists_by_name_lem}
use komi_saas_api.Branches.Names.Steps.{start, then_step, created, deleted, branch_names_stay_apart}

-- ILIKE on letters and escapes, where case is that of ASCII; `%` and `_` are left out.
abbrev ascii_fold : Char → ℕ
ascii_fold c = if leb 65 (code c) && leb (code c) 90 then code c + 32 else code c

ilike : String → String → Bool
ilike String.[] String.[] = true
ilike (String.◌∷◌ x t) String.[] = false
ilike String.[] (String.◌∷◌ c p) = false
ilike (String.◌∷◌ x t) (String.◌∷◌ c String.[]) =
    (if is_wildcard c then false else ascii_fold c == ascii_fold x) && is_empty t
ilike (String.◌∷◌ x t) (String.◌∷◌ c (String.◌∷◌ e p)) =
    let literal = ilike t (String.◌∷◌ e p) in
    let escaped = ilike t p in
    if code c == 92
    then ascii_fold e == ascii_fold x && escaped
    else (if is_wildcard c then false else ascii_fold c == ascii_fold x) && literal

ilike_ends : (text : String) → ilike text "" ≡ is_empty text
unfolding ilike
ilike_ends String.[] = refl
ilike_ends (String.◌∷◌ x t) = refl

ilike_letter :
    (c x : Char) (pattern text : String)
    → is_wildcard c ≡ false
    → ilike (String.◌∷◌ x text) (String.◌∷◌ c pattern)
      ≡ ascii_fold c == ascii_fold x && ilike text pattern
unfolding ilike
ilike_letter c x String.[] String.[] w = ground arith
ilike_letter c x String.[] (String.◌∷◌ y t) w = ground arith
ilike_letter c x (String.◌∷◌ e p) text w = ground arith

ilike_letter_end :
    (c : Char) (pattern : String) → is_wildcard c ≡ false → ilike "" (String.◌∷◌ c pattern) ≡ false
unfolding ilike
ilike_letter_end c pattern w = refl

ilike_escaped :
    (c x : Char) (pattern text : String)
    → ilike (String.◌∷◌ x text) (String.◌∷◌ backslash (String.◌∷◌ c pattern))
      ≡ ascii_fold c == ascii_fold x && ilike text pattern
unfolding ilike
ilike_escaped c x pattern text = refl

ilike_escaped_end :
    (c : Char) (pattern : String) → ilike "" (String.◌∷◌ backslash (String.◌∷◌ c pattern)) ≡ false
unfolding ilike
ilike_escaped_end c pattern = refl

ilike_laws : IlikeLaws ilike ascii_fold
ilike_laws = record {
  nothing = ilike_ends;
  letter = ilike_letter;
  letter_end = ilike_letter_end;
  escaped = ilike_escaped;
  escaped_end = ilike_escaped_end;
}

abbrev ports : Ports
ports = record {
  valid_uuid = λ s. true;
  lower_case = λ s. s;
  ilike = ilike;
  tenant_found = λ s. true;
  on_write = λ row rows. Outcome.stored;
}

abbrev centre : BranchRow
centre = record {
  id = "b1";
  tenant_id = "t1";
  name = "Sede_1";
  address = "Calle 10";
  phone = "3001234567";
  city = "Cali";
  department = "Valle";
  is_active = true;
  is_deleted = false;
  created_at = 3;
  updated_at = 3;
}

abbrev north : BranchRow
north = record centre { id = "b2"; name = "Sede%"; created_at = 7; updated_at = 7 }

abbrev north_data : BranchData
north_data = record {
  name = " Sede% ";
  address = "Calle 10";
  phone = "3001234567";
  city = "Cali";
  department = "Valle";
}

-- The sign % is a letter of the name, and not a wildcard.
create_example : create_branch ports "t1" north_data "b2" 7 (centre ∷ []) ≡ ok (centre ∷ north ∷ [])
unfolding create_branch create_name trimmed_between utf16_length trim exists_by_name ilike
    escape_like create_address create_phone create_city create_department save Branch_ops.create
create_example = refl

taken_example :
    create_branch ports "t1" (record north_data { name = "SEDE_1" }) "b2" 7 (centre ∷ [])
    ≡ err (name_exists "SEDE_1")
unfolding create_branch create_name trimmed_between utf16_length trim exists_by_name ilike
    escape_like
taken_example = refl

delete_example :
    delete_branch ports "b1" "t1" 9 (centre ∷ north ∷ [])
    ≡ ok (record centre { is_deleted = true; updated_at = 9 } ∷ north ∷ [])
unfolding delete_branch search_aggregate_by_id trimmed_between utf16_length trim update
    Branch_ops.delete
delete_example = refl

-- The name of a branch that was deleted is free.
freed_example :
    exists_by_name ports "SEDE_1" "t1" (record centre { is_deleted = true } ∷ north ∷ []) ≡ false
unfolding exists_by_name ilike escape_like
freed_example = refl

exists_by_name_lem_example :
    exists_by_name ports "SEDE_1" "t1" (centre ∷ [])
    ≡ any (bears ascii_fold "SEDE_1" "t1") (centre ∷ [])
exists_by_name_lem_example =
    exists_by_name_lem ports ascii_fold ilike_laws "SEDE_1" "t1" (centre ∷ [])

same_text_refl : (s : String) → same_text ascii_fold s s ≡ true
unfolding same_text
same_text_refl String.[] = refl
same_text_refl (String.◌∷◌ c s) = ground (arith, same_text_refl s)

one_case : (a b : String) → str_eq a b ≡ true → same_text ascii_fold a b ≡ true
one_case a b e = let same = (eq_iff a b).0 e in rw same (same_text_refl b)

centre-IsTidy : IsTidy ascii_fold (centre ∷ [])
unfolding create_name trimmed_between utf16_length trim
centre-IsTidy = ((refl, tt), (tt, tt))

branch_names_stay_apart_example :
    IsTidy ascii_fold (record centre { is_deleted = true; updated_at = 9 } ∷ north ∷ [])
branch_names_stay_apart_example =
    branch_names_stay_apart ports ascii_fold ilike_laws one_case
      (then_step (created "t1" north_data "b2" 7 refl create_example)
        (then_step (deleted "b1" "t1" 9 delete_example) start))
      centre-IsTidy
