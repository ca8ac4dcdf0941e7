-- ===== src/Menus/Menu.antt =====
-- A menu (src/context/menus/domain/menu.aggregate.ts), its type (types/menu-type.enum.ts) and its value
-- objects (value-object/menu-code.value-object.ts, menu-title.value-object.ts, menu-id.value-object.ts).
use Prim.Native.Char.{Char, code}
use komi_saas_api.Base.{
  ℕ, String, Option, none, some, Bool, true, false, not, ◌&&◌, ◌||◌, ltb, leb, ◌==◌, ◌≡◌, arith,
  is_empty, is_some, trim, utf16_length, str_eq, if◌then◌else◌,
}
use komi_saas_api.Base.Throws.{Result, ok, err, ◌>>=◌, ◌>>◌, throw_if}

pub data MenuType : Type 0 where
  primary secondary tertiary : MenuType

pub data MenuError : Type 0 where
  title_too_short title_too_long : ℕ → MenuError
  invalid_code invalid_type invalid_uuid : String → MenuError
  -- a primary menu with a parent, or another without one, by its title
  not_a_root needs_a_parent : String → MenuError
  -- a menu, what its parent should be, and what it is
  wrong_parent : MenuType → MenuType → MenuType → MenuError
  not_found : String → MenuError

-- `Menu.parseType`
unfoldable pub parse_type : String → Result MenuError MenuType
parse_type value =
    if str_eq value "PRIMARY"
    then ok MenuType.primary
    else if str_eq value "SECONDARY"
    then ok MenuType.secondary
    else if str_eq value "TERTIARY"
    then ok MenuType.tertiary
    else err (invalid_type value)

abbrev pub is_capital_letter : Char → Bool
is_capital_letter c = leb 65 (code c) && leb (code c) 90

abbrev pub is_code_char : Char → Bool
is_code_char c = is_capital_letter c || (leb 48 (code c) && leb (code c) 57) || code c == 95

abbrev pub all_code_chars : String → Bool
all_code_chars String.[] = true
all_code_chars (String.◌∷◌ c s) = is_code_char c && all_code_chars s

-- `/^[A-Z][A-Z0-9_]*$/`
abbrev pub has_code_format : String → Bool
has_code_format String.[] = false
has_code_format (String.◌∷◌ c s) = is_capital_letter c && all_code_chars s

-- `MenuCode.create`
unfoldable pub create_code : (String → String) → String → Result MenuError String
create_code upper_case raw = do
  let value = upper_case (trim raw)
  throw_if (utf16_length value == 0 || ltb 60 (utf16_length value)) (invalid_code raw)
  throw_if (not (has_code_format value)) (invalid_code raw)
  ok value

-- `MenuTitle.create`
unfoldable pub create_title : String → Result MenuError String
create_title raw = do
  let value = trim raw
  throw_if (ltb (utf16_length value) 2) (title_too_short 2)
  throw_if (ltb 120 (utf16_length value)) (title_too_long 120)
  ok value

-- `MenuId.create`, the constructor of `Uuid`
unfoldable pub create_id : (String → Bool) → String → Result MenuError String
create_id valid_uuid value =
    throw_if (is_empty value || not (valid_uuid value)) (invalid_uuid value) >> ok value

-- `Menu`, and `MenuPrimitives`, which has the same fields.
pub record Menu : Type 0 where
  pub id : String
  pub parent_id : Option String
  pub menu_code : String
  pub menu_type : MenuType
  pub title : String
  pub subtitle : Option String
  pub icon : Option String
  pub url : Option String
  pub menu_order : ℕ
  pub is_active : Bool
  pub is_new : Bool

-- What `toResponse` gives, without its `items`.
pub record MenuResponse : Type 0 where
  pub id : String
  pub menu_code : String
  pub menu_type : MenuType
  pub title : String
  pub subtitle : Option String
  pub icon : Option String
  pub url : Option String
  pub menu_order : ℕ
  pub is_new : Bool

abbrev pub is_primary : MenuType → Bool
is_primary MenuType.primary = true
is_primary _ = false

unfoldable pub ensure_root_is_primary : Menu → Result MenuError (Unit {0})
ensure_root_is_primary primitives = do
  throw_if (is_primary primitives.menu_type && is_some primitives.parent_id)
      (not_a_root primitives.title)
  throw_if (not (is_primary primitives.menu_type) && not (is_some primitives.parent_id))
      (needs_a_parent primitives.title)

unfoldable pub from_primitives : (String → Bool) → (String → String) → Menu → Result MenuError Menu
unfolding ensure_root_is_primary create_id create_code create_title
from_primitives valid_uuid upper_case primitives = do
  ensure_root_is_primary primitives
  id ← create_id valid_uuid primitives.id
  menu_code ← create_code upper_case primitives.menu_code
  title ← create_title primitives.title
  ok (record primitives { id = id; menu_code = menu_code; title = title })

unfoldable pub to_response : Menu → MenuResponse
to_response menu = record {
  id = menu.id;
  menu_code = menu.menu_code;
  menu_type = menu.menu_type;
  title = menu.title;
  subtitle = menu.subtitle;
  icon = menu.icon;
  url = menu.url;
  menu_order = menu.menu_order;
  is_new = menu.is_new;
}

unfoldable pub change_is_new : Bool → Menu → Menu
change_is_new is_new menu = record menu { is_new = is_new }

abbrev pub expected_parent_type : MenuType → Option MenuType
expected_parent_type MenuType.primary = none
expected_parent_type MenuType.secondary = some MenuType.primary
expected_parent_type MenuType.tertiary = some MenuType.secondary

-- The root menus are the primary ones.
abbrev pub IsPlaced : Menu → Type 0
IsPlaced menu = is_some menu.parent_id ≡ not (is_primary menu.menu_type)

pub from_primitives-IsPlaced :
    (valid_uuid : String → Bool) (upper_case : String → String) (primitives menu : Menu)
    → from_primitives valid_uuid upper_case primitives ≡ ok menu
    → IsPlaced menu × (menu.is_active ≡ primitives.is_active)
unfolding from_primitives
from_primitives-IsPlaced valid_uuid upper_case primitives menu e = ground arith
