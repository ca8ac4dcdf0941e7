-- ===== src/BranchConfigs/Tests.antt =====
-- A product that is configured in one branch, at a concrete table.
use komi_saas_api.Base.{some, none, true, false, List, [], ◌∷◌, ◌≡◌, refl, All, trim}
use komi_saas_api.Base.Throws.{ok, err}
use komi_saas_api.Shared.Money as Money_ops
use komi_saas_api.Inventory.Thousandths.{thousandths}
use komi_saas_api.BranchConfigs.Config.{
  duplicate_branch, Config, ConfigRow, create_id, create, change, to_domain, to_persistence,
}
use komi_saas_api.BranchConfigs.Requests.{
  Entry, Ports, ensure_no_duplicates, ensure_product, ensure_branches, find_by_product, of_branch,
  apply_entry, prepare, save_many, configure, find_to_remove, delete_many, remove,
}
use komi_saas_api.BranchConfigs.NeverEmpty.{
  SaysSomething, start, then_step, configured, removed, configs_say_something,
}

abbrev ports : Ports
ports = record {
  valid_uuid = λ id. true;
  upper_case = λ s. s;
  product_in_tenant = λ id tenant. true;
  branch_in_tenant = λ id tenant. true;
  order_by = λ rows. rows;
  ids = λ k. "c2";
  clocks = λ k. 9;
}

abbrev north : ConfigRow
north = record {
  id = "c1";
  tenant_id = "t1";
  product_id = "p1";
  branch_id = "north";
  price_amount = some "|||";
  price_currency = some "COP";
  is_available = none;
  created_at = 1;
  updated_at = 1;
}

-- The price in the north goes back to the product's, and the south is closed.
abbrev entries : List Entry
entries =
    record { branch_id = "north"; price = some none; is_available = some (some true) }
    ∷ record { branch_id = "south"; price = none; is_available = some (some false) }
    ∷ []

abbrev north_after : Config thousandths
north_after = record {
  id = "c1";
  tenant_id = "t1";
  product_id = "p1";
  branch_id = "north";
  price = none;
  is_available = some true;
  created_at = 1;
  updated_at = 9;
}

abbrev south : Config thousandths
south = record {
  id = "c2";
  tenant_id = "t1";
  product_id = "p1";
  branch_id = "south";
  price = none;
  is_available = some false;
  created_at = 9;
  updated_at = 9;
}

abbrev both : List ConfigRow
both = to_persistence north_after ∷ to_persistence south ∷ []

is_configured :
    configure thousandths ports "t1" "p1" entries (north ∷ [])
    ≡ ok (both, ok (north_after ∷ south ∷ []))
unfolding configure ensure_no_duplicates ensure_product ensure_branches create_id find_by_product
    to_domain of_branch apply_entry prepare create change save_many to_persistence Money_ops.of
    Money_ops.is_iso_code Money_ops.make Money_ops.equals Money_ops.get_amount trim
is_configured = refl

is_removed :
    remove thousandths ports "t1" "p1" ("south" ∷ []) both ≡ ok (to_persistence north_after ∷ [])
unfolding remove ensure_no_duplicates create_id find_by_product to_domain of_branch find_to_remove
    delete_many to_persistence
is_removed = refl

twice_example :
    remove thousandths ports "t1" "p1" ("south" ∷ "south" ∷ []) both
    ≡ err (duplicate_branch "south")
unfolding remove ensure_no_duplicates
twice_example = refl

configs_say_something_example : All SaysSomething (to_persistence north_after ∷ [])
configs_say_something_example =
    configs_say_something thousandths ports
      (then_step (configured "t1" "p1" entries (ok (north_after ∷ south ∷ [])) is_configured)
        (then_step (removed "t1" "p1" ("south" ∷ []) is_removed) start))
      (refl, tt)
