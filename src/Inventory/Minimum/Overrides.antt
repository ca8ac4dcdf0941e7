-- ===== src/Inventory/Minimum/Overrides.antt =====
-- What setting minimums does to the minimum in force in each branch.
use komi_saas_api.Base.{
  ℕ, String, Option, none, some, List, [], ◌∷◌, find, str_eq, eq_iff, ◌≡◌, ◌≢◌, refl, arith,
  if◌then◌else◌,
}
use komi_saas_api.Shared.Decimal.{Decimal}
use komi_saas_api.Inventory.Item.{Item, BranchConfig, touch}
use komi_saas_api.Inventory.Minimum.{
  of_branch, remove_config, put_config, set_minimum_for_branch, resolve_minimum_for_branch,
}

module _ {d : Decimal} where
  -- At most one configuration for each branch.
  abbrev pub OnePerBranch : List (BranchConfig d) → Type 0
  OnePerBranch [] = Unit
  OnePerBranch (c ∷ cs) = (find (of_branch c.branch_id) cs ≡ none) × OnePerBranch cs

  find-remove :
      (branch other : String) (cs : List (BranchConfig d))
      → OnePerBranch cs
      → find (of_branch other) (remove_config branch cs)
        ≡ (if str_eq branch other then none else find (of_branch other) cs)
  unfolding remove_config
  find-remove branch other [] u = ground (arith, eq_iff branch other)
  find-remove branch other (c ∷ cs) u = ground (
    arith,
    eq_iff branch other,
    eq_iff c.branch_id branch,
    eq_iff c.branch_id other,
    find-remove branch other cs u.1,
    u.0,
  )

  abbrev pub minimum_at : String → List (BranchConfig d) → Option d.Num
  minimum_at branch cs = elim (find (of_branch branch) cs) [
    | none ↦ none
    | some c ↦ some c.min_stock
  ]

  find-put :
      (branch other : String) (minimum : d.Num) (id : String) (cs : List (BranchConfig d))
      → minimum_at other (put_config branch minimum id cs)
        ≡ (if str_eq branch other then some minimum else minimum_at other cs)
  unfolding put_config
  find-put branch other minimum id [] = ground (arith, eq_iff branch other)
  find-put branch other minimum id (c ∷ cs) = ground (
    arith,
    eq_iff branch other,
    eq_iff c.branch_id branch,
    eq_iff c.branch_id other,
    find-put branch other minimum id cs,
  )

  remove-OnePerBranch :
      (branch : String) (cs : List (BranchConfig d))
      → OnePerBranch cs
      → OnePerBranch (remove_config branch cs)
  unfolding remove_config
  remove-OnePerBranch branch [] u = tt
  remove-OnePerBranch branch (c ∷ cs) u =
      ground (arith, remove-OnePerBranch branch cs u.1, find-remove branch c.branch_id cs u.1)

  unfound_after_put :
      (branch other : String) (minimum : d.Num) (id : String) (cs : List (BranchConfig d))
      → branch ≢ other
      → find (of_branch other) cs ≡ none
      → find (of_branch other) (put_config branch minimum id cs) ≡ none
  unfolding put_config
  unfound_after_put branch other minimum id [] ne h = ground (arith, eq_iff branch other)
  unfound_after_put branch other minimum id (c ∷ cs) ne h = ground (
    arith,
    eq_iff c.branch_id branch,
    eq_iff c.branch_id other,
    unfound_after_put branch other minimum id cs ne,
  )

  put-OnePerBranch :
      (branch : String) (minimum : d.Num) (id : String) (cs : List (BranchConfig d))
      → OnePerBranch cs
      → OnePerBranch (put_config branch minimum id cs)
  unfolding put_config
  put-OnePerBranch branch minimum id [] u = (refl, tt)
  put-OnePerBranch branch minimum id (c ∷ cs) u = ground (
    arith,
    eq_iff c.branch_id branch,
    eq_iff branch c.branch_id,
    put-OnePerBranch branch minimum id cs u.1,
    unfound_after_put branch c.branch_id minimum id cs,
  )

  -- Setting the minimum of a branch keeps at most one configuration for each branch.
  pub set_minimum_for_branch-OnePerBranch :
      (branch : String) (minimum : Option d.Num) (id : String) (now : ℕ) (item : Item d)
      → OnePerBranch item.branch_configs
      → OnePerBranch (set_minimum_for_branch branch minimum id now item).branch_configs
  unfolding set_minimum_for_branch touch
  set_minimum_for_branch-OnePerBranch branch none id now item u =
      remove-OnePerBranch branch item.branch_configs u
  set_minimum_for_branch-OnePerBranch branch (some minimum) id now item u =
      put-OnePerBranch branch minimum id item.branch_configs u

  abbrev pub or_global : Option d.Num → Item d → Option d.Num
  or_global none item = item.min_global_stock
  or_global (some minimum) item = some minimum

  -- With one configuration for each branch, setting the minimum of a branch puts it in force
  -- there, or the global one where it is taken away, and leaves the minimum in force in every
  -- other branch.
  pub resolve-set_minimum :
      (branch other : String) (minimum : Option d.Num) (id : String) (now : ℕ) (item : Item d)
      → OnePerBranch item.branch_configs
      → resolve_minimum_for_branch other (set_minimum_for_branch branch minimum id now item) ≡ (
          if str_eq branch other
          then or_global minimum item
          else resolve_minimum_for_branch other item)
  unfolding set_minimum_for_branch touch resolve_minimum_for_branch
  resolve-set_minimum branch other none id now item u =
      ground (arith, find-remove branch other item.branch_configs u)
  resolve-set_minimum branch other (some minimum) id now item u =
      ground (arith, find-put branch other minimum id item.branch_configs)
