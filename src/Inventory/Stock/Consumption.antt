-- ===== src/Inventory/Stock/Consumption.antt =====
-- Taking stock: `consume`, `registerWaste` and `countStock` take exactly what is asked, in the order
-- FEFO, or refuse.
use komi_saas_api.Base.{
  ℕ, ◌+◌, ◌≤◌, ◌<◌, String, some, Bool, true, false, List, [], ◌∷◌, ◌++◌, filter, map, ◌≡◌, refl,
  ◌∙◌, arith, Bool-cases, inl, inr, length, any, str_eq, ap,
}
use komi_saas_api.Base.Throws.{Result, ok}
use komi_saas_api.Shared.Failure.{Failure}
use komi_saas_api.Shared.Decimal.{Decimal, DecimalLaws, limit}
use komi_saas_api.Shared.Quantity
use komi_saas_api.Shared.Quantity.{difference}
use komi_saas_api.Shared.Quantity.Exact.{is_zero_lem, is_greater_than_lem, subtract-ok}
use komi_saas_api.Inventory.Batch as Batch_ops
use komi_saas_api.Inventory.Batch.{Batch, adjust_to}
use komi_saas_api.Inventory.Event.{BatchDetail, stock_consumed}
use komi_saas_api.Inventory.Item.{Item}
use komi_saas_api.Inventory.Drain.{sort, drain, adjust_down}
use komi_saas_api.Inventory.Drain.Order.{UniqueIds, UniqueIds-filter, UniqueIds-sort, All-sort}
use komi_saas_api.Inventory.Drain.Amounts.{stock, total, total-filter, total-sort}
use komi_saas_api.Inventory.Drain.Shrink.{AllFit, IsSteady, Shrinks, picks, read}
use komi_saas_api.Inventory.Drain.Loop.{Ready, IsReduction, Drained, drained}
use komi_saas_api.Inventory.Stock.{
  active_at, current_stock, active_branches, consume, add_new, distinct_from, first_of,
}
use komi_saas_api.Inventory.Stock.Value.{
  usable, object_self, usable-IsSteady, counts_usable, active_usable, Ready-filter,
  current_stock_lem,
}

module _ {d : Decimal} (l : DecimalLaws d) where
  open l use {Fits, milli}

  pub consume-IsReduction : IsReduction l Batch_ops.consume
  unfolding Batch_ops.consume adjust_to
  consume-IsReduction b q fb fq le = ground (
    arith,
    is_greater_than_lem l q b.quantity_remaining fq fb,
    subtract-ok l b.quantity_remaining q fb fq le,
  )

  pub waste-IsReduction : IsReduction l Batch_ops.waste
  unfolding Batch_ops.waste adjust_to
  waste-IsReduction b q fb fq le = ground (
    arith,
    is_greater_than_lem l q b.quantity_remaining fq fb,
    subtract-ok l b.quantity_remaining q fb fq le,
  )

  pub adjust_down-IsReduction : IsReduction l adjust_down
  unfolding adjust_down
  adjust_down-IsReduction b q fb fq le =
      ground (arith, subtract-ok l b.quantity_remaining q fb fq le)

  -- One run over the batches that pass `q`, sorted; `p` is the test that counts them.
  pub run_over_sorted :
      (act : Batch d → d.Num → Result Failure (Batch d)) (p q : Batch d → Bool) (pending : d.Num)
      (batches : List (Batch d))
      → IsReduction l act
      → IsSteady l p
      → ((b : Batch d) → q b ≡ true → p b ≡ true)
      → AllFit l batches
      → UniqueIds batches
      → Fits pending
      → milli pending ≤ stock l q batches
      → Drained l act p pending (sort (filter q batches)) batches
  run_over_sorted act p q pending batches reduces steady implies fit unique fp enough =
      drained l act p reduces steady pending (sort (filter q batches)) batches fp
        (omega (arith, total-sort l (filter q batches), total-filter l q batches))
        (All-sort (Ready l p batches) (filter q batches)
          (Ready-filter l p q batches batches implies (object_self batches unique) fit))
        (UniqueIds-sort (filter q batches) (UniqueIds-filter q batches unique)) fit

add_new_first :
    (x s : String) (seen : List String) → (more : List String) × (add_new x (s ∷ seen) ≡ s ∷ more)
unfolding add_new
add_new_first x s seen = elim (Bool-cases (any (str_eq x) (s ∷ seen))) [
  | inl old ↦ (seen, ground arith)
  | inr new ↦ (seen ++ (x ∷ []), ground arith)
]

distinct_from_first :
    (s : String) (seen rest : List String) → first_of (distinct_from (s ∷ seen) rest) ≡ some s
unfolding distinct_from
distinct_from_first s seen [] = refl
distinct_from_first s seen (x ∷ xs) =
    let (more, e) = add_new_first x s seen in
    ap (λ t. first_of (distinct_from t xs)) e ∙ distinct_from_first s more xs

module _ {d : Decimal} (l : DecimalLaws d) where
  open l use {Fits, milli}

  first_branch :
      (bs : List (Batch d))
      → 0 < total l bs
      → (branch : String) × (first_of (distinct_from [] (map (λ b. b.branch_id) bs)) ≡ some branch)
  unfolding distinct_from
  first_branch [] h = absurd (omega arith)
  first_branch (b ∷ bs) h =
      (b.branch_id, distinct_from_first b.branch_id [] (map (λ b. b.branch_id) bs))

  pub some_branch :
      (date : ℕ) (item : Item d)
      → 0 < stock l (active_at date) item.batches
      → (branch : String) × (first_of (active_branches date item) ≡ some branch)
  unfolding active_branches
  some_branch date item h =
      first_branch (filter (active_at date) item.batches)
        (omega (arith, total-filter l (active_at date) item.batches))

  -- What a success has in common: the stock that the test counts is lower by the quantity, batch by
  -- batch nothing else changed, and the details are the allocation FEFO of the quantity.
  abbrev pub Took :
      (Batch d → Bool) → (Batch d → Bool) → ℕ → List BatchDetail → Item d → Item d → Type 0
  Took active counted quantity details item item' =
      (stock l active item'.batches + quantity ≡ stock l active item.batches)
      × (map (read l) details ≡ picks l quantity (sort (filter active item.batches)))
      × Shrinks l counted item.batches item'.batches
      × AllFit l item'.batches

  abbrev pub after_consume :
      Item d → d.Num → ℕ → ℕ → String → List (Batch d) → List BatchDetail → Item d
  after_consume item quantity date touched branch batches details = record item {
    batches = batches;
    updated_at = touched;
    domain_events =
        item.domain_events
        ++ (stock_consumed (record {
          item_id = item.id;
          tenant_id = item.tenant_id;
          branch_id = branch;
          quantity = Quantity.get_value d quantity;
          consumed_batches = details;
          occurred_on = date;
        })
            ∷ []);
  }

  pub consume_run :
      (quantity left : d.Num) (date touched : ℕ) (item : Item d) (branch : String)
      (batches' : List (Batch d)) (details : List BatchDetail)
      → length (active_branches date item) ≤ 1
      → Quantity.is_zero d quantity ≡ false
      → Quantity.is_greater_than d quantity (current_stock date item) ≡ false
      → first_of (active_branches date item) ≡ some branch
      → drain {d = d} Batch_ops.consume quantity
          (sort (filter (active_at date) item.batches))
          item.batches
        ≡ ok (batches', left, details)
      → consume {d = d} quantity date touched item
        ≡ ok (after_consume item quantity date touched branch batches' details)
  unfolding consume
  consume_run quantity left date touched item branch batches' details one z g eb run = ground arith

  -- For an item whose batch ids are distinct, whose quantities and active stock are within the
  -- precision, and whose active batches lie in at most one branch, consuming a positive quantity
  -- of at most the active stock succeeds: the active stock falls by exactly the quantity, the
  -- event lists the allocation FEFO of that quantity, only batches that are not expired change and
  -- only in what remains, and one event is added.
  pub consume_takes :
      (quantity : d.Num) (date touched : ℕ) (item : Item d)
      → AllFit l item.batches
      → UniqueIds item.batches
      → stock l (active_at date) item.batches < limit
      → Fits quantity
      → 0 < milli quantity
      → milli quantity ≤ stock l (active_at date) item.batches
      → length (active_branches date item) ≤ 1
      → (item' : Item d) × (branch : String) × (details : List BatchDetail) × (consume {d = d}
            quantity date touched item
          ≡ ok item')
        × (item'.domain_events
            ≡ item.domain_events
              ++ (stock_consumed (record {
                item_id = item.id;
                tenant_id = item.tenant_id;
                branch_id = branch;
                quantity = Quantity.get_value d quantity;
                consumed_batches = details;
                occurred_on = date;
              })
                  ∷ []))
        × Took (active_at date) (usable date) (milli quantity) details item item'
  consume_takes quantity date touched item fit unique small fq positive enough one =
      let (branch, eb) = some_branch date item (omega arith) in
      let (batches', left, details, run, _, moved, told, shrunk, fit') =
        run_over_sorted l Batch_ops.consume (usable date) (active_at date) quantity item.batches
          (consume-IsReduction l) (usable-IsSteady l date) (active_usable l date) fit unique fq
          enough in
      let (stock_fits, stock_value) = current_stock_lem l date item fit small in
      (
        after_consume item quantity date touched branch batches' details,
        branch,
        details,
        consume_run quantity left date touched item branch batches' details one
            (ground (arith, is_zero_lem l quantity fq))
            (ground (
              arith,
              is_greater_than_lem l quantity (current_stock date item) fq stock_fits,
              stock_value,
            ))
            eb run,
        refl,
        (
          omega (
            arith,
            moved,
            counts_usable l date item.batches fit,
            counts_usable l date batches' fit',
          ),
          told,
          shrunk,
          fit',
        ),
      )
