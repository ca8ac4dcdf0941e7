-- ===== src/Movements/Audit.antt =====
-- The ledger tells what was consumed: a consumption, the event that it registers and the handler of that
-- event, together.
use komi_saas_api.Base.{
  ℕ, ◌+◌, ◌-◌, ◌≤◌, ◌<◌, String, none, Bool, true, List, [], ◌∷◌, ◌++◌, map, filter, length, ◌≡◌,
  refl, ap, ◌∙◌, arith, All, Bool-cases, inl, inr, trim,
}
use komi_saas_api.Base.Throws.{ok}
use komi_saas_api.Shared.Decimal.{Decimal, DecimalLaws, limit}
use komi_saas_api.Shared.Quantity
use komi_saas_api.Shared.Quantity.Exact.{is_zero_lem, is_greater_than_lem}
use komi_saas_api.Inventory.Batch as Batch_ops
use komi_saas_api.Inventory.Batch.{Batch}
use komi_saas_api.Inventory.Event.{Event, BatchDetail, stock_consumed}
use komi_saas_api.Inventory.Item.{Item}
use komi_saas_api.Inventory.Drain.{sort}
use komi_saas_api.Inventory.Drain.Order.{UniqueIds, All-sort}
use komi_saas_api.Inventory.Drain.Amounts.{stock, total, total-sort, total-filter}
use komi_saas_api.Inventory.Drain.Shrink.{AllFit, picks, least}
use komi_saas_api.Inventory.Stock.{active_at, current_stock, active_branches, consume}
use komi_saas_api.Inventory.Stock.Value.{usable, usable-IsSteady, active_usable, current_stock_lem}
use komi_saas_api.Inventory.Stock.Consumption.{
  consume-IsReduction, run_over_sorted, some_branch, after_consume, consume_run,
}
use komi_saas_api.Movements.Movement.{Movement, create_type, requires_reason}
use komi_saas_api.Movements.Handlers.{Ledger, handle, record_each, movement_of}
use komi_saas_api.Movements.Trace.{Walked, Traced, drain-Traced}
use komi_saas_api.Movements.Recorded.{Line, line, line_of, Readable, recorded_each}

abbrev pub sum_quantities : List (String × ℕ) → ℕ
sum_quantities [] = 0
sum_quantities ((_, n) ∷ rest) = n + sum_quantities rest

abbrev pub sum_lines : List Line → ℕ
sum_lines [] = 0
sum_lines (x ∷ xs) = x.thousandths + sum_lines xs

module _ {d : Decimal} (l : DecimalLaws d) (upper_case : String → String) where
  open l use {Fits, milli}

  consume_keeps_cost :
      (b b' : Batch d) (t : d.Num)
      → Batch_ops.consume b t ≡ ok b'
      → Readable upper_case b
      → Readable upper_case b'
  unfolding Batch_ops.consume
  consume_keeps_cost b b' t e h = let same : b'.unit_cost ≡ b.unit_cost = ground arith in rw same h

  holds_stock :
      (date : ℕ) (b : Batch d)
      → Fits b.quantity_remaining
      → active_at date b ≡ true
      → 0 < milli b.quantity_remaining
  unfolding Batch_ops.is_active
  holds_stock date b f a = ground (arith, is_zero_lem l b.quantity_remaining f)

  Walked-active :
      (date : ℕ) (bs : List (Batch d))
      → AllFit l bs
      → All (Readable upper_case) bs
      → All (Walked l (Readable upper_case)) (filter (active_at date) bs)
  Walked-active date [] f r = tt
  Walked-active date (b ∷ bs) f r = elim (Bool-cases (active_at date b)) [
    | inl on ↦ rw on ((f.0, holds_stock date b f.0 on, r.0), Walked-active date bs f.1 r.1)
    | inr off ↦ rw off (Walked-active date bs f.1 r.1)
  ]

  consumption_known :
      upper_case "CONSUMPTION" ≡ "CONSUMPTION"
      → create_type upper_case "CONSUMPTION" ≡ ok "CONSUMPTION"
  unfolding create_type trim
  consumption_known h = rw h refl

  -- What an allocation gives in all, where the batches hold enough.
  sum_quantities-picks :
      (q : ℕ) (bs : List (Batch d)) → q ≤ total l bs → sum_quantities (picks l q bs) ≡ q
  sum_quantities-picks q [] h = omega arith
  sum_quantities-picks q (b ∷ bs) h =
      ground (arith, sum_quantities-picks (q - least l q (milli b.quantity_remaining)) bs)

  sum_lines-map :
      (type tenant item branch : String) (date : ℕ) (ps : List (String × ℕ))
      → sum_lines (map (line type tenant item branch date) ps) ≡ sum_quantities ps
  sum_lines-map type tenant item branch date [] = refl
  sum_lines-map type tenant item branch date (p ∷ ps) =
      ap (λ n. p.1 + n) (sum_lines-map type tenant item branch date ps)

  module _ (accepts : Movement d → Bool) (ids : ℕ → String) (clocks : ℕ → ℕ × ℕ) where
    handled :
        (type tenant item branch : String) (date k : ℕ) (quantity : String)
        (details : List BatchDetail) (ledger : Ledger d) (new : List (Movement d))
        → record_each upper_case accepts ids clocks k
            (map (movement_of "CONSUMPTION" tenant item branch none date) details)
            ledger.rows
            ([], none)
          ≡ (ledger.rows ++ new, [], none)
        → handle upper_case accepts ids clocks k
            (stock_consumed (record {
              item_id = item;
              tenant_id = tenant;
              branch_id = branch;
              quantity = quantity;
              consumed_batches = details;
              occurred_on = date;
            }))
            ledger
          ≡ record ledger { rows = ledger.rows ++ new }
    unfolding handle
    handled type tenant item branch date k quantity details ledger new run = ground arith

    -- A consumption that may be made, as for its own theorem, succeeds with one event; the handler
    -- of that event adds to the movements exactly the allocation FEFO of the quantity, a line of
    -- type CONSUMPTION to each batch it took from, logs no failure, and the lines sum to the
    -- quantity. The database is assumed to take every row, upper case to keep the type, and the
    -- unit costs of the batches to be written so that they can be read.
    pub consumption_is_recorded :
        (k : ℕ) (ledger : Ledger d) (quantity : d.Num) (date touched : ℕ) (item : Item d)
        → ((m : Movement d) → accepts m ≡ true)
        → upper_case "CONSUMPTION" ≡ "CONSUMPTION"
        → All (Readable upper_case) item.batches
        → AllFit l item.batches
        → UniqueIds item.batches
        → stock l (active_at date) item.batches < limit
        → Fits quantity
        → 0 < milli quantity
        → milli quantity ≤ stock l (active_at date) item.batches
        → length (active_branches date item) ≤ 1
        → (item' : Item d) × (e : Event) × (branch : String) × (new : List (Movement d)) × (consume
              {d = d} quantity date touched item
            ≡ ok item')
          × (item'.domain_events ≡ item.domain_events ++ (e ∷ []))
          × (handle upper_case accepts ids clocks k e ledger
              ≡ record ledger { rows = ledger.rows ++ new })
          × (map (line_of l) new
              ≡ map
                  (line "CONSUMPTION" item.tenant_id item.id branch date)
                  (picks l (milli quantity) (sort (filter (active_at date) item.batches))))
          × (sum_lines (map (line_of l) new) ≡ milli quantity)
    unfolding requires_reason
    consumption_is_recorded k ledger quantity date touched item all_accepted upper readable fit
          unique small fq positive enough one =
        let (branch, eb) = some_branch l date item (omega arith) in
        let active = sort (filter (active_at date) item.batches) in
        let (batches', left, details, run, _, moved, told, shrunk, fit') =
          run_over_sorted l Batch_ops.consume (usable date) (active_at date) quantity item.batches
            (consume-IsReduction l) (usable-IsSteady l date) (active_usable l date) fit unique fq
            enough in
        let (stock_fits, stock_value) = current_stock_lem l date item fit small in
        let traced : All (Traced l (Readable upper_case)) details =
          drain-Traced l (Readable upper_case) Batch_ops.consume consume_keeps_cost active quantity
            item.batches (batches', left, details) fq
            (All-sort (Walked l (Readable upper_case)) (filter (active_at date) item.batches)
              (Walked-active date item.batches fit readable))
            run in
        let (new, recorded, lines) =
          recorded_each l upper_case accepts all_accepted "CONSUMPTION" item.tenant_id item.id
            branch none date (consumption_known upper) refl ids clocks k details ledger.rows [] none
            traced in
        let lines' : map (line_of l) new
            ≡ map (line "CONSUMPTION" item.tenant_id item.id branch date)
                (picks l (milli quantity) active) =
          lines ∙ ap (map (line "CONSUMPTION" item.tenant_id item.id branch date)) told in
        let room : milli quantity ≤ total l active = omega (
          arith,
          total-sort l (filter (active_at date) item.batches),
          total-filter l (active_at date) item.batches,
        ) in
        (
          after_consume l item quantity date touched branch batches' details,
          stock_consumed (record {
            item_id = item.id;
            tenant_id = item.tenant_id;
            branch_id = branch;
            quantity = Quantity.get_value d quantity;
            consumed_batches = details;
            occurred_on = date;
          }),
          branch,
          new,
          consume_run l quantity left date touched item branch batches' details one
              (ground (arith, is_zero_lem l quantity fq))
              (ground (
                arith,
                is_greater_than_lem l quantity (current_stock date item) fq stock_fits,
                stock_value,
              ))
              eb run,
          refl,
          handled "CONSUMPTION" item.tenant_id item.id branch date k (Quantity.get_value d quantity)
              details ledger new recorded,
          lines',
          ap sum_lines lines'
              ∙ sum_lines-map "CONSUMPTION" item.tenant_id item.id branch date
                  (picks l (milli quantity) active)
              ∙ sum_quantities-picks (milli quantity) active room,
        )
