-- ===== src/Movements/Tests.antt =====
-- A consumption of the samples' milk, recorded.
use komi_saas_api.Base.{
  ℕ, String, Bool, true, List, [], ◌∷◌, ◌++◌, map, filter, ◌≡◌, refl, arith, str_ne, trim,
}
use komi_saas_api.Base.Throws.{ok}
use komi_saas_api.Shared.Quantity
use komi_saas_api.Shared.Money as Money_ops
use komi_saas_api.Shared.Money.{get_amount}
use komi_saas_api.Inventory.Batch.{Batch, is_active}
use komi_saas_api.Inventory.Event.{Event}
use komi_saas_api.Inventory.Item.{Item}
use komi_saas_api.Inventory.Drain.{sort}
use komi_saas_api.Inventory.Drain.Shrink.{picks}
use komi_saas_api.Inventory.Stock.{active_at, consume, active_branches}
use komi_saas_api.Inventory.Thousandths.{plain, thousandths, thousandths_laws}
use komi_saas_api.Inventory.Samples.{milk, price, batch_of}
use komi_saas_api.Movements.Movement.{Movement}
use komi_saas_api.Movements.Handlers.{Ledger, handle}
use komi_saas_api.Movements.Recorded.{Readable, line, line_of}
use komi_saas_api.Movements.Audit.{sum_lines, consumption_is_recorded}

abbrev ids : ℕ → String
ids k = "m"

abbrev clocks : ℕ → ℕ × ℕ
clocks k = (0, k)

abbrev as_it_is : String → String
as_it_is s = s

abbrev accepts : Movement thousandths → Bool
accepts m = true

abbrev no_movements : Ledger thousandths
no_movements = record { rows = []; log = [] }

readable : (b : Batch thousandths) → b.unit_cost ≡ price → Readable as_it_is b
unfolding Money_ops.of Money_ops.is_iso_code Money_ops.make get_amount trim
readable b e = rw e (price, refl, refl, refl)

consumption_is_recorded_example :
    (item' : Item thousandths) × (e : Event) × (branch : String) × (new : List
      (Movement thousandths))
    × (consume {d = thousandths} (plain 4) 50 60 milk ≡ ok item')
    × (item'.domain_events ≡ milk.domain_events ++ (e ∷ []))
    × (handle as_it_is accepts ids clocks 0 e no_movements
        ≡ record no_movements { rows = [] ++ new })
    × (map (line_of thousandths_laws) new
        ≡ map
            (line "CONSUMPTION" "t1" "i1" branch 50)
            (picks thousandths_laws 4 (sort (filter (active_at 50) milk.batches))))
    × (sum_lines (map (line_of thousandths_laws) new) ≡ 4)
unfolding is_active active_branches Quantity.is_zero
consumption_is_recorded_example =
    consumption_is_recorded thousandths_laws as_it_is accepts ids clocks 0 no_movements (plain 4) 50
      60 milk (λ m. refl) refl
      (readable (batch_of "x" 2 200) refl, (readable (batch_of "y" 3 100) refl, tt))
      (omega arith, (omega arith, tt)) ((str_ne "y" "x" refl, tt), (tt, tt)) (omega arith)
      (omega arith) (omega arith) (omega arith) (omega arith)
