-- ===== src/Movements/Recorded.antt =====
-- A list of details that the loop over the batches wrote is recorded in full.
use komi_saas_api.Base.{
  ℕ, suc, ◌<◌, String, Option, some, Bool, true, false, List, [], ◌∷◌, ◌++◌, map, ◌≡◌, refl, ap,
  ◌∙◌, arith, All, is_empty, ◌&&◌, append_assoc, append-nil, sym,
}
use komi_saas_api.Base.Throws.{ok}
use komi_saas_api.Shared.Decimal.{Decimal, DecimalLaws}
use komi_saas_api.Shared.Quantity
use komi_saas_api.Shared.Quantity.Exact.{is_zero_lem, of-get_value}
use komi_saas_api.Shared.Money.{Money, get_amount}
use komi_saas_api.Shared.Money as Money_ops
use komi_saas_api.Inventory.Batch.{Batch}
use komi_saas_api.Inventory.Event.{BatchDetail}
use komi_saas_api.Inventory.Drain.{detail}
use komi_saas_api.Inventory.Drain.Shrink.{read, read-detail}
use komi_saas_api.Movements.Movement.{
  Movement, MovementError, RecordParams, execute, create_type, requires_reason, is_missing, trimmed,
}
use komi_saas_api.Movements.Handlers.{movement_of, record_each}
use komi_saas_api.Movements.Trace.{Traced}

-- A line of the ledger as it is read: whose stock, what kind of movement, when, and what of which batch.
pub record Line : Type 0 where
  pub tenant_id : String
  pub inventory_item_id : String
  pub branch_id : String
  pub movement_type : String
  pub occurred_at : ℕ
  pub batch_id : Option String
  pub thousandths : ℕ

abbrev pub line : String → String → String → String → ℕ → String × ℕ → Line
line type tenant item branch date (batch, quantity) = record {
  tenant_id = tenant;
  inventory_item_id = item;
  branch_id = branch;
  movement_type = type;
  occurred_at = date;
  batch_id = some batch;
  thousandths = quantity;
}

module _ {d : Decimal} (l : DecimalLaws d) where
  open l use {Fits, milli}

  abbrev pub line_of : Movement d → Line
  line_of m = record {
    tenant_id = m.tenant_id;
    inventory_item_id = m.inventory_item_id;
    branch_id = m.branch_id;
    movement_type = m.movement_type;
    occurred_at = m.occurred_at;
    batch_id = m.batch_id;
    thousandths = milli m.quantity;
  }

-- The unit cost of a batch is written as an amount and a currency that can be read.
abbrev pub Readable : {d : Decimal} → (String → String) → Batch d → Type 0
Readable {d} upper_case b =
    (cost : Money d) × (is_empty (get_amount d b.unit_cost) ≡ false)
    × (is_empty b.unit_cost.currency ≡ false)
    × (Money_ops.of d upper_case (get_amount d b.unit_cost) b.unit_cost.currency ≡ ok cost)

module _ {d : Decimal} (l : DecimalLaws d) (upper_case : String → String)
    (accepts : Movement d → Bool) (all_accepted : (m : Movement d) → accepts m ≡ true)
    (type tenant item branch : String) (reason : Option String) (date : ℕ)
    (known : create_type upper_case type ≡ ok type)
    (explained : requires_reason type && is_missing (trimmed reason) ≡ false) where
  open l use {Fits, milli}

  abbrev movement : BatchDetail → RecordParams
  movement = movement_of type tenant item branch reason date

  recorded_one :
      (b : Batch d) (t : d.Num) (id : String) (clock : ℕ × ℕ) (rows : List (Movement d))
      → Fits t
      → 0 < milli t
      → Readable upper_case b
      → (m : Movement d) × (execute d upper_case accepts (movement (detail b t)) id clock rows
          ≡ ok (rows ++ (m ∷ [])))
        × (line_of l m ≡ line type tenant item branch date (b.id, milli t))
  unfolding execute detail
  recorded_one b t id (first, second) rows ft positive (cost, amount, currency, good) =
      let m : Movement d = record {
        id = id;
        tenant_id = tenant;
        inventory_item_id = item;
        branch_id = branch;
        batch_id = some b.id;
        movement_type = type;
        quantity = t;
        unit_cost = some cost;
        reason = trimmed reason;
        occurred_at = date;
        registered_at = second;
      } in
      let z : Quantity.is_zero d t ≡ false = ground (arith, is_zero_lem l t ft) in
      (m, ground (arith, of-get_value l t ft, all_accepted m), refl)

  record_step :
      (k : ℕ) (e : RecordParams) (es : List RecordParams) (rows rows' : List (Movement d))
      (failed : List RecordParams) (last : Option MovementError) (ids : ℕ → String)
      (clocks : ℕ → ℕ × ℕ)
      → execute d upper_case accepts e (ids k) (clocks k) rows ≡ ok rows'
      → record_each upper_case accepts ids clocks k (e ∷ es) rows (failed, last)
        ≡ record_each upper_case accepts ids clocks (suc k) es rows' (failed, last)
  unfolding record_each
  record_step k e es rows rows' failed last ids clocks run = ground arith

  -- All movements of the details are recorded, in order, and none fails.
  pub recorded_each :
      (ids : ℕ → String) (clocks : ℕ → ℕ × ℕ) (k : ℕ) (details : List BatchDetail)
      (rows : List (Movement d)) (failed : List RecordParams) (last : Option MovementError)
      → All (Traced l (Readable upper_case)) details
      → (new : List (Movement d)) × (record_each upper_case accepts ids clocks k
            (map movement details)
            rows
            (failed, last)
          ≡ (rows ++ new, failed, last))
        × (map (line_of l) new ≡ map (line type tenant item branch date) (map (read l) details))
  unfolding record_each
  recorded_each ids clocks k [] rows failed last h =
      ([], (ap (λ r. (r, failed, last)) (sym (append-nil rows))), refl)
  recorded_each ids clocks k (e ∷ es) rows failed last h =
      let (b, t, same, ft, positive, readable) = h.0 in
      let (m, run, seen) = recorded_one b t (ids k) (clocks k) rows ft positive readable in
      let (new, rest, lines) =
        recorded_each ids clocks (suc k) es (rows ++ (m ∷ [])) failed last h.1 in
      let run' : execute d upper_case accepts (movement e) (ids k) (clocks k) rows
          ≡ ok (rows ++ (m ∷ [])) =
        rw same run in
      let shown : read l e ≡ (b.id, milli t) = rw same (read-detail l b t ft) in
      (
        m ∷ new,
        record_step k (movement e) (map movement es) rows (rows ++ (m ∷ [])) failed last ids clocks
              run'
            ∙ rest
            ∙ ap (λ r. (r, failed, last)) (append_assoc rows (m ∷ []) new),
        ap (λ t. line_of l m ∷ t) lines
            ∙ ap (λ (x : Line). x ∷ map (line type tenant item branch date) (map (read l) es))
                (seen ∙ ap (line type tenant item branch date) (sym shown)),
      )
