-- ===== src/Buffer/Spec/Counter.antt =====
-- counterAdd on a counter that exists, in exact arithmetic, and what a read then shows.
use inmem_cache.Base.{
  ℕ, suc, zero, ◌+◌, ◌-◌, ◌%◌, ◌^◌, ◌<◌, ◌≡◌, ◌⊎◌, refl, Bool, true, false, some, List, [], ◌∷◌,
  length, arith, inl, inr, ap, ◌∙◌, set, ◌||◌, Bool-cases, if◌then◌else◌, ltb, if_false,
}
use inmem_cache.Base.Word.{slt, add64}
use inmem_cache.Base.Bytes.{Bytes, bytes_eq}
use inmem_cache.Decimal.{append_int, parse_int}
use inmem_cache.Decimal.RoundTrip.{parse_int-append_int}
use inmem_cache.Json.{Json}
use inmem_cache.Types.{Item, CounterCell, max_counter_value}
use inmem_cache.Ledger.{Ledger}
use inmem_cache.Errors.{ok, err, counter_overflow}
use inmem_cache.Buffer.{ScopeBuffer, Outcome}
use inmem_cache.Buffer.Counter.{
  out_of_counter_range, cell_at, atomic_counter_add, incremented, increment, fast_cell, counter_add,
}
use inmem_cache.Buffer.Read.{render_counter_payload, materialise_counter, get_by_id}
use inmem_cache.Buffer.Items.Defs.{find_id}
use inmem_cache.Buffer.Valid.{IsValid}

-- The int64 of a word, moved up by 2 ^ 63: its order and its sums are those of the integers.
abbrev pub biased : ℕ → ℕ
biased v = (v + 2 ^ 63) % 2 ^ 64

-- The exact sum of the two, moved up by 2 ^ 64, lies outside ±(2 ^ 53 - 1).
abbrev pub sum_out_of_range : ℕ → ℕ → Bool
sum_out_of_range v by =
    ltb (biased v + biased by) (2 ^ 64 - max_counter_value)
    || ltb (2 ^ 64 + max_counter_value) (biased v + biased by)

-- The new value is the exact sum, it is what the cell holds, and what a read of `id` parses to.
pub record Added (b : ScopeBuffer) (l : Ledger) (id : Bytes) (c v by : ℕ) (out : Outcome (ℕ × Bool))
    : Type 0 where
  pub value : ℕ
  pub exact : biased value + 2 ^ 63 ≡ biased v + biased by
  pub returned : out.0 ≡ ok (value, false)
  pub held : (cell_at out.1.cells c).value ≡ value
  pub same_items : out.1.items ≡ b.items
  pub same_ledger : out.2 ≡ l
  pub shown : Item
  pub read : get_by_id out.1 id ≡ some shown
  pub parsed : parse_int shown.payload ≡ some value

get_elem?-set-same :
    (cells : List CounterCell) (c : ℕ) (y : CounterCell)
    → c < length cells
    → cell_at (set cells c y) c ≡ y
get_elem?-set-same [] c y h = ground arith
get_elem?-set-same (x ∷ xs) zero y h = refl
get_elem?-set-same (x ∷ xs) (suc c) y h = get_elem?-set-same xs c y (omega arith)

module _ ⦃json : Json⦄ (b : ScopeBuffer) (l : Ledger) (scope id : Bytes) (x : Item)
    (c by now_us : ℕ) (v : IsValid b) (live : b.detached ≡ false)
    (found : find_id b.items id ≡ some x) (counts : x.counter ≡ some c) (held : c < length b.cells)
    (in_range : out_of_counter_range (cell_at b.cells c).value ≡ false)
    (by_range : out_of_counter_range by ≡ false) where
  fast :
      counter_add b l scope id by now_us ≡ incremented b l (atomic_counter_add b.cells c by now_us)
  unfolding increment counter_add
  fast =
      let cell : fast_cell b id ≡ some c =
        unfold fast_cell in
        if_false b.detached _ _ live ∙ rw (v.ids_agree id ∙ found, counts) refl in
      rw (cell, counter_add) refl

  -- On a scope that is well-formed and not detached, an increment of an existing counter whose
  -- value and whose step lie within ±(2 ^ 53 - 1) gives the exact sum, which the cell then
  -- holds and which the payload of a read by id parses to; or, exactly where the exact sum lies
  -- outside, it fails and changes nothing.
  pub counter_add_exact :
      ((sum_out_of_range (cell_at b.cells c).value by ≡ false)
        × Added b l id c (cell_at b.cells c).value by (counter_add b l scope id by now_us))
      ⊎ ((sum_out_of_range (cell_at b.cells c).value by ≡ true)
          × (counter_add b l scope id by now_us
              ≡ (err (counter_overflow (cell_at b.cells c).value by), b, l)))
  unfolding atomic_counter_add incremented
  counter_add_exact =
      let old = (cell_at b.cells c).value in
      elim (Bool-cases (out_of_counter_range (add64 old by))) [
        | inl over ↦ inr (ground arith, fast ∙ rw over refl)
        | inr within ↦
            let y : CounterCell = record {
              value = add64 old by;
              ts = if slt (cell_at b.cells c).ts now_us then now_us else (cell_at b.cells c).ts;
            } in
            let out : counter_add b l scope id by now_us
                ≡ (ok (add64 old by, false), record b { cells = set b.cells c y }, l) =
              fast ∙ rw within refl in
            inl (
              ground arith,
              rw out (record {
                value = add64 old by;
                exact = ground arith;
                returned = refl;
                held = ap (λ z. z.value) (get_elem?-set-same b.cells c y held);
                same_items = refl;
                same_ledger = refl;
                shown = record x { payload = append_int (add64 old by); ts = y.ts };
                read =
                    unfold get_by_id materialise_counter render_counter_payload in
                    rw
                      (
                        v.ids_agree id ∙ found,
                        counts,
                        get_elem?-set-same b.cells c y held,
                        get_by_id,
                      )
                      refl;
                parsed = parse_int-append_int (add64 old by) (omega arith);
              }),
            )
      ]

-- The payload that a counter is shown with, whatever int64 its cell holds, is a decimal text
-- that parses back to that int64.
pub parse_int-render_counter_payload :
    (cell : CounterCell)
    → cell.value < 2 ^ 64
    → parse_int (render_counter_payload cell) ≡ some cell.value
unfolding render_counter_payload
parse_int-render_counter_payload cell range = parse_int-append_int cell.value range
