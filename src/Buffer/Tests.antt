-- ===== src/Buffer/Tests.antt =====
-- The theorems about the methods of a scope, on the scopes of Fixture.
use inmem_cache.Base.Interleave.{Race, Reach, turn, here, next, sum_by, AllOf}
use inmem_cache.Types.{CounterCell}
use inmem_cache.Buffer.Counter.Race.{
  Adder, Move, calling, added, load, swap, retry, load_ts, swap_ts, is_later,
}
use inmem_cache.Buffer.Counter.Race.Invariant.{IsCounted, Reach-IsCounted}
use inmem_cache.Buffer.Items.Defs.{find_id, find_seq}
use inmem_cache.Types.{Item}
use inmem_cache.Errors.{Error, ok, err, counter_overflow}
use inmem_cache.Buffer.Write.{zero_item}
use inmem_cache.Base.{◌^◌}
use inmem_cache.Decimal.{parse_int}
use inmem_cache.Buffer.Read.{render_counter_payload}
use inmem_cache.Buffer.Spec.Counter.{
  parse_int-render_counter_payload, Added, sum_out_of_range, counter_add_exact,
}
use inmem_cache.Base.{◌≡◌, ◌⊎◌, Bool, [], ◌∷◌, some, true, false, refl, arith, none}
use inmem_cache.Base.Bytes.{bytes}
use inmem_cache.Buffer.{render_or_compute, precompute_render_bytes, trim_left}
use inmem_cache.Buffer.Write.{append_item, upsert_by_id, update_by_id, fresh_item}
use inmem_cache.Buffer.Delete.{delete_by_id, delete_by_seq, delete_up_to_seq}
use inmem_cache.Buffer.Counter.{counter_add}
use inmem_cache.Buffer.Fixture.{
  plain_json, ledger_one, first, second, one, one-IsValid, short_by_id,
}
use inmem_cache.Buffer.{ScopeBuffer}
use inmem_cache.Buffer.Valid.{IsValid}
use inmem_cache.Buffer.Spec.RoundTrip.{Reads, upsert_by_id-Reads}
use inmem_cache.Buffer.Read.{tail_offset, since_seq}
use inmem_cache.Buffer.Spec.Append.{StoresOrRefuses, stored, append_item_outcome}
use inmem_cache.Buffer.Spec.Delete.{
  Removes, Drains, delete_by_id_exact, delete_by_seq_exact, delete_up_to_seq_exact,
}
use inmem_cache.Buffer.Spec.Upsert.{Upserts, Updates, over, upsert_by_id_exact, update_by_id_exact}
use inmem_cache.Buffer.Spec.Read.{IsSince, IsTail, since_seq_exact, tail_offset_exact}
use inmem_cache.Buffer.Replace.{replace_all}
use inmem_cache.Buffer.Spec.Replace.{IsReplaced, replace_all_exact}
use inmem_cache.Buffer.Step.Counter.{counter_add-Keeps}
use inmem_cache.Buffer.Step.Calls.{
  InLockstep, append, delete_seq, drain, idle, and_then, Calls-InLockstep,
}

append_item_outcome_example :
    StoresOrRefuses one ledger_one
      (stored one ledger_one second 9)
      (append_item one ledger_one second 9)
append_item_outcome_example = append_item_outcome one ledger_one second 9

delete_by_id_exact_example :
    Removes one ledger_one
      (find_id one.items (bytes "a"))
      (delete_by_id one ledger_one (bytes "a") 9)
delete_by_id_exact_example = delete_by_id_exact one ledger_one 9 one-IsValid refl (bytes "a")

delete_by_seq_exact_example :
    Removes one ledger_one (find_seq one.items 1) (delete_by_seq one ledger_one 1 9)
delete_by_seq_exact_example = delete_by_seq_exact one ledger_one 9 one-IsValid refl 1

delete_up_to_seq_exact_example : Drains one 1 (delete_up_to_seq one ledger_one 1 9)
delete_up_to_seq_exact_example = delete_up_to_seq_exact one ledger_one 9 one-IsValid refl 1

upsert_by_id_exact_example :
    Upserts one ledger_one
      (find_id one.items first.id)
      (over 9 first.payload first.render_bytes)
      (stored one ledger_one first 9)
      (upsert_by_id one ledger_one first 9)
unfolding render_or_compute precompute_render_bytes trim_left
upsert_by_id_exact_example =
    upsert_by_id_exact one ledger_one 9 one-IsValid refl first
      (λ x e. ground (arith, short_by_id (bytes "a") x e))

update_by_id_exact_example :
    Updates one ledger_one
      (find_id one.items (bytes "a"))
      (over 9 (bytes "77") none)
      (update_by_id one ledger_one (bytes "a") (bytes "77") none 9)
unfolding render_or_compute precompute_render_bytes trim_left
update_by_id_exact_example =
    update_by_id_exact one ledger_one 9 one-IsValid refl (bytes "a") (bytes "77") none
      (λ x e. ground (arith, short_by_id (bytes "a") x e))

upsert_by_id-Reads_example :
    ((e : Error) × (upsert_by_id one ledger_one first 9 ≡ (err e, one, ledger_one)))
    ⊎ ((y : Item) × (created : Bool) × ((upsert_by_id one ledger_one first 9).0 ≡ ok (y, created))
        × (y.payload ≡ first.payload)
        × (y.ts ≡ 9)
        × Reads one (upsert_by_id one ledger_one first 9).1 (bytes "a") y)
unfolding render_or_compute precompute_render_bytes trim_left fresh_item
upsert_by_id-Reads_example =
    upsert_by_id-Reads one ledger_one 9 first one-IsValid refl refl (omega arith) (omega arith)
      (λ x e. ground (arith, short_by_id (bytes "a") x e))

since_seq_exact_example : IsSince one 0 5 (since_seq one 0 5)
since_seq_exact_example =
    since_seq_exact one one-IsValid (omega arith) 0 5 (omega arith) (omega arith)

tail_offset_exact_example : IsTail one 5 0 (tail_offset one 5 0)
tail_offset_exact_example =
    tail_offset_exact one one-IsValid (omega arith) 5 0 (omega arith) (omega arith) (omega arith)

-- `one` with a counter under `c`.
abbrev tally : Item
tally = record zero_item { scope = bytes "s"; id = bytes "c"; seq = 2; ts = 9; counter = some 0 }

abbrev counted : ScopeBuffer
counted = record one {
  items = record first { seq = 1; ts = 8 } ∷ tally ∷ [];
  by_id = (bytes "a", record first { seq = 1; ts = 8 }) ∷ (bytes "c", tally) ∷ [];
  by_seq = (1, record first { seq = 1; ts = 8 }) ∷ (2, tally) ∷ [];
  cells = record { value = 41; ts = 9 } ∷ [];
  last_seq = 2;
  bytes = 157;
  id_key_bytes = 2;
}

counted-IsValid : IsValid counted
unfolding counter_add inmem_cache.Buffer.Counter.fast_cell inmem_cache.Base.Map.lookup
    inmem_cache.Base.Bytes.bytes_beq inmem_cache.Buffer.Counter.counter_add_slow
    inmem_cache.Buffer.Counter.create_counter inmem_cache.Buffer.item_cap_exceeded
    inmem_cache.Buffer.charge inmem_cache.Ledger.reserve_bytes inmem_cache.Types.approx_item_size
counted-IsValid =
    (counter_add-Keeps one ledger_one one-IsValid (bytes "s") (bytes "c") 41 9 refl (omega arith)
      (omega arith) (λ x e. ground (arith, short_by_id (bytes "c") x e))).valid

counter_add_exact_example :
    ((sum_out_of_range 41 7 ≡ false)
      × Added counted ledger_one
          (bytes "c")
          0
          41
          7
          (counter_add counted ledger_one (bytes "s") (bytes "c") 7 10))
    ⊎ ((sum_out_of_range 41 7 ≡ true)
        × (counter_add counted ledger_one (bytes "s") (bytes "c") 7 10
            ≡ (err (counter_overflow 41 7), counted, ledger_one)))
unfolding find_id inmem_cache.Base.Bytes.bytes_beq
counter_add_exact_example =
    counter_add_exact counted ledger_one (bytes "s") (bytes "c") tally 0 7 10 counted-IsValid refl
      refl refl (omega arith) refl refl

parse_int-render_counter_payload_example :
    parse_int (render_counter_payload (record { value = 2 ^ 63; ts = 1 })) ≡ some (2 ^ 63)
parse_int-render_counter_payload_example =
    parse_int-render_counter_payload (record { value = 2 ^ 63; ts = 1 }) (omega arith)

replace_all_exact_example :
    IsReplaced one ledger_one
      (first ∷ second ∷ [])
      (replace_all one ledger_one (first ∷ second ∷ []) 8 9)
replace_all_exact_example = replace_all_exact one ledger_one (first ∷ second ∷ []) 8 9 (omega arith)

-- An append, a delete by seq and a drain.
Calls-InLockstep_example :
    InLockstep one ledger_one
      (delete_up_to_seq
        (delete_by_seq
          (append_item one ledger_one second 9).1
          (append_item one ledger_one second 9).2
          1
          9).1
        (delete_by_seq
          (append_item one ledger_one second 9).1
          (append_item one ledger_one second 9).2
          1
          9).2
        7
        9).1
      (delete_up_to_seq
        (delete_by_seq
          (append_item one ledger_one second 9).1
          (append_item one ledger_one second 9).2
          1
          9).1
        (delete_by_seq
          (append_item one ledger_one second 9).1
          (append_item one ledger_one second 9).2
          1
          9).2
        7
        9).2
unfolding fresh_item render_or_compute precompute_render_bytes trim_left
Calls-InLockstep_example = Calls-InLockstep one-IsValid (
    and_then
      (and_then (and_then idle (append second 9 (omega arith) (omega arith))) (delete_seq 1 9))
      (drain 7 9))

-- Two callers load the same value; the second one swaps first, so that the first one has to load
-- again, and comes to the stamp with an earlier clock.
abbrev shared_cell : Race CounterCell Adder
shared_cell = record { shared = record { value = 5; ts = 0 }; callers = calling 3 ∷ calling 4 ∷ [] }

abbrev both_added : Race CounterCell Adder
both_added = record {
  shared = record { value = 12; ts = 20 };
  callers = added 3 12 10 ∷ added 4 9 20 ∷ [];
}

shared_cell-both_added : Reach Move shared_cell both_added
shared_cell-both_added =
    let one = next here (turn 0 refl load) in
    let two = next one (turn 1 refl load) in
    let three = next two (turn 1 refl (swap 20 refl refl)) in
    let four = next three (turn 0 refl (retry refl (ground arith))) in
    let five = next four (turn 0 refl load) in
    let six = next five (turn 0 refl (swap 10 refl refl)) in
    let seven = next six (turn 1 refl load_ts) in
    let eight = next seven (turn 1 refl (swap_ts refl refl)) in
    let nine = next eight (turn 0 refl load_ts) in next nine (turn 0 refl (is_later refl))

Reach-IsCounted_example : IsCounted 5 both_added
unfolding AllOf sum_by
Reach-IsCounted_example =
    Reach-IsCounted shared_cell-both_added
      (record { in_range = refl; is_word = omega arith; summed = refl; knowing = (tt, (tt, tt)) })
