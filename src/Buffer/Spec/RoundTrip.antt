-- ===== src/Buffer/Spec/RoundTrip.antt =====
-- What the reads of a scope find after an upsert: upsertByID, then getByID and getBySeq.
use mathlib.Core.Path.{subst}
use inmem_cache.Base.{
  ℕ, ◌+◌, ◌^◌, ◌<◌, ◌≡◌, ◌⊎◌, refl, sym, ◌∙◌, ap, Bool, true, false, none, some, Option, arith, inl,
  inr, Bool-cases, Option-cases, if◌then◌else◌, ◌==◌, nat_eq, if_false, length, get_elem?,
}
use inmem_cache.Base.Bytes.{Bytes, bytes_beq, is_empty, bytes_eq}
use inmem_cache.Base.Word.{word}
use inmem_cache.Base.Map
use inmem_cache.Json.{Json}
use inmem_cache.Types.{Item, approx_item_size, length_opt}
use inmem_cache.Errors.{Error, ok, err, Result-cases}
use inmem_cache.Ledger.{Ledger}
use inmem_cache.Buffer.{
  ScopeBuffer, Outcome, charge, index_by_seq, reserve_payload_delta, payload_and_render_bytes,
  item_cap_exceeded, replace_item_at_index,
}
use inmem_cache.Buffer.Write.{
  fresh_item, upsert_by_id, upsert_result, created_result, insert_new_item, replace_existing,
  push_item,
}
use inmem_cache.Buffer.Read.{get_by_id, get_by_seq, materialise_counter}
use inmem_cache.Buffer.Items.Defs.{find_id, find_seq, has_id, IsSized}
use inmem_cache.Buffer.Items.{find_id-insert, find_seq-insert, find_id-has_id}
use inmem_cache.Buffer.Valid.{IsValid}
use inmem_cache.Buffer.Step.Update.{upsert_by_id-Keeps}
use inmem_cache.Buffer.Spec.Append.{stored}
use inmem_cache.Buffer.Spec.Upsert.{Upserts, over, upsert_by_id_exact}
use inmem_cache.Buffer.Spec.Read.{seen, get_by_id_exact, get_by_seq_exact}

-- The reads find `y` under the id and under its seq, and all else that they found before.
pub record Reads (b b' : ScopeBuffer) (id : Bytes) (y : Item) : Type 0 where
  pub by_id : (k : Bytes) → get_by_id b' k ≡ (if bytes_beq id k then some y else get_by_id b k)
  pub by_seq : (s : ℕ) → get_by_seq b' s ≡ (if y.seq == s then some y else get_by_seq b s)

seen-cells : (b b' : ScopeBuffer) (o : Option Item) → b'.cells ≡ b.cells → seen b' o ≡ seen b o
seen-cells b b' none same = refl
seen-cells b b' (some x) same = ap (λ cells. some (materialise_counter cells x)) same

seen-if :
    (b : ScopeBuffer) (y : Item) (c : Bool) (o : Option Item)
    → y.counter ≡ none
    → seen b (if c then some y else o) ≡ (if c then some y else seen b o)
unfolding materialise_counter
seen-if b y true o plain = rw plain refl
seen-if b y false o plain = refl

module _ (b b' : ScopeBuffer) (v : IsValid b) (v' : IsValid b') (same : b'.cells ≡ b.cells)
    (id : Bytes) (y : Item) (plain : y.counter ≡ none) where
  found-Reads :
      ((k : Bytes) → find_id b'.items k ≡ (if bytes_beq id k then some y else find_id b.items k))
      → ((s : ℕ) → find_seq b'.items s ≡ (if y.seq == s then some y else find_seq b.items s))
      → Reads b b' id y
  found-Reads ids seqs = record {
    by_id = λ k.
        get_by_id_exact b' v' k
        ∙ ap (seen b') (ids k)
        ∙ seen-cells b b' _ same
        ∙ seen-if b y (bytes_beq id k) (find_id b.items k) plain
        ∙ ap (λ o. if bytes_beq id k then some y else o) (sym (get_by_id_exact b v k));
    by_seq = λ s.
        get_by_seq_exact b' v' s
        ∙ ap (seen b') (seqs s)
        ∙ seen-cells b b' _ same
        ∙ seen-if b y (y.seq == s) (find_seq b.items s) plain
        ∙ ap (λ o. if y.seq == s then some y else o) (sym (get_by_seq_exact b v s));
  }

has_id-same :
    (x : Item) (id k : Bytes) → (x.id ≡ id) × (is_empty x.id ≡ false) → has_id x k ≡ bytes_beq id k
has_id-same x id k h = rw (h.1, h.0) refl

created_result-cells :
    (b : ScopeBuffer) (out : Outcome Item)
    → out.1.cells ≡ b.cells
    → (created_result out).1.cells ≡ b.cells
unfolding created_result
created_result-cells b (err e, b', l') same = same
created_result-cells b (ok x, b', l') same = same

upsert_result-cells :
    (b : ScopeBuffer) (out : Outcome (Option Item))
    → out.1.cells ≡ b.cells
    → (upsert_result out).1.cells ≡ b.cells
unfolding upsert_result
upsert_result-cells b (err e, b', l') same = same
upsert_result-cells b (ok none, b', l') same = same
upsert_result-cells b (ok (some x), b', l') same = same

replace_existing-cells :
    (b : ScopeBuffer) (l : Ledger) (x : Item) (payload : Bytes) (render : Option Bytes) (now_us : ℕ)
    → (replace_existing b l x payload render now_us).1.cells ≡ b.cells
unfolding replace_existing replace_item_at_index
replace_existing-cells b l x payload render now_us =
    let paid =
      reserve_payload_delta b l (payload_and_render_bytes x)
        (word (length payload + length_opt render)) in
    elim (Result-cases paid) [
      | inl (e, refused) ↦ rw (refused, replace_existing) refl
      | inr (granted, paid_for) ↦ elim (Option-cases (index_by_seq b.items x.seq)) [
        | inl missing ↦ rw (paid_for, missing, replace_existing) refl
        | inr (i, there) ↦ elim (Option-cases (get_elem? b.items i)) [
          | inl nothing ↦ rw (paid_for, there, nothing, replace_existing) refl
          | inr (y, at) ↦ rw (paid_for, there, at, replace_existing) refl
        ]
      ]
    ]

module _ ⦃json : Json⦄ (b : ScopeBuffer) (l : Ledger) (now_us : ℕ) where
  insert_new_item-cells : (item : Item) → (insert_new_item b l item now_us).1.cells ≡ b.cells
  unfolding insert_new_item push_item
  insert_new_item-cells item =
      elim (Result-cases (charge b l (approx_item_size (fresh_item item now_us)))) [
        | inl (e, refused) ↦ rw (refused, insert_new_item) refl
        | inr (l', granted) ↦ rw (granted, insert_new_item) refl
      ]

  upsert_by_id-cells : (item : Item) → (upsert_by_id b l item now_us).1.cells ≡ b.cells
  unfolding upsert_by_id
  upsert_by_id-cells item = elim (Bool-cases b.detached) [
    | inl gone ↦ rw (gone, upsert_by_id) refl
    | inr live ↦ elim (Option-cases (Map.lookup b.by_id item.id)) [
      | inr (x, hit) ↦
          rw (live, hit, upsert_by_id)
            (upsert_result-cells b _ (replace_existing-cells b l x item.payload _ now_us))
      | inl absent ↦ elim (Bool-cases (item_cap_exceeded b (length b.items + 1))) [
        | inl full ↦ rw (live, absent, full, upsert_by_id) refl
        | inr room ↦
            rw (live, absent, room, upsert_by_id)
              (created_result-cells b _ (insert_new_item-cells item))
      ]
    ]
  ]

  -- On a scope that is well-formed and not detached, an upsert under an id that is not empty
  -- fails and changes nothing, or returns an item with the payload and the time that it was
  -- given, which a read by the id then finds, and a read by its seq; a read by any other id or
  -- seq finds what it found before, counters included. The items have to fit an int64, and a
  -- seq has to be left.
  pub upsert_by_id-Reads :
      (item : Item)
      → IsValid b
      → b.detached ≡ false
      → is_empty item.id ≡ false
      → b.last_seq + 1 < 2 ^ 63
      → IsSized (fresh_item item now_us)
      → ((x : Item)
          → find_id b.items item.id ≡ some x
          → IsSized (over now_us item.payload item.render_bytes x))
      → ((e : Error) × (upsert_by_id b l item now_us ≡ (err e, b, l)))
        ⊎ ((y : Item) × (created : Bool) × ((upsert_by_id b l item now_us).0 ≡ ok (y, created))
            × (y.payload ≡ item.payload)
            × (y.ts ≡ now_us)
            × Reads b (upsert_by_id b l item now_us).1 item.id y)
  unfolding fresh_item
  upsert_by_id-Reads item v live named room sized old =
      let out = upsert_by_id b l item now_us in
      let v' = (upsert_by_id-Keeps b l now_us v item room sized old).valid in
      let same = upsert_by_id-cells item in
      let new = stored b l item now_us in
      let changed = over now_us item.payload item.render_bytes in
      let exact = upsert_by_id_exact b l now_us v live item old in
      elim (Option-cases (find_id b.items item.id)) [
        | inr (x, found) ↦
            let held : Upserts b l (some x) changed new out =
              subst (λ o. Upserts b l o changed new out) found exact in
            elim held [
              | inl (e, refused) ↦ inl (e, refused)
              | inr (done, ex) ↦
                  let at = find_id-has_id b.items item.id x found in
                  inr (
                    changed x,
                    false,
                    done,
                    refl,
                    refl,
                    found-Reads b out.1 v v' same item.id (changed x) refl
                        (λ k.
                          ex.by_id k
                          ∙ ap (λ c. if c then some (changed x) else find_id b.items k)
                              (has_id-same x item.id k at))
                        ex.by_seq,
                  )
            ]
        | inl absent ↦
            let held : Upserts b l none changed new out =
              subst (λ o. Upserts b l o changed new out) absent exact in
            elim held [
              | inl (e, refused) ↦ inl (e, refused)
              | inr (done, at_end) ↦ inr (
                new,
                true,
                done,
                refl,
                refl,
                found-Reads b out.1 v v' same item.id new refl
                    (λ k.
                      ap (λ xs. find_id xs k) at_end
                      ∙ find_id-insert new b.items k (inr absent)
                      ∙ ap (λ c. if c then some new else find_id b.items k) (if_false _ _ _ named))
                    (λ s.
                      ap (λ xs. find_seq xs s) at_end
                      ∙ find_seq-insert new b.last_seq b.items s v.at_most (omega arith)),
              )
            ]
      ]
