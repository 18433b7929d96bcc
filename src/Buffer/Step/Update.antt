-- ===== src/Buffer/Step/Update.antt =====
-- upsertByID, updateByID and updateBySeq: every branch keeps the scope.
use inmem_cache.Base.{
  ℕ, ◌+◌, ◌^◌, ◌<◌, ◌≡◌, Option, none, some, length, inl, inr, Option-cases, nat_eq, ◌∙◌, sym,
}
use mathlib.Core.Path.{subst}
use inmem_cache.Base.Bytes.{Bytes, bytes_eq}
use inmem_cache.Base.Map
use inmem_cache.Json.{Json}
use inmem_cache.Types.{Item}
use inmem_cache.Ledger.{Ledger}
use inmem_cache.Errors.{Result, ok, err}
use inmem_cache.Buffer.{ScopeBuffer, Outcome, item_cap_exceeded, render_or_compute, replaced}
use inmem_cache.Buffer.Write.{
  fresh_item, replace_existing, upsert_result, created_result, upsert_by_id, updated_count,
  update_by_id, update_found, update_by_seq,
}
use inmem_cache.Buffer.Items.Defs.{find_id, find_seq, IsSized}
use inmem_cache.Buffer.Items.{find_id-find_seq, find_seq-seq}
use inmem_cache.Buffer.Valid.{IsValid}
use inmem_cache.Buffer.Step.{Keeps-same, Kept, Kept-if}
use inmem_cache.Buffer.Step.Insert.{insert_new_item-Keeps}
use inmem_cache.Buffer.Step.Replace.{replace_existing-Keeps}

Kept-updated_count :
    (b : ScopeBuffer) (l : Ledger) (out : Result (Option Item) × ScopeBuffer × Ledger)
    → Kept {A = Option Item} b l out
    → Kept b l (updated_count out)
unfolding updated_count
Kept-updated_count b l (err e, b', l') k = k
Kept-updated_count b l (ok none, b', l') k = k
Kept-updated_count b l (ok (some x), b', l') k = k

Kept-upsert_result :
    (b : ScopeBuffer) (l : Ledger) (out : Result (Option Item) × ScopeBuffer × Ledger)
    → Kept {A = Option Item} b l out
    → Kept b l (upsert_result out)
unfolding upsert_result
Kept-upsert_result b l (err e, b', l') k = k
Kept-upsert_result b l (ok none, b', l') k = k
Kept-upsert_result b l (ok (some x), b', l') k = k

Kept-created_result :
    (b : ScopeBuffer) (l : Ledger) (out : Outcome Item)
    → Kept b l out
    → Kept b l (created_result out)
unfolding created_result
Kept-created_result b l (err e, b', l') k = k
Kept-created_result b l (ok x, b', l') k = k

module _ ⦃json : Json⦄ (b : ScopeBuffer) (l : Ledger) (now_us : ℕ) (v : IsValid b) where
  -- An upsert on a well-formed scope keeps the scope well-formed and the counters of the store
  -- in lockstep with it, on every branch, where the items fit an int64 and the seqs have room.
  pub upsert_by_id-Keeps :
      (item : Item)
      → b.last_seq + 1 < 2 ^ 63
      → IsSized (fresh_item item now_us)
      → ((x : Item)
          → find_id b.items item.id ≡ some x
          → IsSized
              (replaced x item.payload now_us (render_or_compute item.render_bytes item.payload)))
      → Kept b l (upsert_by_id b l item now_us)
  unfolding upsert_by_id
  upsert_by_id-Keeps item room new_sized old_sized =
      Kept-if b l b.detached _ _ (λ _. Keeps-same b l v)
        (λ _. elim (Option-cases (Map.lookup b.by_id item.id)) [
          | inl absent ↦ rw absent (
              Kept-if b l (item_cap_exceeded b (length b.items + 1)) _ _ (λ _. Keeps-same b l v)
                (λ allowed. Kept-created_result b l _ (
                  insert_new_item-Keeps b l item now_us v room new_sized
                    (inr (sym (v.ids_agree item.id) ∙ absent)) allowed)))
          | inr (x, hit) ↦
              let found : find_id b.items item.id ≡ some x = sym (v.ids_agree item.id) ∙ hit in
              rw hit (
                Kept-upsert_result b l _ (
                  replace_existing-Keeps b l x item.payload _ now_us v
                    (find_id-find_seq 0 b.items item.id x v.ascends found) (old_sized x found)))
        ])

  -- An update by id on a well-formed scope keeps the scope well-formed and the counters of the
  -- store in lockstep with it, on every branch, where the replacement fits an int64.
  pub update_by_id-Keeps :
      (id payload : Bytes) (pre_render : Option Bytes)
      → ((x : Item)
          → find_id b.items id ≡ some x
          → IsSized (replaced x payload now_us (render_or_compute pre_render payload)))
      → Kept b l (update_by_id b l id payload pre_render now_us)
  unfolding update_by_id
  update_by_id-Keeps id payload pre_render sized =
      Kept-if b l b.detached _ _ (λ _. Keeps-same b l v)
        (λ _. elim (Option-cases (Map.lookup b.by_id id)) [
          | inl absent ↦ rw absent (Keeps-same b l v)
          | inr (x, hit) ↦
              let found : find_id b.items id ≡ some x = sym (v.ids_agree id) ∙ hit in
              rw hit (
                Kept-updated_count b l _ (
                  replace_existing-Keeps b l x payload _ now_us v
                    (find_id-find_seq 0 b.items id x v.ascends found) (sized x found)))
        ])

  update_found-Keeps :
      (x : Item) (payload : Bytes) (render : Option Bytes)
      → find_seq b.items x.seq ≡ some x
      → IsSized (replaced x payload now_us render)
      → Kept b l (update_found b l x payload render now_us)
  unfolding update_found
  update_found-Keeps x payload render found sized =
      Kept-if b l _ _ (updated_count (replace_existing b l x payload render now_us))
        (λ _. Keeps-same b l v)
        (λ _.
          Kept-updated_count b l _
            (replace_existing-Keeps b l x payload render now_us v found sized))

  -- An update by seq on a well-formed scope keeps the scope well-formed and the counters of the
  -- store in lockstep with it, on every branch, where the replacement fits an int64.
  pub update_by_seq-Keeps :
      (seq : ℕ) (payload : Bytes) (pre_render : Option Bytes)
      → ((x : Item)
          → find_seq b.items seq ≡ some x
          → IsSized (replaced x payload now_us (render_or_compute pre_render payload)))
      → Kept b l (update_by_seq b l seq payload pre_render now_us)
  unfolding update_by_seq
  update_by_seq-Keeps seq payload pre_render sized =
      Kept-if b l b.detached _ _ (λ _. Keeps-same b l v)
        (λ _. elim (Option-cases (Map.lookup b.by_seq seq)) [
          | inl absent ↦ rw absent (Keeps-same b l v)
          | inr (x, hit) ↦
              let found : find_seq b.items seq ≡ some x = sym (v.seqs_agree seq) ∙ hit in
              let at_own : find_seq b.items x.seq ≡ some x =
                subst (λ t. find_seq b.items t ≡ some x)
                  (sym (find_seq-seq 0 seq b.items x v.ascends found).0) found in
              rw hit (
                update_found-Keeps x payload (render_or_compute pre_render payload) at_own
                  (sized x found))
        ])
