-- ===== src/Buffer/Step/Delete.antt =====
-- deleteByID, deleteBySeq and deleteUpToSeq: every branch keeps the scope.
use inmem_cache.Base.{
  ℕ, ◌+◌, ◌≤◌, ◌≡◌, refl, some, List, [], ◌∷◌, length, take, length-drop, get_elem?,
  get_elem?-length, length-erase_idx, arith, inl, inr, Option-cases, nat_eq, ◌∙◌, sym,
}
use inmem_cache.Base.Bytes.{Bytes, bytes_eq}
use inmem_cache.Base.Word.{word}
use inmem_cache.Base.Map
use inmem_cache.Types.{Item, approx_item_size}
use inmem_cache.Ledger.{Ledger, bump_last_write_ts}
use inmem_cache.Buffer.{ScopeBuffer, bump_if_attached}
use inmem_cache.Buffer.Delete.{
  reset_by_items, reset_if_empty, release, erased, dropped, delete_index, delete_prefix,
  freed_bytes, delete_at_seq, delete_by_id, delete_by_seq, cut_after, delete_up_to_seq,
}
use inmem_cache.Buffer.Items.Defs.{find_seq, sum_sizes, count_below}
use inmem_cache.Buffer.Items.{
  find_id-find_seq, index_by_seq-hit, cut_after-le, get_elem?-count_below, sum_sizes-drop,
  size-le-sum, sum_sizes-erase,
}
use inmem_cache.Buffer.Valid.{IsValid, IsIdCounted}
use inmem_cache.Buffer.Valid.Erase.{delete_index-IsValid, delete_index-IsIdCounted}
use inmem_cache.Buffer.Valid.Drop.{
  delete_prefix-IsValid, delete_prefix-IsIdCounted, freed_bytes-sum,
}
use inmem_cache.Buffer.Step.{Keeps, Keeps-same, Kept, Kept-if}

-- The reset of an empty scope changes none of the other fields.
reset_by_items-frame :
    (items : List Item) (b : ScopeBuffer)
    → b.items ≡ items
    → (reset_by_items items b) ≡ record b {
      items = b.items;
      by_seq = (reset_by_items items b).by_seq;
      by_id = (reset_by_items items b).by_id;
      id_key_bytes = (reset_by_items items b).id_key_bytes;
    }
unfolding reset_by_items
reset_by_items-frame [] b e = ground arith
reset_by_items-frame (x ∷ xs) b e = refl

pub reset-frame :
    (b : ScopeBuffer)
    → reset_if_empty b ≡ record b {
      items = b.items;
      by_seq = (reset_if_empty b).by_seq;
      by_id = (reset_if_empty b).by_id;
      id_key_bytes = (reset_if_empty b).id_key_bytes;
    }
unfolding reset_if_empty
reset-frame b = reset_by_items-frame b.items b refl

-- A release of at most what the scope is charged, after a removal of `n` items.
release-Keeps :
    (b rest : ScopeBuffer) (l : Ledger) (freed n now_us : ℕ)
    → IsValid (reset_if_empty rest)
    → (IsIdCounted b → IsIdCounted (reset_if_empty rest))
    → rest ≡ record b {
      items = rest.items;
      by_seq = rest.by_seq;
      by_id = rest.by_id;
      id_key_bytes = rest.id_key_bytes;
      bytes = rest.bytes;
      last_write_ts = now_us;
    }
    → word (rest.bytes + freed) ≡ word b.bytes
    → length rest.items + n ≡ length b.items
    → word freed ≤ sum_sizes b.items
    → sum_sizes rest.items ≤ sum_sizes b.items
    → Keeps b l (reset_if_empty rest) (release b l freed n now_us)
unfolding release bump_if_attached bump_last_write_ts
release-Keeps b rest l freed n now_us v counted same bytes items covered smaller = record {
  valid = v;
  counted = counted;
  attached = ground (arith, reset-frame rest);
  detached = ground (arith, reset-frame rest);
  max_items = ground (arith, reset-frame rest);
  last_seq = ground (arith, reset-frame rest);
  steps = ground (arith, reset-frame rest);
  caps = ground arith;
  bytes = λ a. ground (arith, reset-frame rest);
  items = λ a. ground (arith, reset-frame rest);
  within = λ a w s. ground (arith, w.within, w.cap_range);
  grows = ground (arith, reset-frame rest);
  orphan = λ a. ground arith;
}

delete_index-Keeps :
    (b : ScopeBuffer) (l : Ledger) (i : ℕ) (x : Item) (now_us : ℕ)
    → IsValid b
    → get_elem? b.items i ≡ some x
    → Keeps b l (delete_index b l i x now_us).0 (delete_index b l i x now_us).1
unfolding delete_index
delete_index-Keeps b l i x now_us v at =
    release-Keeps b (erased b i x now_us) l (approx_item_size x) 1 now_us
      (unfold delete_index in delete_index-IsValid b l i x now_us v at)
      (unfold delete_index in delete_index-IsIdCounted b l i x now_us v at) refl (omega arith)
      (omega (arith, length-erase_idx b.items i (get_elem?-length b.items i x at)))
      (omega (arith, size-le-sum b.items i x at)) (omega (arith, sum_sizes-erase x b.items i at))

delete_prefix-Keeps :
    (b : ScopeBuffer) (l : Ledger) (idx now_us : ℕ)
    → IsValid b
    → idx ≤ length b.items
    → Keeps b l
        (delete_prefix b idx now_us)
        (release b l (freed_bytes (take idx b.items) 0) idx now_us)
unfolding delete_prefix
delete_prefix-Keeps b l idx now_us v le =
    release-Keeps b (dropped b idx now_us) l (freed_bytes (take idx b.items) 0) idx now_us
      (unfold delete_prefix in delete_prefix-IsValid b idx now_us v)
      (unfold delete_prefix in delete_prefix-IsIdCounted b idx now_us v) refl (omega arith)
      (omega (arith, length-drop idx b.items))
      (omega (arith, freed_bytes-sum (take idx b.items) 0, sum_sizes-drop idx b.items))
      (omega (arith, sum_sizes-drop idx b.items))

module _ (b : ScopeBuffer) (l : Ledger) (now_us : ℕ) (v : IsValid b) where
  delete_at_seq-Keeps :
      (seq : ℕ) (x : Item) → find_seq b.items seq ≡ some x → Kept b l (delete_at_seq b l seq now_us)
  unfolding delete_at_seq
  delete_at_seq-Keeps seq x found =
      let place = get_elem?-count_below 0 seq b.items x v.ascends found in
      rw (index_by_seq-hit 0 seq b.items x v.ascends found, place.0, delete_at_seq)
        (delete_index-Keeps b l (count_below seq b.items) x now_us v place.0)

  -- A delete by id on a well-formed scope keeps the scope well-formed and the counters of the
  -- store in lockstep with it, on every branch.
  pub delete_by_id-Keeps : (id : Bytes) → Kept b l (delete_by_id b l id now_us)
  unfolding delete_by_id
  delete_by_id-Keeps id =
      Kept-if b l b.detached _ _ (λ _. Keeps-same b l v)
        (λ _. elim (Option-cases (Map.lookup b.by_id id)) [
          | inl absent ↦ rw absent (Keeps-same b l v)
          | inr (x, hit) ↦ rw hit (
              delete_at_seq-Keeps x.seq x
                (find_id-find_seq 0 b.items id x v.ascends (sym (v.ids_agree id) ∙ hit)))
        ])

  -- A delete by seq on a well-formed scope keeps the scope well-formed and the counters of the
  -- store in lockstep with it, on every branch.
  pub delete_by_seq-Keeps : (seq : ℕ) → Kept b l (delete_by_seq b l seq now_us)
  unfolding delete_by_seq
  delete_by_seq-Keeps seq =
      Kept-if b l b.detached _ _ (λ _. Keeps-same b l v)
        (λ _. elim (Option-cases (Map.lookup b.by_seq seq)) [
          | inl absent ↦ rw absent (Keeps-same b l v)
          | inr (x, hit) ↦ rw hit (delete_at_seq-Keeps seq x (sym (v.seqs_agree seq) ∙ hit))
        ])

  -- A drain of a well-formed scope keeps the scope well-formed and the counters of the store in
  -- lockstep with it, on every branch.
  pub delete_up_to_seq-Keeps : (max_seq : ℕ) → Kept b l (delete_up_to_seq b l max_seq now_us)
  unfolding delete_up_to_seq
  delete_up_to_seq-Keeps max_seq =
      Kept-if b l b.detached _ _ (λ _. Keeps-same b l v)
        (λ _.
          Kept-if b l _ _ _ (λ _. Keeps-same b l v)
            (λ _.
              delete_prefix-Keeps b l (cut_after b.items max_seq) now_us v
                (cut_after-le b.items max_seq v.ascends)))
