-- ===== src/Buffer/Spec/Delete.antt =====
-- deleteByID, deleteBySeq and deleteUpToSeq, on the contents.
use inmem_cache.Base.{
  ℕ, suc, ◌+◌, ◌≤◌, ◌≡◌, refl, false, none, some, Option, length, drop, length-drop, arith, ltb,
  if◌then◌else◌, ◌==◌, nat_eq, ◌∙◌, ap, inl, inr, Bool-cases, Option-cases, if_false,
}
use inmem_cache.Base.Bytes.{Bytes, bytes_eq}
use inmem_cache.Types.{Item}
use inmem_cache.Ledger.{Ledger}
use inmem_cache.Errors.{ok}
use inmem_cache.Buffer.{ScopeBuffer, Outcome}
use inmem_cache.Buffer.Delete.{
  reset_if_empty, erased, dropped, delete_prefix, delete_at_seq, delete_by_id, delete_by_seq,
  cut_after, delete_up_to_seq,
}
use inmem_cache.Buffer.Items.Defs.{find_id, find_seq, has_id, count_below}
use inmem_cache.Buffer.Items.{
  find_id-find_seq, index_by_seq-hit, get_elem?-count_below, find_id-erase, find_seq-erase,
  cut_after-count_below, cut_after-le, find_seq-drop-count_below,
}
use inmem_cache.Buffer.Valid.{IsValid}
use inmem_cache.Buffer.Step.Delete.{reset-frame}

items-reset : (b : ScopeBuffer) → (reset_if_empty b).items ≡ b.items
items-reset b = ground (arith, reset-frame b)

-- `x`, and nothing else, is gone from `b'`.
pub record Removed (b b' : ScopeBuffer) (x : Item) : Type 0 where
  pub by_id : (k : Bytes) → find_id b'.items k ≡ (if has_id x k then none else find_id b.items k)
  pub by_seq : (s : ℕ) → find_seq b'.items s ≡ (if x.seq == s then none else find_seq b.items s)

-- The outcome of a delete, by what the scope held at the address.
abbrev pub Removes : ScopeBuffer → Ledger → Option Item → Outcome ℕ → Type 0
Removes b l none out = out ≡ (ok 0, b, l)
Removes b l (some x) out = (out.0 ≡ ok 1) × Removed b out.1 x

-- The outcome of a drain up to `m`: a prefix is gone, and by seq it is the part up to `m`.
abbrev pub Drains : ScopeBuffer → ℕ → Outcome ℕ → Type 0
Drains b m out =
    (n : ℕ) × (out.0 ≡ ok n)
    × (out.1.items ≡ drop n b.items)
    × (n + length out.1.items ≡ length b.items)
    × ((s : ℕ) → find_seq out.1.items s ≡ (if ltb m s then find_seq b.items s else none))

module _ (b : ScopeBuffer) (l : Ledger) (now_us : ℕ) (v : IsValid b)
    (attached : b.detached ≡ false) where
  delete_at_seq-Removed :
      (s : ℕ) (x : Item)
      → find_seq b.items s ≡ some x
      → ((delete_at_seq b l s now_us).0 ≡ ok 1) × Removed b (delete_at_seq b l s now_us).1 x
  delete_at_seq-Removed s x found =
      let place = (get_elem?-count_below 0 s b.items x v.ascends found).0 in
      let i = count_below s b.items in
      unfold delete_at_seq in
      rw (index_by_seq-hit 0 s b.items x v.ascends found, place, delete_at_seq)
        (
          refl,
          record {
            by_id = λ k.
                rw (items-reset (erased b i x now_us))
                  (find_id-erase b.items i x k v.distinct place);
            by_seq = λ t.
                rw (items-reset (erased b i x now_us))
                  (find_seq-erase 0 b.items i x t v.ascends place);
          },
        )

  -- On a scope that is well-formed and not detached, a delete by id removes exactly the item
  -- that has the id and reports one, or, where no item has it, reports zero and changes
  -- nothing.
  pub delete_by_id_exact :
      (id : Bytes) → Removes b l (find_id b.items id) (delete_by_id b l id now_us)
  unfolding delete_by_id
  delete_by_id_exact id = elim (Option-cases (find_id b.items id)) [
    | inl absent ↦ rw (absent, if_false b.detached _ _ attached, v.ids_agree id ∙ absent) refl
    | inr (x, found) ↦
        rw (found, if_false b.detached _ _ attached, v.ids_agree id ∙ found)
          (delete_at_seq-Removed x.seq x (find_id-find_seq 0 b.items id x v.ascends found))
  ]

  -- On a scope that is well-formed and not detached, a delete by seq removes exactly the item
  -- that has the seq and reports one, or, where no item has it, reports zero and changes
  -- nothing.
  pub delete_by_seq_exact : (s : ℕ) → Removes b l (find_seq b.items s) (delete_by_seq b l s now_us)
  unfolding delete_by_seq
  delete_by_seq_exact s = elim (Option-cases (find_seq b.items s)) [
    | inl absent ↦ rw (absent, if_false b.detached _ _ attached, v.seqs_agree s ∙ absent) refl
    | inr (x, found) ↦
        rw (found, if_false b.detached _ _ attached, v.seqs_agree s ∙ found)
          (delete_at_seq-Removed s x found)
  ]

  -- On a scope that is well-formed and not detached, a drain up to `m` removes exactly the
  -- items whose seq is at most `m`, keeps the order of the rest, and reports how many went.
  pub delete_up_to_seq_exact : (m : ℕ) → Drains b m (delete_up_to_seq b l m now_us)
  unfolding delete_up_to_seq delete_prefix
  delete_up_to_seq_exact m =
      let n = cut_after b.items m in
      let le : n ≤ length b.items = cut_after-le b.items m v.ascends in
      let left : (s : ℕ)
          → find_seq (drop n b.items) s ≡ (if ltb m s then find_seq b.items s else none) =
        λ s.
          rw (cut_after-count_below b.items m v.ascends)
            (ground (arith, find_seq-drop-count_below 0 (suc m) b.items s v.ascends)) in
      elim (Bool-cases (n == 0)) [
        | inl none_below ↦
            let nothing : n ≡ 0 = ground arith in
            (
              0,
              rw (if_false b.detached _ _ attached, none_below),
              rw (if_false b.detached _ _ attached, none_below),
              rw (if_false b.detached _ _ attached, none_below) (omega arith),
              λ s.
                  rw (if_false b.detached _ _ attached, none_below)
                    (ground (arith, ap (λ k. find_seq (drop k b.items) s) nothing, left s)),
            )
        | inr some_below ↦ (
          n,
          rw (if_false b.detached _ _ attached, some_below),
          rw (if_false b.detached _ _ attached, some_below) (items-reset (dropped b n now_us)),
          rw (if_false b.detached _ _ attached, some_below, items-reset (dropped b n now_us))
              (omega (arith, length-drop n b.items)),
          λ s.
              rw (if_false b.detached _ _ attached, some_below, items-reset (dropped b n now_us))
                (left s),
        )
      ]
