-- ===== src/Buffer/Spec/Upsert.antt =====
-- upsertByID, updateByID and updateBySeq, on the contents.
use inmem_cache.Base.{
  ℕ, ◌+◌, ◌≡◌, ◌⊎◌, refl, Bool, true, false, Option, none, some, [], ◌∷◌, ◌++◌, length, inl, inr,
  Bool-cases, if◌then◌else◌, nat_eq, ◌==◌, if_false, Option-cases, ◌∙◌, get_elem?, set, ap,
}
use inmem_cache.Base.Bytes.{Bytes, bytes_eq}
use inmem_cache.Json.{Json}
use inmem_cache.Types.{Item}
use inmem_cache.Ledger.{Ledger}
use inmem_cache.Errors.{Error, Result, ok, err, scope_full}
use inmem_cache.Buffer.{ScopeBuffer, Outcome, item_cap_exceeded, replaced, render_or_compute}
use inmem_cache.Buffer.Write.{
  created_result, upsert_result, updated_count, upsert_by_id, update_by_id, replace_existing,
}
use inmem_cache.Buffer.Items.Defs.{find_id, find_seq, has_id, IsSized, count_below}
use inmem_cache.Buffer.Items.{find_id-set, find_seq-set, find_id-find_seq, get_elem?-count_below}
use inmem_cache.Buffer.Valid.{IsValid}
use inmem_cache.Buffer.Step.Replace.{replace_existing-cases}
use inmem_cache.Buffer.Spec.Append.{StoresOrRefuses, stored, insert_new_item_outcome}

-- `y` stands in the place of `x`, and all else is where it was.
pub record Exchanged (b b' : ScopeBuffer) (x y : Item) : Type 0 where
  pub by_id : (k : Bytes) → find_id b'.items k ≡ (if has_id x k then some y else find_id b.items k)
  pub by_seq : (s : ℕ) → find_seq b'.items s ≡ (if x.seq == s then some y else find_seq b.items s)
  pub place : (i : ℕ) × (get_elem? b.items i ≡ some x) × (b'.items ≡ set b.items i y)

-- A replacement of `x` by `y`: refused with nothing changed, or done.
abbrev pub Replaces :
    ScopeBuffer → Ledger → Item → Item → Result (Option Item) × ScopeBuffer × Ledger → Type 0
Replaces b l x y out =
    ((e : Error) × (out ≡ (err e, b, l))) ⊎ ((out.0 ≡ ok (some y)) × Exchanged b out.1 x y)

module _ (b : ScopeBuffer) (l : Ledger) (x : Item) (payload : Bytes) (render : Option Bytes)
    (now_us : ℕ) (v : IsValid b) (present : find_seq b.items x.seq ≡ some x)
    (sized : IsSized (replaced x payload now_us render)) where
  replace_existing_exact :
      Replaces b l x
        (replaced x payload now_us render)
        (replace_existing b l x payload render now_us)
  replace_existing_exact =
      let y = replaced x payload now_us render in
      let place = (get_elem?-count_below 0 x.seq b.items x v.ascends present).0 in
      let i = count_below x.seq b.items in
      elim (replace_existing-cases b l x payload render now_us v present sized) [
        | inl (e, refused) ↦ inl (e, refused)
        | inr (l', done, c) ↦ inr (
          rw done refl,
          rw done (record {
            by_id = λ k. find_id-set x y refl refl b.items i k v.distinct place;
            by_seq = λ s. find_seq-set x y refl refl 0 b.items i s v.ascends place;
            place = (i, place, refl);
          }),
        )
      ]

-- An upsert of `y` over what the scope holds under the id: refused with nothing changed, or a
-- replacement in place, or a creation at the end.
abbrev pub Upserts :
    ScopeBuffer → Ledger → Option Item → (Item → Item) → Item → Outcome (Item × Bool) → Type 0
Upserts b l (some x) over new out =
    ((e : Error) × (out ≡ (err e, b, l)))
    ⊎ ((out.0 ≡ ok (over x, false)) × Exchanged b out.1 x (over x))
Upserts b l none over new out =
    ((e : Error) × (out ≡ (err e, b, l)))
    ⊎ ((out.0 ≡ ok (new, true)) × (out.1.items ≡ b.items ++ new ∷ []))

-- An update of what the scope holds at the address.
abbrev pub Updates : ScopeBuffer → Ledger → Option Item → (Item → Item) → Outcome ℕ → Type 0
Updates b l none over out = out ≡ (ok 0, b, l)
Updates b l (some x) over out =
    ((e : Error) × (out ≡ (err e, b, l))) ⊎ ((out.0 ≡ ok 1) × Exchanged b out.1 x (over x))

-- What a write of a payload makes of an item.
abbrev pub over : ⦃json : Json⦄ → ℕ → Bytes → Option Bytes → Item → Item
over now_us payload pre_render x = replaced x payload now_us (render_or_compute pre_render payload)

module _ ⦃json : Json⦄ (b : ScopeBuffer) (l : Ledger) (now_us : ℕ) (v : IsValid b)
    (live : b.detached ≡ false) where
  as_upsert :
      (x y : Item) (out : Result (Option Item) × ScopeBuffer × Ledger)
      → Replaces b l x y out
      → ((e : Error) × (upsert_result out ≡ (err e, b, l)))
        ⊎ (((upsert_result out).0 ≡ ok (y, false)) × Exchanged b (upsert_result out).1 x y)
  unfolding upsert_result
  as_upsert x y out (inl (e, same)) = inl (e, ap upsert_result same)
  as_upsert x y (r, b', l') (inr (done, ex)) = inr (rw done refl, rw done ex)

  as_update :
      (x y : Item) (out : Result (Option Item) × ScopeBuffer × Ledger)
      → Replaces b l x y out
      → ((e : Error) × (updated_count out ≡ (err e, b, l)))
        ⊎ (((updated_count out).0 ≡ ok 1) × Exchanged b (updated_count out).1 x y)
  unfolding updated_count
  as_update x y out (inl (e, same)) = inl (e, ap updated_count same)
  as_update x y (r, b', l') (inr (done, ex)) = inr (rw done refl, rw done ex)

  as_created :
      (y : Item) (out : Outcome Item)
      → StoresOrRefuses b l y out
      → ((e : Error) × (created_result out ≡ (err e, b, l)))
        ⊎ (((created_result out).0 ≡ ok (y, true))
            × ((created_result out).1.items ≡ b.items ++ y ∷ []))
  unfolding created_result
  as_created y out (inl (e, same)) = inl (e, ap created_result same)
  as_created y (r, b', l') (inr (done, at_end)) = inr (rw done refl, rw done at_end)

  -- On a scope that is well-formed and not detached, an upsert replaces exactly the item that
  -- has the id, which keeps its seq and its place, or, where no item has it, appends a new one
  -- and reports a creation; or it fails and changes nothing. The replacement has to fit an
  -- int64.
  pub upsert_by_id_exact :
      (item : Item)
      → ((x : Item)
          → find_id b.items item.id ≡ some x
          → IsSized (over now_us item.payload item.render_bytes x))
      → Upserts b l
          (find_id b.items item.id)
          (over now_us item.payload item.render_bytes)
          (stored b l item now_us)
          (upsert_by_id b l item now_us)
  unfolding upsert_by_id
  upsert_by_id_exact item sized = elim (Option-cases (find_id b.items item.id)) [
    | inr (x, found) ↦
        rw (found, if_false b.detached _ _ live, v.ids_agree item.id ∙ found, upsert_by_id)
          (as_upsert x (over now_us item.payload item.render_bytes x) _ (
            replace_existing_exact b l x item.payload
              (render_or_compute item.render_bytes item.payload) now_us v
              (find_id-find_seq 0 b.items item.id x v.ascends found) (sized x found)))
    | inl absent ↦ elim (Bool-cases (item_cap_exceeded b (length b.items + 1))) [
      | inl full ↦
          rw
            (absent, if_false b.detached _ _ live, v.ids_agree item.id ∙ absent, full, upsert_by_id)
            (inl (scope_full (length b.items) b.max_items, refl))
      | inr room ↦
          rw
            (absent, if_false b.detached _ _ live, v.ids_agree item.id ∙ absent, room, upsert_by_id)
            (as_created (stored b l item now_us) _ (insert_new_item_outcome b l item now_us))
    ]
  ]

  -- On a scope that is well-formed and not detached, an update by id replaces exactly the item
  -- that has the id, in place and with its seq, and reports one; it reports zero and changes
  -- nothing where no item has it; or it fails and changes nothing. The replacement has to fit
  -- an int64.
  pub update_by_id_exact :
      (id payload : Bytes) (pre_render : Option Bytes)
      → ((x : Item) → find_id b.items id ≡ some x → IsSized (over now_us payload pre_render x))
      → Updates b l
          (find_id b.items id)
          (over now_us payload pre_render)
          (update_by_id b l id payload pre_render now_us)
  unfolding update_by_id
  update_by_id_exact id payload pre_render sized = elim (Option-cases (find_id b.items id)) [
    | inr (x, found) ↦
        rw (found, if_false b.detached _ _ live, v.ids_agree id ∙ found, update_by_id)
          (as_update x (over now_us payload pre_render x) _ (
            replace_existing_exact b l x payload (render_or_compute pre_render payload) now_us v
              (find_id-find_seq 0 b.items id x v.ascends found) (sized x found)))
    | inl absent ↦
        rw (absent, if_false b.detached _ _ live, v.ids_agree id ∙ absent, update_by_id) refl
  ]
