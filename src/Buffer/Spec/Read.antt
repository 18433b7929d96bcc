-- ===== src/Buffer/Spec/Read.antt =====
-- The reads of a scope, on the plain list of items.
use inmem_cache.Base.{
  ℕ, suc, ◌+◌, ◌-◌, ◌^◌, ◌≤◌, ◌<◌, ◌≡◌, refl, Bool, true, false, none, some, Option, List, [], ◌∷◌,
  ◌++◌, length, arith, inl, inr, ap, sym, ◌∙◌, take, drop, length-take, length-drop, take-all,
  take-drop, length-zero, take-nil, not, ◌||◌, min, Bool-cases, if◌then◌else◌, nat_eq, ◌==◌, leb,
  ltb, Option-cases,
}
use inmem_cache.Base.Word.{slt, sub64}
use inmem_cache.Base.Bytes.{Bytes, bytes_eq}
use inmem_cache.Types.{Item}
use inmem_cache.Buffer.{ScopeBuffer}
use inmem_cache.Buffer.Delete.{cut_after}
use inmem_cache.Buffer.Read.{
  materialise_counter, materialise_counters, get_by_id, get_by_seq, tail_offset, since_seq,
}
use inmem_cache.Buffer.Items.Defs.{find_id, find_seq, Ascends, count_below}
use inmem_cache.Buffer.Items.{cut_after-count_below}
use inmem_cache.Buffer.Valid.{IsValid}

-- The item that a reader sees.
abbrev pub seen : ScopeBuffer → Option Item → Option Item
seen b none = none
seen b (some x) = some (materialise_counter b.cells x)

-- The items after a cursor, by a scan.
unfoldable pub above : ℕ → List Item → List Item
above s [] = []
above s (x ∷ xs) = let rest = above s xs in if ltb s x.seq then x ∷ rest else rest

above-all : (s lo : ℕ) (items : List Item) → s ≤ lo → Ascends lo items → above s items ≡ items
unfolding above
above-all s lo [] le h = refl
above-all s lo (x ∷ xs) le h = ground (arith, above-all s x.seq xs (omega (arith, h.0)) h.1)

drop-count_below :
    (s lo : ℕ) (items : List Item)
    → Ascends lo items
    → drop (count_below (suc s) items) items ≡ above s items
unfolding above count_below
drop-count_below s lo [] h = refl
drop-count_below s lo (x ∷ xs) h = elim (Bool-cases (ltb s x.seq)) [
  | inl over ↦
      let keep : ltb x.seq (suc s) ≡ false = ground arith in
      rw (over, keep) (ap (λ r. x ∷ r) (sym (above-all s x.seq xs (ground arith) h.1)))
  | inr under ↦
      let skip : ltb x.seq (suc s) ≡ true = ground arith in
      rw (under, skip) (drop-count_below s x.seq xs h.1)
]

-- The page of `since`: the oldest `limit` items after the cursor, and whether more follow.
abbrev pub IsSince : ScopeBuffer → ℕ → ℕ → List Item × Bool → Type 0
IsSince b after_seq limit out =
    (out.0 ≡ materialise_counters b.cells (take limit (above after_seq b.items)))
    × (out.1 ≡ ltb limit (length (above after_seq b.items)))

-- What `tail` promises: newest first skipped, then at most `limit` items in the order of the
-- insertion, and whether older ones remain.
pub record IsTail (b : ScopeBuffer) (limit offset : ℕ) (out : List Item × Bool) : Type 0 where
  pub older : List Item
  pub page : List Item
  pub newer : List Item
  pub split : b.items ≡ older ++ page ++ newer
  pub skipped : length newer ≡ min offset (length b.items)
  pub full : length page ≡ min limit (length b.items - offset)
  pub shown : out.0 ≡ materialise_counters b.cells page
  pub more : out.1 ≡ ltb (limit + offset) (length b.items)

module _ (b : ScopeBuffer) (v : IsValid b) where
  -- On a well-formed scope a lookup by id finds what a scan of the items for the id finds, with
  -- a counter's value and stamp filled in.
  pub get_by_id_exact : (id : Bytes) → get_by_id b id ≡ seen b (find_id b.items id)
  unfolding get_by_id
  get_by_id_exact id = elim (Option-cases (find_id b.items id)) [
    | inl absent ↦ rw (absent, v.ids_agree id ∙ absent, get_by_id) refl
    | inr (x, found) ↦ rw (found, v.ids_agree id ∙ found, get_by_id) refl
  ]

  pub get_by_seq_exact : (s : ℕ) → get_by_seq b s ≡ seen b (find_seq b.items s)
  unfolding get_by_seq
  get_by_seq_exact s = elim (Option-cases (find_seq b.items s)) [
    | inl absent ↦ rw (absent, v.seqs_agree s ∙ absent, get_by_seq) refl
    | inr (x, found) ↦ rw (found, v.seqs_agree s ∙ found, get_by_seq) refl
  ]

  module _ (short : length b.items < 2 ^ 63) where
    -- On a well-formed scope with fewer than 2 ^ 63 items, `since` with a positive limit below
    -- 2 ^ 63 returns the oldest `limit` items whose seq is over the cursor, in order, and says
    -- whether more follow.
    pub since_seq_exact :
        (after_seq limit : ℕ)
        → 0 < limit
        → limit < 2 ^ 63
        → IsSince b after_seq limit (since_seq b after_seq limit)
    unfolding since_seq materialise_counters
    since_seq_exact after_seq limit pos fits =
        let idx = cut_after b.items after_seq in
        let left = above after_seq b.items in
        let place = cut_after-count_below b.items after_seq v.ascends in
        let rest : drop idx b.items ≡ left =
          rw place (drop-count_below after_seq 0 b.items v.ascends) in
        let many : length left ≡ length b.items - idx =
          ap length (sym rest) ∙ length-drop idx b.items in
        let positive : not (slt 0 limit) ≡ false = ground arith in
        elim (Bool-cases (leb (length b.items) idx)) [
          | inl past ↦
              let gone : length left ≡ 0 = ground arith in
              let nil : left ≡ [] = length-zero left gone in
              let since_past : since_seq b after_seq limit ≡ ([], false) =
                elim (Bool-cases (length b.items == 0)) [
                  | inl z ↦ rw (positive, z, since_seq) refl
                  | inr z ↦ rw (positive, z, past, since_seq) refl
                ] in
              (
                ap (λ o. o.0) since_past ∙ rw (nil, take-nil limit) refl,
                ap (λ o. o.1) since_past ∙ ground arith,
              )
          | inr within ↦
              let some_items : (length b.items == 0) ≡ false = ground arith in
              let signed : slt limit (length b.items - idx) ≡ ltb limit (length left) =
                ground arith in
              elim (Bool-cases (ltb limit (length left))) [
                | inl more ↦ (
                  rw (positive, some_items, within, signed, more, rest, since_seq) refl,
                  rw (positive, some_items, within, signed, more, since_seq) refl,
                )
                | inr last ↦
                    let everything =
                      take-all (length b.items - idx) left (omega (arith, many))
                      ∙ sym (take-all limit left (ground arith)) in
                    (
                      rw (positive, some_items, within, signed, last, rest, since_seq)
                          (ap (materialise_counters b.cells) everything),
                      rw (positive, some_items, within, signed, last, since_seq) refl,
                    )
              ]
        ]

    -- The page between two cuts.
    page_at :
        (limit offset end first : ℕ) (more : Bool)
        → first ≤ end
        → end + min offset (length b.items) ≡ length b.items
        → end - first ≡ min limit (length b.items - offset)
        → more ≡ ltb (limit + offset) (length b.items)
        → tail_offset b limit offset
          ≡ (materialise_counters b.cells (drop first (take end b.items)), more)
        → IsTail b limit offset (tail_offset b limit offset)
    page_at limit offset end first more le at_end sized older e = record {
      older = take first (take end b.items);
      page = drop first (take end b.items);
      newer = drop end b.items;
      split =
          sym (take-drop end b.items)
          ∙ ap (λ xs. xs ++ drop end b.items) (sym (take-drop first (take end b.items)));
      skipped = omega (arith, length-drop end b.items);
      full = omega (arith, length-drop first (take end b.items), length-take end b.items);
      shown = ap (λ o. o.0) e;
      more = ap (λ o. o.1) e ∙ older;
    }

    -- On a well-formed scope with fewer than 2 ^ 63 items, `tail` with a positive limit and an
    -- offset below 2 ^ 63 skips the newest `offset` items, returns the `limit` before them, or
    -- as many as there are, in order, and says whether older ones remain.
    pub tail_offset_exact :
        (limit offset : ℕ)
        → 0 < limit
        → limit < 2 ^ 63
        → offset < 2 ^ 63
        → IsTail b limit offset (tail_offset b limit offset)
    unfolding tail_offset
    tail_offset_exact limit offset pos fits range =
        let n = length b.items in
        let guard : (not (slt 0 limit) || slt offset 0) ≡ false = ground arith in
        elim (Bool-cases (leb n offset)) [
          | inl past ↦
              rw (guard, past, tail_offset)
                (record {
                  older = [];
                  page = [];
                  newer = b.items;
                  split = refl;
                  skipped = ground arith;
                  full = ground arith;
                  shown = refl;
                  more = ground arith;
                })
          | inr within ↦
              let end = n - offset in
              let ends : sub64 n offset ≡ end = ground arith in
              elim (Bool-cases (ltb end limit)) [
                | inl last ↦
                    let low : slt (sub64 end limit) 0 ≡ true = ground arith in
                    let high : slt 0 (sub64 end limit) ≡ false = ground arith in
                    let some_left : leb end 0 ≡ false = ground arith in
                    page_at limit offset end 0 false (omega arith) (ground arith) (ground arith)
                      (ground arith)
                      (rw (guard, within, ends, low, some_left, high, tail_offset) refl)
                | inr full ↦
                    let start : sub64 end limit ≡ end - limit = ground arith in
                    let low : slt (end - limit) 0 ≡ false = ground arith in
                    let high : slt 0 (end - limit) ≡ ltb (limit + offset) n = ground arith in
                    let some_left : leb end (end - limit) ≡ false = ground arith in
                    page_at limit offset end (end - limit) (ltb (limit + offset) n) (omega arith)
                      (ground arith) (ground arith) (ground arith)
                      (rw (guard, within, ends, start, low, some_left, high, tail_offset) refl)
              ]
        ]
