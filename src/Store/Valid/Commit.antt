-- ===== src/Store/Valid/Commit.antt =====
-- The commit loop of replaceScopes: every plan swaps one scope, and the totals move by what the old
-- scopes were charged and the new ones are.
use mathlib.Core.Path.{subst}
use inmem_cache.Base.{
  ℕ, ◌+◌, ◌^◌, ◌≤◌, ◌<◌, ◌≡◌, refl, sym, ◌∙◌, ap, Bool, true, false, Option, none, some, List, [],
  ◌∷◌, length, if_false, arith, inl, inr, Option-cases, ◌==◌, if◌then◌else◌,
}
use inmem_cache.Base.Word.{word, sub64, slt}
use inmem_cache.Base.Bytes.{Bytes, bytes_beq, bytes_eq}
use inmem_cache.Base.Map.{weigh_opt}
use inmem_cache.Types.{Item, raw_size, approx_item_size, scope_buffer_overhead}
use inmem_cache.Ledger.{Ledger, bump_last_write_ts}
use inmem_cache.Buffer.{ScopeBuffer, bump_if_attached, new_scope_buffer}
use inmem_cache.Buffer.Items.Defs.{AllSized, sum_sizes}
use inmem_cache.Buffer.Replace.{adopt, commit_replacement_pre_reserved}
use inmem_cache.Buffer.Valid.Built.{adopt-IsValid}
use inmem_cache.Validate.{is_reserved_scope}
use inmem_cache.Store.{Store, Clock, after, new_store_buffer}
use inmem_cache.Store.Sharding.{Hash, Shards, find_scope}
use inmem_cache.Store.Sharding.Laws.{
  IsSharded, total, find_scope-put_scope, total-put_scope, put_scope-IsSharded,
}
use inmem_cache.Store.Scopes.{stored_back}
use inmem_cache.Store.Bulk.{old_bytes, commit_plan, commit_plans}
use inmem_cache.Store.Bulk.Prepare.{Plan}
use inmem_cache.Store.Bulk.Prepare.Planned.{IsPlanned, AllPlanned, Apart, AllApart}
use inmem_cache.Store.Valid.{
  footprint, item_count, one, IsLive, AllLive, HasDefaultCap, HasRoom, put-IsLive, put-capped,
}
use inmem_cache.Store.Valid.Scopes.{new_store_buffer-IsLive, put-HasRoom}

-- The cost of items before it wraps.
unfoldable pub raw_total : List Item → ℕ
raw_total [] = 0
raw_total (x ∷ xs) = raw_size x + raw_total xs

-- What the scopes of the plans take.
unfoldable pub charges : List Plan → ℕ
unfolding raw_total
charges [] = 0
charges (p ∷ ps) = raw_total p.replacement.items + scope_buffer_overhead + charges ps

-- A batch that fits an int64 has sizes that are not wrapped.
pub raw_total-fits :
    (items : List Item)
    → raw_total items < 2 ^ 63
    → AllSized items × (sum_sizes items ≡ raw_total items) × (length items ≤ raw_total items)
unfolding raw_total sum_sizes approx_item_size
raw_total-fits [] small = (tt, refl, omega arith)
raw_total-fits (x ∷ xs) small =
    let (sized, sum, many) = raw_total-fits xs (omega arith) in
    ((omega arith, sized), omega (arith, sum), omega (arith, many))

-- The scopes of a store, with `spare` seqs left in each, without its counters.
pub record IsShelved ⦃hash : Hash⦄ (spare : ℕ) (s : Store) : Type 0 where
  pub sharded : IsSharded s.shards
  pub live : AllLive s.shards
  pub capped : HasDefaultCap s.shards s.ledger.default_max_items
  pub room : HasRoom spare s

-- The totals moved by `loss` and `gain` bytes and by `n` new scopes, and the counters of bytes and of
-- scopes did not move.
pub record Moved ⦃hash : Hash⦄ (spare : ℕ) (s s' : Store) (loss gain n : ℕ) : Type 0 where
  pub shelved : IsShelved spare s'
  pub default : s'.ledger.default_max_items ≡ s.ledger.default_max_items
  pub cap : s'.ledger.max_store_bytes ≡ s.ledger.max_store_bytes
  pub bytes : s'.ledger.total_bytes ≡ s.ledger.total_bytes
  pub count : s'.ledger.scope_count ≡ s.ledger.scope_count
  pub footprints : total footprint s'.shards + loss ≡ total footprint s.shards + gain
  pub items :
      word (s'.ledger.total_items + total item_count s.shards)
      ≡ word (s.ledger.total_items + total item_count s'.shards)
  pub ones : total one s'.shards ≡ total one s.shards + n

-- What the scope of a plan will be charged.
abbrev pub gain_of : Plan → ℕ
gain_of p = sum_sizes p.replacement.items + scope_buffer_overhead

unfoldable pub gains : List Plan → ℕ
gains [] = 0
gains (p ∷ ps) = gain_of p + gains ps

pub AllPlanned-same :
    (l l' : Ledger) (ps : List Plan)
    → l'.default_max_items ≡ l.default_max_items
    → AllPlanned l ps
    → AllPlanned l' ps
AllPlanned-same l l' [] same h = tt
AllPlanned-same l l' (p ∷ ps) same h = (
  record { plain = h.0.plain; built = h.0.built; within = rw same h.0.within; bytes = h.0.bytes },
  AllPlanned-same l l' ps same h.1,
)

module _ ⦃hash : Hash⦄ where
  abbrev pub stored_bytes : ScopeBuffer → ℕ
  stored_bytes b = b.bytes

  -- What the scope of a plan was charged, and whether it is new.
  abbrev pub loss_of : Shards → Plan → ℕ
  loss_of shards p = weigh_opt footprint (find_scope shards p.scope)

  abbrev pub is_new : {A : Type 0} → Option A → ℕ
  is_new none = 1
  is_new (some a) = 0

  -- The names of the plans find the same in both maps.
  abbrev pub Agrees : Shards → Shards → List Plan → Type 0
  Agrees was now [] = Unit
  Agrees was now (p ∷ ps) = (find_scope was p.scope ≡ find_scope now p.scope) × Agrees was now ps

  pub Agrees-same : (shards : Shards) (ps : List Plan) → Agrees shards shards ps
  Agrees-same shards [] = tt
  Agrees-same shards (p ∷ ps) = (refl, Agrees-same shards ps)

  -- What the scopes of a batch were charged.
  unfoldable pub losses : Shards → List Plan → ℕ
  losses shards [] = 0
  losses shards (p ∷ ps) = loss_of shards p + losses shards ps

module _ ⦃hash : Hash⦄ (spare : ℕ) where
  new_or_old : (o : Option ScopeBuffer) → weigh_opt one o + is_new o ≡ 1
  new_or_old none = refl
  new_or_old (some b) = refl

  -- A scope is put under a name, with the counter of items in step.
  put-Moved :
      (s : Store) (name : Bytes) (b' : ScopeBuffer) (l' : Ledger) (was : ℕ)
      → IsShelved spare s
      → IsLive b'
      → b'.last_seq + spare < 2 ^ 63
      → (is_reserved_scope name ≡ false → b'.max_items ≡ s.ledger.default_max_items)
      → weigh_opt item_count (find_scope s.shards name) ≡ was
      → l'.default_max_items ≡ s.ledger.default_max_items
      → l'.max_store_bytes ≡ s.ledger.max_store_bytes
      → l'.total_bytes ≡ s.ledger.total_bytes
      → l'.scope_count ≡ s.ledger.scope_count
      → word (l'.total_items + was) ≡ word (s.ledger.total_items + length b'.items)
      → Moved spare s
          (stored_back s name b' l')
          (weigh_opt footprint (find_scope s.shards name))
          (footprint b')
          (is_new (find_scope s.shards name))
  unfolding stored_back
  put-Moved s name b' l' was h live room own counted default cap bytes count items =
      let ones = total-put_scope s.shards name h.sharded one b' in
      record {
        shelved = record {
          sharded = put_scope-IsSharded s.shards name h.sharded b';
          live = put-IsLive s.shards name b' h.sharded h.live live;
          capped = λ other c there plain.
              put-capped s.shards name b' _ h.sharded h.capped own other c there plain
              ∙ sym default;
          room = put-HasRoom s name b' spare h.sharded room h.room;
        };
        default = default;
        cap = cap;
        bytes = bytes;
        count = count;
        footprints = total-put_scope s.shards name h.sharded footprint b';
        items =
            omega (arith, total-put_scope s.shards name h.sharded item_count b', counted, items);
        ones = omega (arith, ones, new_or_old (find_scope s.shards name));
      }

  -- The commit of a replacement on a buffer, put back.
  swapped-Moved :
      (s : Store) (p : Plan) (b : ScopeBuffer) (old now_us : ℕ)
      → IsShelved spare s
      → IsPlanned s.ledger p
      → raw_total p.replacement.items + spare < 2 ^ 63
      → IsLive b
      → (is_reserved_scope p.scope ≡ false → b.max_items ≡ s.ledger.default_max_items)
      → b.bytes ≡ old
      → weigh_opt item_count (find_scope s.shards p.scope) ≡ length b.items
      → let out = commit_replacement_pre_reserved b s.ledger p.replacement p.new_bytes old now_us in
        Moved spare s
          (stored_back s p.scope out.0 out.1)
          (loss_of s.shards p)
          (gain_of p)
          (is_new (find_scope s.shards p.scope))
  unfolding commit_replacement_pre_reserved adopt bump_if_attached bump_last_write_ts
  swapped-Moved s p b old now_us h plan small live own same counted =
      let (sized, sum, many) = raw_total-fits p.replacement.items (omega arith) in
      let built = plan.built (omega (arith, many)) in
      let kept : b.max_items ≡ s.ledger.default_max_items = own plan.plain in
      let cap : slt 0 b.max_items ≡ true → length p.replacement.items ≤ b.max_items =
        λ pos. ground (arith, kept, pos, plan.within, many) in
      let drift : (sub64 b.bytes old == 0) ≡ true = ground (arith, same, live.valid.bytes_sum) in
      put-Moved s p.scope (adopt b p.replacement p.new_bytes now_us) _ (length b.items) h
        (record {
          valid =
              adopt-IsValid b built.0 p.replacement p.new_bytes now_us built.1 sized plan.bytes cap;
          attached = live.attached;
          undetached = live.undetached;
        })
        (omega (arith, built.1.last, many)) own counted (ground (arith, live.attached, drift))
        (ground (arith, live.attached, drift)) (ground (arith, live.attached, drift))
        (ground (arith, live.attached, drift)) (ground (arith, live.attached, drift))

  commit_plan-Moved :
      (s : Store) (p : Plan) (old : ℕ) (clock : Clock)
      → IsShelved spare s
      → IsPlanned s.ledger p
      → raw_total p.replacement.items + spare < 2 ^ 63
      → weigh_opt stored_bytes (find_scope s.shards p.scope) ≡ old
      → let done = commit_plan s p old clock in
        Moved spare s done.0 (loss_of s.shards p) (gain_of p) (if done.1 then 1 else 0)
  unfolding commit_plan
  commit_plan-Moved s p old clock h plan small e =
      elim (Option-cases (find_scope s.shards p.scope)) [
        | inr (b, found) ↦
            let moved =
              swapped-Moved s p b old (clock 1) h plan small (h.live p.scope b found)
                (h.capped p.scope b found) (sym (ap (weigh_opt stored_bytes) found) ∙ e)
                (ap (weigh_opt item_count) found) in
            rw (found, commit_plan) (rw found at moved)
        | inl absent ↦
            let b = new_store_buffer s.ledger (clock 0) in
            let none_yet : b.bytes ≡ 0 = unfold new_store_buffer new_scope_buffer in refl in
            let moved =
              swapped-Moved s p b old (clock 1) h plan small
                (new_store_buffer-IsLive s.ledger (clock 0))
                (λ _. unfold new_store_buffer new_scope_buffer in refl)
                (none_yet ∙ sym (ap (weigh_opt stored_bytes) absent) ∙ e)
                (ap (weigh_opt item_count) absent
                  ∙ (unfold new_store_buffer new_scope_buffer in refl)) in
            rw (absent, commit_plan) (rw absent at moved)
      ]

  Agrees-elsewhere :
      (was now later : Shards) (name : Bytes) (ps : List Plan)
      → Apart name ps
      → ((other : Bytes)
          → bytes_beq name other ≡ false
          → find_scope later other ≡ find_scope now other)
      → Agrees was now ps
      → Agrees was later ps
  Agrees-elsewhere was now later name [] apart same h = tt
  Agrees-elsewhere was now later name (p ∷ ps) apart same h =
      (h.0 ∙ sym (same p.scope apart.0), Agrees-elsewhere was now later name ps apart.1 same h.1)

  pub commit_plan-elsewhere :
      (s : Store) (p : Plan) (old : ℕ) (clock : Clock)
      → IsSharded s.shards
      → (other : Bytes) → bytes_beq p.scope other ≡ false
      → find_scope (commit_plan s p old clock).0.shards other ≡ find_scope s.shards other
  unfolding commit_plan stored_back
  commit_plan-elsewhere s p old clock h other apart =
      elim (Option-cases (find_scope s.shards p.scope)) [
        | inr (b, found) ↦
            rw (found, commit_plan)
              (find_scope-put_scope s.shards p.scope h _ other ∙ if_false _ _ _ apart)
        | inl absent ↦
            rw (absent, commit_plan)
              (find_scope-put_scope s.shards p.scope h _ other ∙ if_false _ _ _ apart)
      ]

  Moved-then :
      (s t u : Store) (loss gain n loss' gain' n' : ℕ)
      → Moved spare s t loss gain n
      → Moved spare t u loss' gain' n'
      → Moved spare s u (loss + loss') (gain + gain') (n + n')
  Moved-then s t u loss gain n loss' gain' n' a b = record {
    shelved = b.shelved;
    default = b.default ∙ a.default;
    cap = b.cap ∙ a.cap;
    bytes = b.bytes ∙ a.bytes;
    count = b.count ∙ a.count;
    footprints = omega (arith, a.footprints, b.footprints);
    items = omega (arith, a.items, b.items);
    ones = omega (arith, a.ones, b.ones);
  }

  Moved-count :
      (s u : Store) (loss gain : ℕ) (new : Bool) (n : ℕ)
      → Moved spare s u loss gain ((if new then 1 else 0) + n)
      → Moved spare s u loss gain (if new then 1 + n else n)
  Moved-count s u loss gain true n h = h
  Moved-count s u loss gain false n h = subst (Moved spare s u loss gain) (omega arith) h

  pub commit_plans-Moved :
      (was : Shards) (s : Store) (ps : List Plan) (clock : Clock)
      → IsShelved spare s
      → AllPlanned s.ledger ps
      → AllApart ps
      → Agrees was s.shards ps
      → charges ps + spare < 2 ^ 63
      → let out = commit_plans was s ps clock in
        Moved spare s out.0 (losses was ps) (gains ps) out.1
  unfolding commit_plans charges losses gains
  commit_plans-Moved was s [] clock h planned apart agrees small = record {
    shelved = h;
    default = refl;
    cap = refl;
    bytes = refl;
    count = refl;
    footprints = omega arith;
    items = refl;
    ones = omega arith;
  }
  commit_plans-Moved was s (p ∷ ps) clock h planned apart agrees small =
      let old = old_bytes was p.scope in
      let first =
        commit_plan-Moved s p old clock h planned.0 (omega arith)
          (sym (ap (weigh_opt stored_bytes) agrees.0)) in
      let done = commit_plan s p old clock in
      let next =
        commit_plans-Moved was done.0 ps (after 2 clock) first.shelved
          (AllPlanned-same s.ledger _ ps first.default planned.1) apart.1
          (Agrees-elsewhere was s.shards done.0.shards p.scope ps apart.0
            (commit_plan-elsewhere s p old clock h.sharded) agrees.1)
          (omega arith) in
      let same : loss_of s.shards p ≡ loss_of was p = sym (ap (weigh_opt footprint) agrees.0) in
      let one_more =
        subst (λ loss. Moved spare s done.0 loss (gain_of p) (if done.1 then 1 else 0)) same
          first in
      Moved-count s _ _ _ done.1 _ (Moved-then s done.0 _ _ _ _ _ _ _ one_more next)
