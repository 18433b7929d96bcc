-- ===== src/Buffer/Step.antt =====
-- What every method of a scope keeps, on each of its branches: the scope stays well-formed, and the
-- counters of the store move in lockstep with it.
pub mod Charge
pub mod Insert
pub mod Replace
pub mod Update
pub mod Delete
pub mod Counter
pub mod Calls
use inmem_cache.Base.{
  ℕ, ◌+◌, ◌-◌, ◌^◌, ◌≤◌, ◌<◌, ◌≡◌, refl, Bool, true, false, List, length, if◌then◌else◌, arith,
}
use inmem_cache.Base.Word.{word}
use inmem_cache.Types.{CounterCell}
use inmem_cache.Ledger.{Ledger, bump_last_write_ts}
use inmem_cache.Ledger.Laws.{IsWithinCap}
use inmem_cache.Buffer.{ScopeBuffer, Outcome, bump_if_attached}
use inmem_cache.Buffer.Items.Defs.{sum_sizes}
use inmem_cache.Buffer.Valid.{IsValid, IsIdCounted}

-- The ledger changed in its byte and item counters and its freshness signal at most.
abbrev pub SameCaps : Ledger → Ledger → Type 0
SameCaps l l' = l' ≡ record l {
  total_bytes = l'.total_bytes;
  total_items = l'.total_items;
  last_write_ts = l'.last_write_ts;
}

pub record Keeps (b : ScopeBuffer) (l : Ledger) (b' : ScopeBuffer) (l' : Ledger) : Type 0 where
  pub valid : IsValid b'
  pub counted : IsIdCounted b → IsIdCounted b'
  pub attached : b'.attached ≡ b.attached
  pub detached : b'.detached ≡ b.detached
  pub max_items : b'.max_items ≡ b.max_items
  pub last_seq : b.last_seq ≤ b'.last_seq
  pub steps : b'.last_seq ≤ b.last_seq + 1
  pub caps : SameCaps l l'
  -- The byte counter moves as the bytes of the scope do.
  pub bytes : b.attached ≡ true → word (l'.total_bytes + b.bytes) ≡ word (l.total_bytes + b'.bytes)
  pub items :
      b.attached ≡ true
      → word (l'.total_items + length b.items) ≡ word (l.total_items + length b'.items)
  -- Where the counter covers the scope and lies within the cap, it still does.
  pub within :
      b.attached ≡ true
      → IsWithinCap l
      → sum_sizes b.items ≤ l.total_bytes
      → l'.total_bytes ≤ l.max_store_bytes
  -- One method adds the cost of one item at most.
  pub grows : sum_sizes b'.items < sum_sizes b.items + 2 ^ 63
  pub orphan : b.attached ≡ false → l' ≡ l

-- A branch that changes nothing.
pub Keeps-same : (b : ScopeBuffer) (l : Ledger) → IsValid b → Keeps b l b l
Keeps-same b l v = record {
  valid = v;
  counted = λ c. c;
  attached = refl;
  detached = refl;
  max_items = refl;
  last_seq = omega arith;
  steps = omega arith;
  caps = refl;
  bytes = λ _. refl;
  items = λ _. refl;
  within = λ _ h _. h.within;
  grows = omega arith;
  orphan = λ _. refl;
}

-- The stamps of a scope and its cells are no part of its well-formedness.
abbrev pub restamped : ScopeBuffer → ℕ → List CounterCell → ScopeBuffer
restamped b now_us cells = record b { last_write_ts = now_us; cells = cells }

pub restamped-IsValid :
    (b : ScopeBuffer) (now_us : ℕ) (cells : List CounterCell)
    → IsValid b
    → IsValid (restamped b now_us cells)
restamped-IsValid b now_us cells v = record {
  ascends = v.ascends;
  at_most = v.at_most;
  distinct = v.distinct;
  ids_agree = v.ids_agree;
  seqs_agree = v.seqs_agree;
  sized = v.sized;
  bytes_sum = v.bytes_sum;
  within_cap = v.within_cap;
}

pub Keeps-restamped :
    (b b' : ScopeBuffer) (l l' : Ledger) (now_us : ℕ) (cells : List CounterCell)
    → Keeps b l b' l'
    → Keeps b l (restamped b' now_us cells) l'
Keeps-restamped b b' l l' now_us cells k = record {
  valid = restamped-IsValid b' now_us cells k.valid;
  counted = k.counted;
  attached = k.attached;
  detached = k.detached;
  max_items = k.max_items;
  last_seq = k.last_seq;
  steps = k.steps;
  caps = k.caps;
  bytes = k.bytes;
  items = k.items;
  within = k.within;
  grows = k.grows;
  orphan = k.orphan;
}

-- The freshness signal is no part of it either.
pub Keeps-bumped :
    (b b' : ScopeBuffer) (l l' : Ledger) (now_us : ℕ)
    → Keeps b l b' l'
    → Keeps b l b' (bump_if_attached b l' now_us)
unfolding bump_if_attached bump_last_write_ts
Keeps-bumped b b' l l' now_us k = record {
  valid = k.valid;
  counted = k.counted;
  attached = k.attached;
  detached = k.detached;
  max_items = k.max_items;
  last_seq = k.last_seq;
  steps = k.steps;
  caps = ground (arith, k.caps);
  bytes = λ a. ground (arith, k.bytes a);
  items = λ a. ground (arith, k.items a);
  within = λ a w s. ground (arith, k.within a w s);
  grows = k.grows;
  orphan = λ a. ground (arith, k.orphan a);
}

-- A method's outcome keeps the scope that it started from.
abbrev pub Kept : {A : Type 0} → ScopeBuffer → Ledger → Outcome A → Type 0
Kept b l out = Keeps b l out.1 out.2

pub Kept-if :
    {A : Type 0} (b : ScopeBuffer) (l : Ledger) (c : Bool) (x y : Outcome A)
    → (c ≡ true → Kept b l x)
    → (c ≡ false → Kept b l y)
    → Kept b l (if c then x else y)
Kept-if b l true x y f g = f refl
Kept-if b l false x y f g = g refl
