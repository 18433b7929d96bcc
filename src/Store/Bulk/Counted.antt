-- ===== src/Store/Bulk/Counted.antt =====
-- The sum of the id lengths after a replacement: what the two commits set and rebuildAll does not.
use inmem_cache.Base.{
  ℕ, ◌+◌, ◌^◌, ◌<◌, ◌≡◌, ◌↔◌, refl, List, [], ◌∷◌, length, arith, ap, sym, ◌∙◌, inl, inr,
}
use inmem_cache.Base.Word.{word, add64}
use inmem_cache.Base.Bytes.{Bytes}
use inmem_cache.Json.{Json}
use inmem_cache.Types.{Item}
use inmem_cache.Errors.{ok, err, Result-cases}
use inmem_cache.Ledger.{Ledger}
use inmem_cache.Buffer.{ScopeBuffer, new_scope_buffer}
use inmem_cache.Buffer.Replace.{
  ScopeReplacement, build_items, id_key_bytes_of, build_replacement_state, adopt,
}
use inmem_cache.Buffer.Items.Defs.{sum_ids}
use inmem_cache.Buffer.Valid.{IsIdCounted}
use inmem_cache.Buffer.Valid.Built.{of_items, or_made}
use inmem_cache.Store.{new_store_buffer}
use inmem_cache.Store.Bulk.{rebuilt_buffer}

id_key_bytes_of-sum :
    (acc : ℕ) (items : List Item)
    → acc < 2 ^ 64
    → id_key_bytes_of acc items ≡ word (acc + sum_ids items)
unfolding id_key_bytes_of sum_ids
id_key_bytes_of-sum acc [] h = omega arith
id_key_bytes_of-sum acc (x ∷ xs) h =
    omega (arith, id_key_bytes_of-sum (add64 acc (length x.id)) xs (omega arith))

from_zero : (items : List Item) → id_key_bytes_of 0 items ≡ word (sum_ids items)
from_zero items = omega (arith, id_key_bytes_of-sum 0 items (omega arith))

module _ ⦃json : Json⦄ where
  -- A replacement that is built counts its ids.
  built-counted :
      (items : List Item) (now_us : ℕ) (r : ScopeReplacement)
      → build_replacement_state items now_us ≡ ok r
      → r.id_key_bytes ≡ word (sum_ids r.items)
  unfolding build_replacement_state
  built-counted items now_us r built = elim (Result-cases (build_items [] 0 now_us items)) [
    | inl (e, bad) ↦
        let failed : err e ≡ ok r = sym (rw (bad, build_replacement_state) refl) ∙ built in
        absurd (ground (arith, failed))
    | inr (made, good) ↦
        let eq : ok (of_items made) ≡ ok r =
          sym (rw (good, build_replacement_state) refl) ∙ built in
        ap (λ o. (or_made made o).id_key_bytes) (sym eq)
        ∙ from_zero made
        ∙ ap (λ o. word (sum_ids (or_made made o).items)) eq
  ]

  -- Of a replacement that was built, the commit of /warm leaves a scope whose count of id bytes
  -- is the sum over its items, and the buffer that rebuildAll makes of it has the right count
  -- exactly where that sum is zero, modulo 2 ^ 64.
  pub rebuilt_buffer-IsIdCounted :
      (items : List Item) (built_us : ℕ) (r : ScopeReplacement) (b : ScopeBuffer) (l : Ledger)
      (scope : Bytes) (new_bytes now_us : ℕ)
      → build_replacement_state items built_us ≡ ok r
      → IsIdCounted (adopt b r new_bytes now_us)
        × (IsIdCounted (
              rebuilt_buffer l
                (record { scope = scope; replacement = r; new_bytes = new_bytes })
                now_us)
            ↔ (word (sum_ids r.items) ≡ 0))
  unfolding adopt rebuilt_buffer new_store_buffer new_scope_buffer
  rebuilt_buffer-IsIdCounted items built_us r b l scope new_bytes now_us built =
      (built-counted items built_us r built, (λ e. sym e, λ e. sym e))
