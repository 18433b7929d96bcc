-- ===== src/Gateway/Clean.antt =====
-- The two fields that only the cache sets do not cross the gateway.
use inmem_cache.Base.{ℕ, ◌≡◌, refl, Bool, Option, none, some, List, [], ◌∷◌}
use inmem_cache.Base.Bytes.{Bytes}
use inmem_cache.Json.{Json}
use inmem_cache.Types.{Item}
use inmem_cache.Errors.{Result, ok, err}
use inmem_cache.Store.{Store, StoreOutcome, Clock}
use inmem_cache.Store.Sharding.{Hash}
use inmem_cache.Store.Read
use inmem_cache.Gateway

-- An item as a caller can build one.
abbrev pub IsClean : Item → Type 0
IsClean x = (x.render_bytes ≡ none) × (x.counter ≡ none)

abbrev pub AllClean : List Item → Type 0
AllClean [] = Unit
AllClean (x ∷ xs) = IsClean x × AllClean xs

abbrev pub HitIsClean : Option Item → Type 0
HitIsClean none = Unit
HitIsClean (some x) = IsClean x

abbrev pub ResultIsClean : Result Item → Type 0
ResultIsClean (err e) = Unit
ResultIsClean (ok x) = IsClean x

abbrev pub UpsertIsClean : Result (Item × Bool) → Type 0
UpsertIsClean (err e) = Unit
UpsertIsClean (ok (x, created)) = IsClean x

clone_items_payloads-AllClean : (xs : List Item) → AllClean (Gateway.clone_items_payloads xs)
unfolding Gateway.clone_items_payloads
clone_items_payloads-AllClean [] = tt
clone_items_payloads-AllClean (x ∷ xs) = ((refl, refl), clone_items_payloads-AllClean xs)

cloned_page-AllClean :
    (page : (List Item × Bool × Bool) × Store) → AllClean (Gateway.cloned_page page).0.0
unfolding Gateway.cloned_page
cloned_page-AllClean ((items, more, found), s) = clone_items_payloads-AllClean items

cloned_hit-HitIsClean : (found : Option Item × Store) → HitIsClean (Gateway.cloned_hit found).0
unfolding Gateway.cloned_hit
cloned_hit-HitIsClean (none, s) = tt
cloned_hit-HitIsClean (some x, s) = (refl, refl)

cloned_result-ResultIsClean :
    (out : StoreOutcome Item) → ResultIsClean (Gateway.cloned_result out).0
unfolding Gateway.cloned_result
cloned_result-ResultIsClean (err e, s) = tt
cloned_result-ResultIsClean (ok x, s) = (refl, refl)

cloned_upsert-UpsertIsClean :
    (out : StoreOutcome (Item × Bool)) → UpsertIsClean (Gateway.cloned_upsert out).0
unfolding Gateway.cloned_upsert
cloned_upsert-UpsertIsClean (err e, s) = tt
cloned_upsert-UpsertIsClean (ok (x, created), s) = (refl, refl)

module _ ⦃hash : Hash⦄ ⦃json : Json⦄ (s : Store) (clock : Clock) where
  -- No item that Append, Upsert, Head, Tail, GetByID or GetBySeq of the Go API returns has the
  -- two fields that only the cache sets, the rendered bytes and the counter's cell.
  pub results-Clean :
      (item : Item) (scope id : Bytes) (seq limit offset now_us : ℕ)
      → ResultIsClean (Gateway.append s item clock).0
        × UpsertIsClean (Gateway.upsert s item clock).0
        × AllClean (Gateway.head s scope seq limit now_us).0.0
        × AllClean (Gateway.tail s scope limit offset now_us).0.0
        × HitIsClean (Gateway.get_by_id s scope id now_us).0
        × HitIsClean (Gateway.get_by_seq s scope seq now_us).0
  unfolding Gateway.append Gateway.upsert Gateway.head Gateway.tail Gateway.get_by_id
      Gateway.get_by_seq
  results-Clean item scope id seq limit offset now_us = (
    cloned_result-ResultIsClean _,
    cloned_upsert-UpsertIsClean _,
    cloned_page-AllClean (Read.head s scope seq limit now_us),
    cloned_page-AllClean (Read.tail s scope limit offset now_us),
    cloned_hit-HitIsClean _,
    cloned_hit-HitIsClean _,
  )

  -- Append, Upsert and Update of the Go API return the same and leave the same store whatever
  -- rendered bytes and counter's cell the item that they are given has.
  pub writes_ignore_hidden :
      (item : Item) (render_bytes : Option Bytes) (counter : Option ℕ)
      → let forged = record item { render_bytes = render_bytes; counter = counter } in
        (Gateway.append s forged clock ≡ Gateway.append s item clock)
        × (Gateway.upsert s forged clock ≡ Gateway.upsert s item clock)
        × (Gateway.update s forged clock ≡ Gateway.update s item clock)
  unfolding Gateway.append Gateway.upsert Gateway.update Gateway.clone_item_payload
  writes_ignore_hidden item render_bytes counter = (refl, refl, refl)
