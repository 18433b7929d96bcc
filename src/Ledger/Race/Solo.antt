-- ===== src/Ledger/Race/Solo.antt =====
-- A race refines reserveBytes as it is modelled alone: a grant takes effect at its swap, and a caller
-- that is let run finishes as the sequential call does.
use inmem_cache.Base.{
  ℕ, zero, suc, ◌^◌, ◌<◌, ◌≡◌, refl, ap, ◌∙◌, true, false, some, List, [], ◌∷◌, get_elem?, set,
  arith, Bool-cases, inl, inr, if◌then◌else◌,
}
use inmem_cache.Base.Word.{add64}
use inmem_cache.Ledger.{Ledger, Reservation, reserve_bytes}
use inmem_cache.Base.Interleave.{Race, Alone, still, moves}
use inmem_cache.Ledger.Race.{
  Caller, asking, loaded, granted, refused, is_over, Move, load, reject, swap, retry, give_back,
  released,
}

get_elem?-set_self :
    (cs : List Caller) (i : ℕ) (p q : Caller)
    → get_elem? cs i ≡ some p
    → get_elem? (set cs i q) i ≡ some q
get_elem?-set_self [] i p q at = absurd (ground (arith, at))
get_elem?-set_self (c ∷ cs) zero p q at = refl
get_elem?-set_self (c ∷ cs) (suc i) p q at = get_elem?-set_self cs i p q at

-- Where the sequential call leaves its caller.
abbrev pub outcome : ℕ → Reservation → Caller
outcome delta r = if r.granted then granted delta else refused delta r.total

module _ (l : Ledger) (delta : ℕ) (pos : 0 < delta) (fits : delta < 2 ^ 63) where
  reserve_bytes-over :
      is_over l.max_store_bytes delta l.total_bytes ≡ true
      → (l.total_bytes ≡ (reserve_bytes l delta).after.total_bytes)
        × (refused delta l.total_bytes ≡ outcome delta (reserve_bytes l delta))
  unfolding reserve_bytes is_over
  reserve_bytes-over over = ground arith

  reserve_bytes-fine :
      is_over l.max_store_bytes delta l.total_bytes ≡ false
      → (add64 l.total_bytes delta ≡ (reserve_bytes l delta).after.total_bytes)
        × (granted delta ≡ outcome delta (reserve_bytes l delta))
  unfolding reserve_bytes is_over
  reserve_bytes-fine fine = ground arith

  -- Wherever a caller's swap succeeds in an interleaving, the counter after it, and the grant,
  -- are what reserveBytes gives when it is run alone from the counter before the swap, for a
  -- positive delta below 2 ^ 63.
  pub swap-reserve_bytes :
      {t : ℕ} {p : Caller}
      → Move l.max_store_bytes l.total_bytes p t (granted delta)
      → (t ≡ (reserve_bytes l delta).after.total_bytes)
        × (granted delta ≡ outcome delta (reserve_bytes l delta))
  unfolding reserve_bytes is_over
  swap-reserve_bytes (swap fine same) = ground arith

  -- Where the caller `i` stands after some turns of its own.
  abbrev At : ℕ → ℕ → Race ℕ Caller → Type 0
  At i zero u = (u.shared ≡ l.total_bytes) × (get_elem? u.callers i ≡ some (asking delta))
  At i (suc zero) u =
      (u.shared ≡ l.total_bytes) × (get_elem? u.callers i ≡ some (loaded delta l.total_bytes))
  At i (suc (suc zero)) u =
      (u.shared ≡ (reserve_bytes l delta).after.total_bytes)
      × (get_elem? u.callers i ≡ some (outcome delta (reserve_bytes l delta)))
  At i (suc (suc (suc zero))) u =
      ((reserve_bytes l delta).granted ≡ true) × (get_elem? u.callers i ≡ some (released delta))
  At i (suc (suc (suc (suc n)))) u = ⊥

  -- A caller that has not got its answer can take another turn. After two turns it has the
  -- answer, and all that it can do then is one release of what it was granted.
  abbrev pub Settles : ℕ → ℕ → Race ℕ Caller → Type 0
  Settles i zero u = (v : Race ℕ Caller) × Alone (Move l.max_store_bytes) i u 1 v
  Settles i (suc zero) u = (v : Race ℕ Caller) × Alone (Move l.max_store_bytes) i u 1 v
  Settles i (suc (suc n)) u = At i (suc (suc n)) u

  settled-Move :
      {t s : ℕ} {p q : Caller}
      → Move l.max_store_bytes t p s q
      → p ≡ outcome delta (reserve_bytes l delta)
      → ((reserve_bytes l delta).granted ≡ true) × (q ≡ released delta)
  settled-Move load e = absurd (ground (arith, e))
  settled-Move (reject over) e = absurd (ground (arith, e))
  settled-Move (swap fine same) e = absurd (ground (arith, e))
  settled-Move (retry fine other) e = absurd (ground (arith, e))
  settled-Move give_back e = ground (arith, e)

  loaded-Move :
      {t s : ℕ} {p q : Caller}
      → Move l.max_store_bytes t p s q
      → t ≡ l.total_bytes
      → p ≡ loaded delta l.total_bytes
      → (s ≡ (reserve_bytes l delta).after.total_bytes)
        × (q ≡ outcome delta (reserve_bytes l delta))
  loaded-Move load h e = absurd (ground (arith, e))
  loaded-Move (reject {delta = d} {current = c} over) h e =
      let asked : d ≡ delta = ground (arith, e) in
      let seen : c ≡ l.total_bytes = ground (arith, e) in
      let (sum, end) = reserve_bytes-over (ground (arith, over, asked, seen)) in
      ground (arith, sum, end, h, asked, seen)
  loaded-Move (swap {delta = d} {current = c} fine same) h e =
      let asked : d ≡ delta = ground (arith, e) in
      let seen : c ≡ l.total_bytes = ground (arith, e) in
      let (sum, end) = reserve_bytes-fine (ground (arith, fine, asked, seen)) in
      ground (arith, sum, end, h, asked, seen)
  loaded-Move (retry fine other) h e = absurd (other (ground (arith, h, e)))
  loaded-Move give_back h e = absurd (ground (arith, e))

  asking-Move :
      {t s : ℕ} {p q : Caller}
      → Move l.max_store_bytes t p s q
      → p ≡ asking delta
      → (s ≡ t) × (q ≡ loaded delta t)
  asking-Move load e = ground (arith, e)
  asking-Move (reject over) e = absurd (ground (arith, e))
  asking-Move (swap fine same) e = absurd (ground (arith, e))
  asking-Move (retry fine other) e = absurd (ground (arith, e))
  asking-Move give_back e = absurd (ground (arith, e))

  released-Move : {t s : ℕ} {p q : Caller} → Move l.max_store_bytes t p s q → p ≡ released delta → ⊥
  released-Move load e = ground (arith, e)
  released-Move (reject over) e = ground (arith, e)
  released-Move (swap fine same) e = ground (arith, e)
  released-Move (retry fine other) e = ground (arith, e)
  released-Move give_back e = ground (arith, e)

  At-moves :
      (i n : ℕ) (t : Race ℕ Caller) {p q : Caller} {s : ℕ}
      → At i n t
      → get_elem? t.callers i ≡ some p
      → Move l.max_store_bytes t.shared p s q
      → At i (suc n) (record { shared = s; callers = set t.callers i q })
  At-moves i zero t {p} {q} at here move =
      let (same, end) = asking-Move move (ground (arith, at.1, here)) in
      (
        same ∙ at.0,
        get_elem?-set_self t.callers i p q here ∙ ap some (end ∙ ap (loaded delta) at.0),
      )
  At-moves i (suc zero) t {p} {q} at here move =
      let (sum, end) = loaded-Move move at.0 (ground (arith, at.1, here)) in
      (sum, get_elem?-set_self t.callers i p q here ∙ ap some end)
  At-moves i (suc (suc zero)) t {p} {q} at here move =
      let (held, end) = settled-Move move (ground (arith, at.1, here)) in
      (held, get_elem?-set_self t.callers i p q here ∙ ap some end)
  At-moves i (suc (suc (suc zero))) t at here move = released-Move move (ground (arith, at.1, here))
  At-moves i (suc (suc (suc (suc n)))) t at here move = at

  At-Settles : (i n : ℕ) (u : Race ℕ Caller) → At i n u → Settles i n u
  At-Settles i zero u at = (_, moves still at.1 load)
  At-Settles i (suc zero) u at = elim (Bool-cases (is_over l.max_store_bytes delta l.total_bytes)) [
    | inl over ↦ (_, moves still at.1 (reject over))
    | inr fine ↦ (_, moves still at.1 (swap fine at.0))
  ]
  At-Settles i (suc (suc n)) u at = at

  Alone-At :
      (cs : List Caller) (i : ℕ)
      → get_elem? cs i ≡ some (asking delta)
      → {n : ℕ} {u : Race ℕ Caller}
      → Alone (Move l.max_store_bytes) i (record { shared = l.total_bytes; callers = cs }) n u
      → At i n u
  Alone-At cs i at still = (refl, at)
  Alone-At cs i at (moves {n} {t} run here move) = At-moves i n t (Alone-At cs i at run) here move

  -- A caller that is about to ask, for a positive delta below 2 ^ 63, comes to an end if it
  -- alone is let run, whatever turns it takes. After fewer than two turns of its own it can
  -- take another one; after two the counter and the answer of the caller are what reserveBytes
  -- gives when it is run alone; it takes a third one only as the release of what it was
  -- granted, and never a fourth.
  pub solo-reserve_bytes :
      (cs : List Caller) (i : ℕ)
      → get_elem? cs i ≡ some (asking delta)
      → {n : ℕ} {u : Race ℕ Caller}
      → Alone (Move l.max_store_bytes) i (record { shared = l.total_bytes; callers = cs }) n u
      → Settles i n u
  solo-reserve_bytes cs i at {n} {u} run = At-Settles i n u (Alone-At cs i at run)
