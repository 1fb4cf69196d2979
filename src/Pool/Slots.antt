-- ===== src/Pool/Slots.antt =====
-- Picking a connection from a pool of src/mongo-sync-pool.c, and returning it.
use libmongo_client.Base.{
  ℕ, suc, ◌+◌, ◌-◌, ◌<◌, ◌≡◌, refl, sym, ◌∙◌, inl, inr, ◌↔◌, Bool, true, false, none, some, List,
  [], ◌∷◌, arith, length, All, Bool-cases, Option-cases, lt→ltb, le→ltb,
}
use libmongo_client.Base.Int.{pos}
use libmongo_client.Base.Errno.{eagain}
use libmongo_client.Base.Call.{returns, errs}
use libmongo_client.Pool.{Conn, Pool, pick_from, pick_master, pick, free_at, beyond, give_back}

-- The ids of a list of connections count up from `n`.
abbrev pub IsNumbered : ℕ → List Conn → Type 0
IsNumbered n [] = Unit {0}
IsNumbered n (c ∷ cs) = (c.pool_id ≡ n) × IsNumbered (suc n) cs

abbrev pub IsBusy : Conn → Type 0
IsBusy c = c.in_use ≡ true

-- The ids of the masters and of the slaves, and the counts of a pool.
pub record IsPool (p : Pool) : Type 0 where
  pub master_ids : IsNumbered 0 p.masters
  pub slave_ids : IsNumbered (suc p.nmasters) p.slaves
  pub master_count : p.nmasters ≡ length p.masters
  pub slave_count : p.nslaves ≡ pos (length p.slaves)

-- What `pick_from` takes can be freed again at its index, which gives the list as it was.
pub pick_from-free_at :
    (n : ℕ) (cs cs' : List Conn) (c : Conn)
    → IsNumbered n cs
    → pick_from cs ≡ some (cs', c)
    → (i : ℕ) × (c.pool_id ≡ n + i) × (i < length cs) × (free_at cs' i ≡ some cs)
unfolding pick_from free_at
pick_from-free_at n [] cs' c num e = cc
pick_from-free_at n (x ∷ cs) cs' c num e = elim (Bool-cases x.in_use) [
  | inr free ↦ (0, ground arith, ground arith, ground arith)
  | inl busy ↦ elim (Option-cases (pick_from cs)) [
    | inl none_left ↦ absurd (ground arith)
    | inr ((ds, d), y) ↦
        let ih = pick_from-free_at (suc n) cs ds d num.1 y in
        (suc ih.0, ground (arith, ih.1), ground (arith, ih.2), ground (arith, ih.3))
  ]
]

pick_from_busy : (cs : List Conn) → All IsBusy cs → pick_from cs ≡ none
unfolding pick_from
pick_from_busy [] h = refl
pick_from_busy (c ∷ cs) h = ground (arith, h.0, pick_from_busy cs h.1)

pick_from-none : (cs : List Conn) → pick_from cs ≡ none → All IsBusy cs
unfolding pick_from
pick_from-none [] e = tt
pick_from-none (c ∷ cs) e = elim (Bool-cases c.in_use) [
  | inr free ↦ ground arith
  | inl busy ↦ elim (Option-cases (pick_from cs)) [
    | inl none_left ↦ (busy, pick_from-none cs none_left)
    | inr ((ds, d), y) ↦ ground arith
  ]
]

pick-busy :
    (p : Pool) → All IsBusy p.slaves → All IsBusy p.masters → pick (some p) false ≡ errs eagain
unfolding pick pick_master
pick-busy p slaves masters =
    rw (pick_from_busy p.slaves slaves, pick)
      (rw (pick_from_busy p.masters masters, pick_master) refl)

pick_master-IsBusy : (p : Pool) → pick_master p ≡ errs eagain → All IsBusy p.masters
unfolding pick_master
pick_master-IsBusy p e = elim (Option-cases (pick_from p.masters)) [
  | inl none_left ↦ pick_from-none p.masters none_left
  | inr ((ds, d), y) ↦ absurd (ground arith)
]

pick-none : (p : Pool) → pick_from p.slaves ≡ none → pick (some p) false ≡ pick_master p
unfolding pick
pick-none p e = rw (e, pick) refl

pick-eagain :
    (p : Pool) → pick (some p) false ≡ errs eagain → All IsBusy p.slaves × All IsBusy p.masters
unfolding pick
pick-eagain p e = elim (Option-cases (pick_from p.slaves)) [
  | inl none_left ↦
      (pick_from-none p.slaves none_left, pick_master-IsBusy p (sym (pick-none p none_left) ∙ e))
  | inr ((ds, d), y) ↦ absurd (ground arith)
]

-- `mongo_sync_pool_pick` for reading fails with EAGAIN exactly when every connection of the pool,
-- slave or master, is in use.
pub pick_eagain :
    (p : Pool) → (pick (some p) false ≡ errs eagain) ↔ (All IsBusy p.slaves × All IsBusy p.masters)
pick_eagain p = (pick-eagain p, λ h. pick-busy p h.0 h.1)

give_back_master :
    (p : Pool) (cs : List Conn) (c : Conn)
    → IsPool p
    → pick_from p.masters ≡ some (cs, c)
    → give_back (some (record p { masters = cs })) (some c) ≡ returns p
unfolding give_back
give_back_master p cs c v e =
    let k = pick_from-free_at 0 p.masters cs c v.master_ids e in
    let low = le→ltb p.nmasters c.pool_id (omega (arith, k.1, k.2, v.master_count)) in
    let id : c.pool_id ≡ k.0 = omega (arith, k.1) in rw low (rw id (rw k.3 refl))

pub beyond-slave : (i n : ℕ) → i < n → beyond (suc i) (pos n) ≡ false
unfolding beyond
beyond-slave i n h = ground (arith, h)

give_back_slave :
    (p : Pool) (cs : List Conn) (c : Conn)
    → IsPool p
    → pick_from p.slaves ≡ some (cs, c)
    → give_back (some (record p { slaves = cs })) (some c) ≡ returns p
unfolding give_back
give_back_slave p cs c v e =
    let k = pick_from-free_at (suc p.nmasters) p.slaves cs c v.slave_ids e in
    let high = lt→ltb p.nmasters c.pool_id (omega (arith, k.1)) in
    let off : c.pool_id - p.nmasters ≡ suc k.0 = omega (arith, k.1) in
    let off_one : suc k.0 - 1 ≡ k.0 = omega arith in
    rw high (
      rw off
        (rw v.slave_count (rw (beyond-slave k.0 (length p.slaves) k.2) (rw off_one (rw k.3 refl)))))

give_back-pick_master :
    (p q : Pool) (c : Conn)
    → IsPool p
    → pick_master p ≡ returns (q, c)
    → give_back (some q) (some c) ≡ returns p
unfolding pick_master
give_back-pick_master p q c v e = elim (Option-cases (pick_from p.masters)) [
  | inl none_left ↦ absurd (ground arith)
  | inr ((cs, d), y) ↦
      let same : (q ≡ record p { masters = cs }) × (c ≡ d) = (cc, cc) in
      rw same.0 (rw same.1 (give_back_master p cs d v y))
]

-- A connection that was picked from a well-formed pool and is returned leaves the pool as it was
-- before: the pick changed nothing but that connection's mark, and the id finds it again.
pub give_back-pick :
    (p q : Pool) (c : Conn) (want_master : Bool)
    → IsPool p
    → pick (some p) want_master ≡ returns (q, c)
    → give_back (some q) (some c) ≡ returns p
unfolding pick
give_back-pick p q c true v e = give_back-pick_master p q c v e
give_back-pick p q c false v e = elim (Option-cases (pick_from p.slaves)) [
  | inl none_left ↦ give_back-pick_master p q c v (sym (pick-none p none_left) ∙ e)
  | inr ((cs, d), y) ↦
      let same : (q ≡ record p { slaves = cs }) × (c ≡ d) = (cc, cc) in
      rw same.0 (rw same.1 (give_back_slave p cs d v y))
]
