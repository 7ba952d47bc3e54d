-- ===== src/Battle/Instance/Invariant/Ledgers.antt =====
-- The loot that a win opens, and what a claim does to it.
use loot_of_legends_public.Base.{
  ℕ, ◌+◌, ◌≤◌, ◌<◌, ◌≡◌, refl, sym, true, false, ◌&&◌, ◌==◌, List, [], ◌∷◌, Option, some, All, map,
  length, arith, inl, inr, Bool-cases, if◌then◌else◌, add64,
}
use loot_of_legends_public.Battle.Drops.{RelicDrop}
use loot_of_legends_public.Battle.Drops.Table.{IsTable}
use loot_of_legends_public.Battle.Result.{LootHoldingProjection}
use loot_of_legends_public.Battle.Result.Checks.{any_of, is_claimed}
use loot_of_legends_public.Battle.Instance.{LootDropRecord, CombatTerminalRecord, has}
use loot_of_legends_public.Battle.Instance.Attack.{available_drop}
use loot_of_legends_public.Battle.Instance.Claim.{find_drop, take_drop, add_holding}
use loot_of_legends_public.Battle.Instance.Invariant.{IsLedger, IsDrop, IsDistinct, taken, held}

fresh-each :
    (index : ℕ) (ds : List RelicDrop) → IsTable index ds → All IsDrop (map available_drop ds)
fresh-each index [] t = tt
fresh-each index (d ∷ ds) (x, t) = ((x.one, refl), fresh-each (index + 1) ds t)

later_ids :
    (id index : ℕ) (ds : List RelicDrop)
    → IsTable index ds
    → id < index + 1
    → any_of (λ other. id == other.drop.drop_id) (map available_drop ds) ≡ false
later_ids id index [] t h = refl
later_ids id index (d ∷ ds) (x, t) h =
    let here : (id == d.drop_id) ≡ false = ground (arith, x.numbered) in
    rw here (later_ids id (index + 1) ds t (omega arith))

fresh-IsDistinct :
    (index : ℕ) (ds : List RelicDrop) → IsTable index ds → IsDistinct (map available_drop ds)
fresh-IsDistinct index [] t = tt
fresh-IsDistinct index (d ∷ ds) (x, t) = (
  later_ids d.drop_id (index + 1) ds t (omega (arith, x.numbered)),
  fresh-IsDistinct (index + 1) ds t,
)

taken-fresh :
    (session item : ℕ) (ds : List RelicDrop) → taken session item (map available_drop ds) ≡ 0
taken-fresh session item [] = refl
taken-fresh session item (d ∷ ds) = omega (arith, taken-fresh session item ds)

length-fresh : (ds : List RelicDrop) → length (map available_drop ds) ≡ length ds
length-fresh [] = refl
length-fresh (d ∷ ds) = omega (arith, length-fresh ds)

pub fresh-IsLedger :
    (terminal : CombatTerminalRecord) (ds : List RelicDrop)
    → IsTable 0 ds
    → length ds ≤ 10
    → IsLedger (some terminal) (map available_drop ds) []
fresh-IsLedger terminal ds t few = record {
  begins = inl refl;
  each = fresh-each 0 ds t;
  distinct = fresh-IsDistinct 0 ds t;
  few = rw (length-fresh ds) few;
  conserved = λ session item. sym (taken-fresh session item ds);
}

-- A claim of the drop `r`, which is available.
module _ (id session : ℕ) where
  taken_each : (rs : List LootDropRecord) → All IsDrop rs → All IsDrop (take_drop id session rs)
  unfolding take_drop
  taken_each [] a = tt
  taken_each (r ∷ rs) (x, a) = elim (Bool-cases (r.drop.drop_id == id)) [
    | inl e ↦ rw e ((x.0, refl), a)
    | inr e ↦ rw e (x, taken_each rs a)
  ]

  taken_same :
      (other : ℕ) (rs : List LootDropRecord)
      → any_of (λ r. other == r.drop.drop_id) (take_drop id session rs)
        ≡ any_of (λ r. other == r.drop.drop_id) rs
  unfolding take_drop
  taken_same other [] = refl
  taken_same other (r ∷ rs) = ground (arith, taken_same other rs)

  taken-IsDistinct :
      (rs : List LootDropRecord) → IsDistinct rs → IsDistinct (take_drop id session rs)
  unfolding take_drop
  taken-IsDistinct [] d = tt
  taken-IsDistinct (r ∷ rs) (fresh, d) = elim (Bool-cases (r.drop.drop_id == id)) [
    | inl e ↦ rw e (fresh, d)
    | inr e ↦ rw e (rw (taken_same r.drop.drop_id rs) fresh, taken-IsDistinct rs d)
  ]

  length-taken : (rs : List LootDropRecord) → length (take_drop id session rs) ≡ length rs
  unfolding take_drop
  length-taken [] = refl
  length-taken (r ∷ rs) = ground (arith, length-taken rs)

  -- Its owner has taken it, and nothing else has changed.
  taken-take_drop :
      (who item : ℕ) (rs : List LootDropRecord) (r : LootDropRecord)
      → All IsDrop rs
      → find_drop id rs ≡ some r
      → is_claimed r.state ≡ false
      → taken who item (take_drop id session rs)
        ≡ (if session == who && r.drop.item_id == item then 1 else 0) + taken who item rs
  unfolding take_drop
  taken-take_drop who item [] r a e c = absurd (ground arith)
  taken-take_drop who item (q ∷ rs) r (x, a) e c = elim (Bool-cases (q.drop.drop_id == id)) [
    | inl f ↦
        let same : q ≡ r = ground arith in
        let one : r.drop.quantity ≡ 1 = rw same at x.0 in rw (f, same, one, c) (omega arith)
    | inr f ↦
        let rest = taken-take_drop who item rs r a (ground arith) c in rw (f, rest) (omega arith)
  ]

held-add_holding :
    (who item session kind : ℕ) (hs : List LootHoldingProjection)
    → held session kind hs ≤ 10
    → held who item (add_holding session kind 1 hs)
      ≡ (if session == who && kind == item then 1 else 0) + held who item hs
unfolding add_holding
held-add_holding who item session kind [] b = omega arith
held-add_holding who item session kind (h ∷ hs) b =
    elim (Bool-cases (h.session_id == session && h.item_id == kind)) [
      | inl e ↦
          let small : h.quantity ≤ 10 = ground arith in
          let sum : add64 h.quantity 1 ≡ h.quantity + 1 = omega arith in
          let one : h.session_id ≡ session = ground arith in
          let two : h.item_id ≡ kind = ground arith in rw (e, sum, one, two) (ground arith)
      | inr e ↦
          let rest = held-add_holding who item session kind hs (omega (arith, b)) in
          rw (e, rest) (omega arith)
    ]

taken_few :
    (session item : ℕ) (rs : List LootDropRecord)
    → All IsDrop rs
    → taken session item rs ≤ length rs
taken_few session item [] a = omega arith
taken_few session item (r ∷ rs) (x, a) = ground (arith, taken_few session item rs a, x.0)

found_drop :
    (id : ℕ) (rs : List LootDropRecord) (r : LootDropRecord)
    → All IsDrop rs
    → find_drop id rs ≡ some r
    → (r.drop.drop_id ≡ id) × (r.drop.quantity ≡ 1)
found_drop id [] r a e = absurd (ground arith)
found_drop id (q ∷ rs) r (x, a) e = elim (Bool-cases (q.drop.drop_id == id)) [
  | inl f ↦ let same : q ≡ r = ground arith in (rw (← same) (ground arith), rw (← same) x.0)
  | inr f ↦ found_drop id rs r a (ground arith)
]

-- A claim of an available drop moves it from the drops to what its owner holds.
pub take-IsLedger :
    (terminal : Option CombatTerminalRecord) (drops : List LootDropRecord)
    (holdings : List LootHoldingProjection) (id session : ℕ) (r : LootDropRecord)
    → IsLedger terminal drops holdings
    → has terminal ≡ true
    → find_drop id drops ≡ some r
    → is_claimed r.state ≡ false
    → IsLedger terminal
        (take_drop r.drop.drop_id session drops)
        (add_holding session r.drop.item_id r.drop.quantity holdings)
take-IsLedger terminal drops holdings id session r v h e c =
    let (named, one) = found_drop id drops r v.each e in
    rw (named, one)
      (record {
        begins = inl h;
        each = taken_each id session drops v.each;
        distinct = taken-IsDistinct id session drops v.distinct;
        few = rw (length-taken id session drops) v.few;
        conserved = λ who item.
            let bound : held session r.drop.item_id holdings ≤ 10 = omega (
              arith,
              v.conserved session r.drop.item_id,
              taken_few session r.drop.item_id drops v.each,
              v.few,
            ) in
            let more = held-add_holding who item session r.drop.item_id holdings bound in
            let less = taken-take_drop id session who item drops r v.each e c in
            omega (arith, more, less, v.conserved who item);
      })
