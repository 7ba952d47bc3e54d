-- ===== src/Battle/AttackResults/Invariant.antt =====
-- What holds of a store of attack results between two calls.
use loot_of_legends_public.Base.{
  ℕ, ◌+◌, ◌≤◌, ◌≡◌, refl, Bool, true, false, not, ◌||◌, ◌==◌, List, [], ◌∷◌, ◌++◌, length,
  length-append, All, All-append, arith, Bool-cases, Option-cases, inl, inr,
}
use loot_of_legends_public.Battle.AttackResults.{
  Record, AttackCommand, AttackTerminalResult, AttackResultStore, inspect, retain, is_found,
  find_record, is_available,
}

abbrev pub has_id : ℕ → List Record → Bool
has_id id [] = false
has_id id (r ∷ rs) = r.command_id == id || has_id id rs

-- No command has two records.
abbrev pub IsDistinct : List Record → Type 0
IsDistinct [] = Unit {0}
IsDistinct (r ∷ rs) = (has_id r.command_id rs ≡ false) × IsDistinct rs

-- A record is about its own command and the store's battle.
abbrev pub IsOwn : ℕ → Record → Type 0
IsOwn battle r = (r.result.command_id ≡ r.command_id) × (r.result.battle_id ≡ battle)

pub record IsValid (s : AttackResultStore) : Type 0 where
  pub distinct : IsDistinct s.records
  pub own : All (IsOwn s.battle_id) s.records
  pub bounded : length s.records ≤ 256

pub has_id-find : (id : ℕ) (rs : List Record) → is_found (find_record id rs) ≡ has_id id rs
has_id-find id [] = refl
has_id-find id (r ∷ rs) = ground (arith, has_id-find id rs)

has_id-append :
    (id : ℕ) (rs qs : List Record) → has_id id (rs ++ qs) ≡ (has_id id rs || has_id id qs)
has_id-append id [] qs = refl
has_id-append id (r ∷ rs) qs = ground (arith, has_id-append id rs qs)

pub append-IsDistinct :
    (rs : List Record) (e : Record)
    → IsDistinct rs
    → has_id e.command_id rs ≡ false
    → IsDistinct (rs ++ e ∷ [])
append-IsDistinct [] e d h = (refl, tt)
append-IsDistinct (r ∷ rs) e (p, d) h = (
  ground (arith, has_id-append r.command_id rs (e ∷ [])),
  append-IsDistinct rs e d (ground arith),
)

pub IsDistinct-front :
    (rs es : List Record) (e : Record) → IsDistinct (rs ++ e ∷ es) → has_id e.command_id rs ≡ false
IsDistinct-front [] es e d = refl
IsDistinct-front (r ∷ rs) es e (p, d) =
    ground (arith, has_id-append r.command_id rs (e ∷ es), IsDistinct-front rs es e d)

-- What an available command tells about the store.
available_lem :
    (s : AttackResultStore) (c : AttackCommand)
    → is_available (inspect s c).0 ≡ true
    → (c.battle_id ≡ s.battle_id)
      × (has_id c.command_id s.records ≡ false)
      × (length s.records + 1 ≤ 256)
unfolding inspect
available_lem s c e =
    let known = has_id-find c.command_id s.records in
    elim (Option-cases (find_record c.command_id s.records)) [
      | inl x ↦ (ground arith, ground arith, ground arith)
      | inr (r, x) ↦ absurd (ground arith)
    ]

pub retain-IsValid :
    (s : AttackResultStore) (c : AttackCommand) (x : AttackTerminalResult)
    → IsValid s
    → IsValid (retain s c x).0
unfolding retain
retain-IsValid s c x v =
    elim (Bool-cases (
      not (is_available (inspect s c).0)
      || not (x.command_id == c.command_id)
      || not (x.battle_id == c.battle_id))) [
        | inl e ↦ rw (retain, e) v
        | inr e ↦
            let (same, fresh, room) = available_lem s c (ground arith) in
            let new : Record = (record {
              command_id = c.command_id;
              target_hint = c.target_hint;
              result = x;
            }) in
            let one : x.command_id ≡ c.command_id = ground arith in
            let two : x.battle_id ≡ s.battle_id = ground arith in
            rw (retain, e)
              (record {
                distinct = append-IsDistinct s.records new v.distinct fresh;
                own = All-append (IsOwn s.battle_id) s.records (new ∷ []) v.own ((one, two), tt);
                bounded = omega (arith, length-append s.records (new ∷ []));
              })
      ]
