-- ===== src/Battle/AttackResults/Import.antt =====
-- Import and export of the state in AttackResultStore.cpp.
use loot_of_legends_public.Base.{
  ℕ, ◌+◌, ◌≡◌, refl, true, false, ltb, List, [], ◌∷◌, ◌++◌, some, length, length-append, All,
  All-append, arith, Bool-cases, Option-cases, inl, inr, ap, sym,
}
use loot_of_legends_public.Battle.AttackResults.{
  Record, AttackResultStore, AttackResultStoreState, export_state, import_state, import_records,
}
use loot_of_legends_public.Battle.AttackResults.Invariant.{
  IsValid, IsDistinct, IsOwn, has_id-find, append-IsDistinct, IsDistinct-front,
}

import_records-IsDistinct :
    (battle : ℕ) (es rs out : List Record)
    → IsDistinct rs
    → All (IsOwn battle) rs
    → import_records battle rs es ≡ some out
    → IsDistinct out × All (IsOwn battle) out × (length out ≡ length rs + length es)
unfolding import_records
import_records-IsDistinct battle [] rs out d a h =
    let same : rs ≡ out = ground arith in rw (← same) (d, a, omega arith)
import_records-IsDistinct battle (e ∷ es) rs out d a h =
    let fresh = has_id-find e.command_id rs in
    let one : e.result.command_id ≡ e.command_id = ground arith in
    let two : e.result.battle_id ≡ battle = ground arith in
    let done =
      import_records-IsDistinct battle es (rs ++ e ∷ []) out
        (append-IsDistinct rs e d (ground arith))
        (All-append (IsOwn battle) rs (e ∷ []) a ((one, two), tt)) (ground arith) in
    let (distinct, own, counted) = done in
    (distinct, own, omega (arith, counted, length-append rs (e ∷ [])))

append_next : (rs es : List Record) (e : Record) → (rs ++ e ∷ []) ++ es ≡ rs ++ e ∷ es
append_next [] es e = refl
append_next (r ∷ rs) es e = ap (λ t. r ∷ t) (append_next rs es e)

append_none : (rs : List Record) → rs ++ [] ≡ rs
append_none [] = refl
append_none (r ∷ rs) = ap (λ t. r ∷ t) (append_none rs)

import_records-All :
    (battle : ℕ) (es rs : List Record)
    → IsDistinct (rs ++ es)
    → All (IsOwn battle) es
    → import_records battle rs es ≡ some (rs ++ es)
unfolding import_records
import_records-All battle [] rs d a = ap some (sym (append_none rs))
import_records-All battle (e ∷ es) rs d ((one, two), a) =
    let joined = append_next rs es e in
    let rest = import_records-All battle es (rs ++ e ∷ []) (rw joined d) a in
    let fresh = has_id-find e.command_id rs in
    let front = IsDistinct-front rs es e d in ground (arith, rest, joined)

pub import_state-IsValid :
    (s : AttackResultStore) (x : AttackResultStoreState) → IsValid s → IsValid (import_state s x).0
unfolding import_state
import_state-IsValid s x v = elim (Bool-cases (ltb 256 (length x.records))) [
  | inl e ↦ rw (import_state, e) v
  | inr e ↦ elim (Option-cases (import_records s.battle_id [] x.records)) [
    | inl f ↦ rw (import_state, e, f) v
    | inr (out, f) ↦
        let (distinct, own, counted) =
          import_records-IsDistinct s.battle_id x.records [] out tt tt f in
        rw (import_state, e, f) (record { distinct = distinct; own = own; bounded = ground arith })
  ]
]

-- Whatever a valid store exports, another store of the same battle imports in full: it then exports
-- the same state.
pub import_state-export_state :
    (s t : AttackResultStore)
    → IsValid s
    → s.battle_id ≡ t.battle_id
    → (import_state t (export_state s)
        ≡ (record t { records = s.records; battle_completed_at = s.battle_completed_at }, true))
      × (export_state (import_state t (export_state s)).0 ≡ export_state s)
unfolding import_state
import_state-export_state s t v same =
    let all = import_records-All t.battle_id s.records [] v.distinct (rw (← same) v.own) in
    let small : ltb 256 (length s.records) ≡ false = ground (arith, v.bounded) in
    (ground arith, ground arith)
