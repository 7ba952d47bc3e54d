-- ===== src/Battle/Result/Ranking.antt =====
-- The ranking of ResultBuilder.cpp against an independent description: the rank of an entry is one
-- more than the number of entries of greater value.
use loot_of_legends_public.Base.{
  ℕ, ◌+◌, ◌≤◌, ◌<◌, ◌≡◌, refl, ◌∙◌, ap, ◌&&◌, ◌==◌, ltb, List, [], ◌∷◌, Option, none, some, All,
  arith, inl, inr, Bool-cases, if◌then◌else◌,
}
use loot_of_legends_public.Battle.Result.{
  BattleResultEntry, by_value, insert, sort, next_rank, rank_from, rank_entries,
}

-- The entries of greater value than `value`.
pub greater : ℕ → List BattleResultEntry → ℕ
greater value [] = 0
greater value (e ∷ es) = (if ltb value e.final_asset_value then 1 else 0) + greater value es

-- How often an entry of that session and value occurs.
pub occurrences : ℕ → ℕ → List BattleResultEntry → ℕ
occurrences session value [] = 0
occurrences session value (e ∷ es) =
    (if e.session_id == session && e.final_asset_value == value then 1 else 0)
    + occurrences session value es

-- An entry as it should be ranked among all of `es`.
abbrev pub IsRanked : List BattleResultEntry → BattleResultEntry → Type 0
IsRanked es e =
    (e.rank ≡ some (1 + greater e.final_asset_value es))
    × (e.is_top ≡ (greater e.final_asset_value es == 0))

-- In descending order of value.
abbrev pub IsDescending : List BattleResultEntry → Type 0
IsDescending [] = Unit {0}
IsDescending (e ∷ es) = All (λ x. x.final_asset_value ≤ e.final_asset_value) es × IsDescending es

All-mono :
    (low high : ℕ) (es : List BattleResultEntry)
    → low ≤ high
    → All (λ x. x.final_asset_value ≤ low) es
    → All (λ x. x.final_asset_value ≤ high) es
All-mono low high [] h a = tt
All-mono low high (e ∷ es) h (x, a) = (omega (arith, x, h), All-mono low high es h a)

insert-bounded :
    (v : ℕ) (x : BattleResultEntry) (es : List BattleResultEntry)
    → x.final_asset_value ≤ v
    → All (λ e. e.final_asset_value ≤ v) es
    → All (λ e. e.final_asset_value ≤ v) (insert by_value x es)
unfolding insert
insert-bounded v x [] h a = (h, tt)
insert-bounded v x (e ∷ es) h (k, a) = elim (Bool-cases (by_value e x)) [
  | inl t ↦ rw t (k, insert-bounded v x es h a)
  | inr t ↦ rw t (h, (k, a))
]

insert-IsDescending :
    (x : BattleResultEntry) (es : List BattleResultEntry)
    → IsDescending es
    → IsDescending (insert by_value x es)
unfolding insert
insert-IsDescending x [] d = (tt, tt)
insert-IsDescending x (e ∷ es) (k, d) = elim (Bool-cases (by_value e x)) [
  | inl t ↦
      let h : x.final_asset_value ≤ e.final_asset_value = ground arith in
      rw t (insert-bounded e.final_asset_value x es h k, insert-IsDescending x es d)
  | inr t ↦
      let h : e.final_asset_value ≤ x.final_asset_value = ground arith in
      rw t ((h, All-mono e.final_asset_value x.final_asset_value es h k), (k, d))
]

pub sort-IsDescending : (es : List BattleResultEntry) → IsDescending (sort by_value es)
unfolding sort
sort-IsDescending [] = tt
sort-IsDescending (e ∷ es) = insert-IsDescending e (sort by_value es) (sort-IsDescending es)

greater-insert :
    (v : ℕ) (x : BattleResultEntry) (es : List BattleResultEntry)
    → greater v (insert by_value x es) ≡ (if ltb v x.final_asset_value then 1 else 0) + greater v es
unfolding greater insert
greater-insert v x [] = refl
greater-insert v x (e ∷ es) = elim (Bool-cases (by_value e x)) [
  | inl t ↦ rw (t, greater-insert v x es) (omega arith)
  | inr t ↦ rw t refl
]

greater-sort : (v : ℕ) (es : List BattleResultEntry) → greater v (sort by_value es) ≡ greater v es
unfolding greater sort
greater-sort v [] = refl
greater-sort v (e ∷ es) = rw (greater-insert v e (sort by_value es), greater-sort v es) refl

greater-bounded :
    (v : ℕ) (es : List BattleResultEntry) → All (λ e. e.final_asset_value ≤ v) es → greater v es ≡ 0
unfolding greater
greater-bounded v [] a = refl
greater-bounded v (e ∷ es) (x, a) = ground (arith, greater-bounded v es a, x)

-- Where the ranking stands, after the first `index` entries of `all` and with `es` to come.
abbrev IsAfter : List BattleResultEntry → Option ℕ → ℕ → ℕ → List BattleResultEntry → Type 0
IsAfter all none rank index es = (index ≡ 0) × ((u : ℕ) → greater u all ≡ greater u es)
IsAfter all (some before) rank index es =
    (rank ≡ 1 + greater before all)
    × All (λ e. e.final_asset_value ≤ before) es
    × ((u : ℕ) → u < before → greater u all ≡ index + greater u es)

-- The next rank is right, and the ranking stands after one more entry.
ranks_next :
    (all : List BattleResultEntry) (before : Option ℕ) (rank index : ℕ) (e : BattleResultEntry)
    (es : List BattleResultEntry)
    → IsAfter all before rank index (e ∷ es)
    → IsDescending (e ∷ es)
    → let v = e.final_asset_value in
      (next_rank before v rank index ≡ 1 + greater v all)
      × ((u : ℕ) → u < v → greater u all ≡ (index + 1) + greater u es)
unfolding greater
ranks_next all none rank index e es (first, same) (k, d) = (
  ground (arith, first, same e.final_asset_value, greater-bounded e.final_asset_value es k),
  λ u h. ground (arith, first, same u, h),
)
ranks_next all (some before) rank index e es (right, (below, rest), same) (k, d) = (
  ground (arith, right, below, same e.final_asset_value, greater-bounded e.final_asset_value es k),
  λ u h. ground (arith, below, same u, h),
)

rank_from-IsRanked :
    (all : List BattleResultEntry) (before : Option ℕ) (rank index : ℕ)
    (es : List BattleResultEntry)
    → IsAfter all before rank index es
    → IsDescending es
    → All (IsRanked all) (rank_from before rank index es)
unfolding rank_from
rank_from-IsRanked all before rank index [] h d = tt
rank_from-IsRanked all before rank index (e ∷ es) h (k, d) =
    let v = e.final_asset_value in
    let (right, same) = ranks_next all before rank index e es h (k, d) in
    (
      (ap some right, rw right (ground arith)),
      rank_from-IsRanked all (some v) (next_rank before v rank index) (index + 1) es
          (right, k, same) d,
    )

occurrences-insert :
    (s v : ℕ) (x : BattleResultEntry) (es : List BattleResultEntry)
    → occurrences s v (insert by_value x es) ≡ occurrences s v (x ∷ es)
unfolding occurrences insert
occurrences-insert s v x [] = refl
occurrences-insert s v x (e ∷ es) = elim (Bool-cases (by_value e x)) [
  | inl t ↦ rw (t, occurrences-insert s v x es) (omega arith)
  | inr t ↦ rw t refl
]

occurrences-sort :
    (s v : ℕ) (es : List BattleResultEntry)
    → occurrences s v (sort by_value es) ≡ occurrences s v es
unfolding occurrences sort
occurrences-sort s v [] = refl
occurrences-sort s v (e ∷ es) =
    rw (occurrences-insert s v e (sort by_value es), occurrences-sort s v es) refl

-- Ranking changes neither the session nor the value of an entry.
ranked_same :
    (before : Option ℕ) (rank index : ℕ) (es : List BattleResultEntry)
    → ((s v : ℕ) → occurrences s v (rank_from before rank index es) ≡ occurrences s v es)
      × ((w : ℕ)
          → All (λ e. e.final_asset_value ≤ w) es
          → All (λ e. e.final_asset_value ≤ w) (rank_from before rank index es))
unfolding rank_from occurrences
ranked_same before rank index [] = (λ s v. refl, λ w a. tt)
ranked_same before rank index (e ∷ es) =
    let (count, bound) =
      ranked_same (some e.final_asset_value) (next_rank before e.final_asset_value rank index)
        (index + 1) es in
    (λ s v. rw (count s v) refl, λ w a. (a.0, bound w a.1))

rank_from-IsDescending :
    (before : Option ℕ) (rank index : ℕ) (es : List BattleResultEntry)
    → IsDescending es
    → IsDescending (rank_from before rank index es)
unfolding rank_from
rank_from-IsDescending before rank index [] d = tt
rank_from-IsDescending before rank index (e ∷ es) (k, d) =
    let now = next_rank before e.final_asset_value rank index in
    (
      (ranked_same (some e.final_asset_value) now (index + 1) es).1 e.final_asset_value k,
      rank_from-IsDescending (some e.final_asset_value) now (index + 1) es d,
    )

IsRanked-among :
    (all es qs : List BattleResultEntry)
    → ((u : ℕ) → greater u all ≡ greater u es)
    → All (IsRanked all) qs
    → All (IsRanked es) qs
IsRanked-among all es [] h a = tt
IsRanked-among all es (q ∷ qs) h (x, a) =
    (rw (h q.final_asset_value) at x, IsRanked-among all es qs h a)

-- The ranking, for any entries: each gets one more than the number of entries of greater value as
-- its rank, and is at the top exactly when there is none; the values descend; and each session
-- occurs with each value as often as before.
pub rank_entries_lem :
    (es : List BattleResultEntry)
    → All (IsRanked es) (rank_entries es)
      × IsDescending (rank_entries es)
      × ((s v : ℕ) → occurrences s v (rank_entries es) ≡ occurrences s v es)
unfolding rank_entries
rank_entries_lem es =
    let sorted = sort by_value es in
    let d = sort-IsDescending es in
    let each = rank_from-IsRanked sorted none 0 0 sorted (refl, λ u. refl) d in
    (
      IsRanked-among sorted es _ (λ u. greater-sort u es) each,
      rank_from-IsDescending none 0 0 sorted d,
      λ s v. (ranked_same none 0 0 sorted).0 s v ∙ occurrences-sort s v es,
    )
