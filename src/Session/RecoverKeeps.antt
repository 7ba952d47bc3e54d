-- ===== src/Session/RecoverKeeps.antt =====
-- A recovered batch keeps the registry of SessionRegistry.cpp valid.
use loot_of_legends_public.Base.{
  ℕ, ◌+◌, ◌≤◌, ◌<◌, ◌≡◌, refl, true, false, leb, ◌==◌, List, [], ◌∷◌, some, arith, Bool-cases,
  Option-cases, inl, inr, length, max, sub64,
}
use loot_of_legends_public.Base.Maps.{find, contains, find-insert_or_assign}
use loot_of_legends_public.Session.{ActiveSession, SessionRegistry, maximum, is_exhausted}
use loot_of_legends_public.Session.Recover.{
  RecoveredDetachedSession, Batch, member, is_refused, admit, check_batch, raise_generation,
  recovered, reinstate, reinstate_all, install_recovered_detached, start_batch, commit_batch,
  finish_batch,
}
use loot_of_legends_public.Session.Invariant.{IsValid}

abbrev Avoids : ℕ → ℕ → List RecoveredDetachedSession → Type 0
Avoids account session [] = Unit {0}
Avoids account session (c ∷ cs) =
    ((c.identity.account_id == account) ≡ false)
    × ((c.session_id == session) ≡ false)
    × Avoids account session cs

-- A batch none of whose keys is taken, below the session limit.
abbrev Apart : SessionRegistry → ℕ → List RecoveredDetachedSession → Type 0
Apart r n [] = Unit {0}
Apart r n (c ∷ cs) =
    (contains c.identity.account_id r.current_by_account ≡ false)
    × (contains c.session_id r.account_by_session ≡ false)
    × (c.session_id < n)
    × Avoids c.identity.account_id c.session_id cs
    × Apart r n cs

check_grows :
    (r : SessionRegistry) (cs : List RecoveredDetachedSession) (b b' : Batch)
    → check_batch r cs b ≡ some b'
    → (b.next_session_id ≤ b'.next_session_id) × (b.first_generation ≤ b'.first_generation)
unfolding check_batch
check_grows r [] b b' h = ground arith
check_grows r (c ∷ cs) b b' h = ground (arith, check_grows r cs (admit b c) b')

check-Avoids :
    (r : SessionRegistry) (cs : List RecoveredDetachedSession) (b b' : Batch) (a s : ℕ)
    → check_batch r cs b ≡ some b'
    → member a b.accounts ≡ true
    → member s b.session_ids ≡ true
    → Avoids a s cs
unfolding check_batch member
check-Avoids r [] b b' a s h p q = tt
check-Avoids r (c ∷ cs) b b' a s h p q =
    let passed : is_refused r b c ≡ false = ground arith in
    let account : (c.identity.account_id == a) ≡ false =
      elim (Bool-cases (c.identity.account_id == a)) [
        | inl x ↦
            let e : c.identity.account_id ≡ a = ground arith in
            let f : member c.identity.account_id b.accounts ≡ true = rw e p in absurd (ground arith)
        | inr x ↦ x
      ] in
    let session : (c.session_id == s) ≡ false = elim (Bool-cases (c.session_id == s)) [
      | inl x ↦
          let e : c.session_id ≡ s = ground arith in
          let f : member c.session_id b.session_ids ≡ true = rw e q in absurd (ground arith)
      | inr x ↦ x
    ] in
    (account, session, ground (arith, check-Avoids r cs (admit b c) b' a s))

check-Apart :
    (r : SessionRegistry) (cs : List RecoveredDetachedSession) (b b' : Batch)
    → check_batch r cs b ≡ some b'
    → Apart r b'.next_session_id cs
unfolding check_batch member
check-Apart r [] b b' h = tt
check-Apart r (c ∷ cs) b b' h = ground (
  arith,
  check-Avoids r cs (admit b c) b' c.identity.account_id c.session_id,
  check-Apart r cs (admit b c) b',
  check_grows r cs (admit b c) b',
)

-- The rest of the batch stays apart from the registry with one more session.
reinstate-Apart :
    (r : SessionRegistry) (n g t : ℕ) (c : RecoveredDetachedSession)
    (cs : List RecoveredDetachedSession)
    → contains c.identity.account_id r.current_by_account ≡ false
    → contains c.session_id r.account_by_session ≡ false
    → Avoids c.identity.account_id c.session_id cs
    → Apart r n cs
    → Apart (reinstate r c g t) n cs
reinstate-Apart r n g t c [] p q a h = tt
reinstate-Apart r n g t c (d ∷ cs) p q a h = ground (
  arith,
  find-insert_or_assign c.identity.account_id d.identity.account_id (recovered c g t)
      r.current_by_account,
  find-insert_or_assign c.session_id d.session_id c.identity.account_id r.account_by_session,
  reinstate-Apart r n g t c cs p q,
)

module _ (r : SessionRegistry) (c : RecoveredDetachedSession) (g t : ℕ) (v : IsValid r) where
  reinstate-IsValid :
      contains c.identity.account_id r.current_by_account ≡ false
      → contains c.session_id r.account_by_session ≡ false
      → c.session_id < r.next_session_id
      → g < r.next_generation
      → IsValid (reinstate r c g t)
  reinstate-IsValid p q ls lg =
      let sessions = λ (a : ℕ).
        find-insert_or_assign c.identity.account_id a (recovered c g t) r.current_by_account in
      let keys = λ (k : ℕ).
        find-insert_or_assign c.session_id k c.identity.account_id r.account_by_session in
      record {
        routes = λ a s e. elim (Bool-cases (c.identity.account_id == a)) [
          | inl x ↦ ground (arith, sessions a, keys s.session_id)
          | inr x ↦
              let old : find a r.current_by_account ≡ some s = ground (arith, sessions a) in
              let f = v.routes a s old in
              elim (Bool-cases (c.session_id == s.session_id)) [
                | inl y ↦
                    let same : c.session_id ≡ s.session_id = ground arith in
                    let taken : find c.session_id r.account_by_session ≡ some a = rw same f in
                    absurd (ground arith)
                | inr y ↦ ground (arith, keys s.session_id)
              ]
        ];
        owners = λ k b e. elim (Bool-cases (c.session_id == k)) [
          | inl x ↦ (recovered c g t, ground (arith, keys k, sessions b), ground arith)
          | inr x ↦
              let old : find k r.account_by_session ≡ some b = ground (arith, keys k) in
              let (u, found, named) = v.owners k b old in
              elim (Bool-cases (c.identity.account_id == b)) [
                | inl y ↦
                    let same : c.identity.account_id ≡ b = ground arith in
                    let taken : find c.identity.account_id r.current_by_account ≡ some u =
                      rw same found in
                    absurd (ground arith)
                | inr y ↦ (u, ground (arith, sessions b), named)
              ]
        ];
        fresh_session = λ k b e. ground (arith, keys k, v.fresh_session k b);
        fresh_generation = λ a s e. ground (arith, sessions a, v.fresh_generation a s);
        proofs = λ a s e. ground (arith, sessions a, v.proofs a s);
      }

reinstate_all-IsValid :
    (r : SessionRegistry) (cs : List RecoveredDetachedSession) (g t : ℕ)
    → IsValid r
    → Apart r r.next_session_id cs
    → g + length cs ≤ r.next_generation
    → IsValid (reinstate_all r cs g t).0
unfolding reinstate_all
reinstate_all-IsValid r [] g t v a h = v
reinstate_all-IsValid r (c ∷ cs) g t v a h =
    let (p, q, l, avoid, apart) = a in
    reinstate_all-IsValid (reinstate r c g t) cs (g + 1) t
      (reinstate-IsValid r c g t v p q l (omega arith))
      (reinstate-Apart r r.next_session_id g t c cs p q avoid apart) (omega arith)

abbrev with_counters : ℕ → ℕ → SessionRegistry → SessionRegistry
with_counters n g r = record r { next_session_id = n; next_generation = g }

-- The counters play no part in the last loop.
reinstate_all-with_counters :
    (r : SessionRegistry) (cs : List RecoveredDetachedSession) (n m g t : ℕ)
    → (reinstate_all (with_counters n m r) cs g t).0 ≡ with_counters n m (reinstate_all r cs g t).0
unfolding reinstate_all
reinstate_all-with_counters r [] n m g t = refl
reinstate_all-with_counters r (c ∷ cs) n m g t =
    reinstate_all-with_counters (reinstate r c g t) cs n m (g + 1) t

with_counters-IsValid :
    (r : SessionRegistry) (n g : ℕ)
    → IsValid r
    → r.next_session_id ≤ n
    → r.next_generation ≤ g
    → IsValid (with_counters n g r)
with_counters-IsValid r n g v h k = record {
  routes = v.routes;
  owners = v.owners;
  fresh_session = λ k b e. omega (arith, v.fresh_session k b e);
  fresh_generation = λ a s e. omega (arith, v.fresh_generation a s e);
  proofs = v.proofs;
}

raise_grows : (m : List (ℕ × ActiveSession)) (f g : ℕ) → raise_generation m f ≡ some g → f ≤ g
unfolding raise_generation
raise_grows [] f g h = ground arith
raise_grows ((a, s) ∷ m) f g h = ground (arith, raise_grows m (max f (s.generation + 1)) g)

Apart-with_counters :
    (r : SessionRegistry) (n m g : ℕ) (cs : List RecoveredDetachedSession)
    → Apart r n cs
    → Apart (with_counters m g r) n cs
Apart-with_counters r n m g [] a = tt
Apart-with_counters r n m g (c ∷ cs) a = (a.0, a.1, a.2, a.3, Apart-with_counters r n m g cs a.4)

commit_batch-IsValid :
    (r : SessionRegistry) (cs : List RecoveredDetachedSession) (t : ℕ) (b : Batch) (first : ℕ)
    → IsValid r
    → Apart r b.next_session_id cs
    → r.next_session_id ≤ b.next_session_id
    → r.next_generation ≤ first
    → IsValid (commit_batch r cs t b first).0
commit_batch-IsValid r cs t b first v a h k =
    let n : ℕ = b.next_session_id in
    let g : ℕ = first + length cs in
    let start = with_counters-IsValid r n g v h (omega arith) in
    let done =
      reinstate_all-IsValid (with_counters n g r) cs first t start
        (Apart-with_counters r n n g cs a) (omega arith) in
    elim (Bool-cases (leb (sub64 maximum first) (length cs))) [
      | inl x ↦ rw x v
      | inr x ↦ rw x (rw (reinstate_all-with_counters r cs n g first t) at done)
    ]

pub install_recovered-IsValid :
    (r : SessionRegistry) (cs : List RecoveredDetachedSession) (t : ℕ)
    → IsValid r
    → IsValid (install_recovered_detached r cs t).0
unfolding install_recovered_detached
install_recovered-IsValid r [] t v = v
install_recovered-IsValid r (c ∷ cs) t v = elim (Bool-cases (is_exhausted r)) [
  | inl x ↦ rw x v
  | inr x ↦ elim (Option-cases (check_batch r (c ∷ cs) (start_batch r))) [
    | inl y ↦ rw (x, y, install_recovered_detached) v
    | inr (b, y) ↦ elim (Option-cases (raise_generation r.current_by_account b.first_generation)) [
      | inl z ↦ rw (x, y, z, install_recovered_detached, finish_batch) v
      | inr (first, z) ↦
          let (low, high) = check_grows r (c ∷ cs) (start_batch r) b y in
          rw (x, y, z, install_recovered_detached, finish_batch)
            (commit_batch-IsValid r (c ∷ cs) t b first v
              (check-Apart r (c ∷ cs) (start_batch r) b y) low
              (omega (arith, raise_grows r.current_by_account b.first_generation first z)))
    ]
  ]
]
