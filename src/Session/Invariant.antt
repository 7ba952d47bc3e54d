-- ===== src/Session/Invariant.antt =====
-- The two maps of SessionRegistry.cpp agree, and identifiers are fresh.
use loot_of_legends_public.Base.{
  ℕ, ◌+◌, ◌<◌, ◌≡◌, ◌≢◌, refl, ap, ◌==◌, if◌then◌else◌, Option, none, some, arith, Bool-cases,
  Option-cases, inl, inr,
}
use loot_of_legends_public.Base.Maps.{find, erase, has_value, find-insert_or_assign, find-erase}
use loot_of_legends_public.Session.{
  ActiveSession, SessionRegistry, ClaimedGameIdentity, new_registry, install, drop_route, assign,
}

pub record IsValid (r : SessionRegistry) : Type 0 where
  pub routes :
      (a : ℕ) (s : ActiveSession)
      → find a r.current_by_account ≡ some s
      → find s.session_id r.account_by_session ≡ some a
  pub owners :
      (k a : ℕ)
      → find k r.account_by_session ≡ some a
      → (s : ActiveSession) × (find a r.current_by_account ≡ some s) × (s.session_id ≡ k)
  pub fresh_session : (k a : ℕ) → find k r.account_by_session ≡ some a → k < r.next_session_id
  pub fresh_generation :
      (a : ℕ) (s : ActiveSession)
      → find a r.current_by_account ≡ some s
      → s.generation < r.next_generation
  pub proofs :
      (a : ℕ) (s : ActiveSession)
      → find a r.current_by_account ≡ some s
      → has_value s.detached_until ≡ has_value s.resume_proof_generation

pub new_registry-IsValid : (g : ℕ) (r : SessionRegistry) → new_registry g ≡ some r → IsValid r
unfolding new_registry find
new_registry-IsValid g r h = record {
  routes = λ a s e. ground arith;
  owners = λ k a e. absurd (ground arith);
  fresh_session = λ k a e. ground arith;
  fresh_generation = λ a s e. ground arith;
  proofs = λ a s e. ground arith;
}

module _ (r : SessionRegistry) (identity : ClaimedGameIdentity) (v : IsValid r) where
  abbrev pub account : ℕ
  account = identity.account_id

  abbrev pub current : Option ActiveSession
  current = find account r.current_by_account

  -- Dropping the route of the replaced session takes away the routes to the account, and no other.
  pub dropped_route :
      (k b : ℕ)
      → find k (drop_route current r.account_by_session) ≡ some b
      → (find k r.account_by_session ≡ some b) × (b ≢ account)
  dropped_route k b h = elim (Option-cases current) [
    | inl e ↦
        let f : find k r.account_by_session ≡ some b = rw e at h in
        (
          f,
          λ g.
              let (s, at, _) = v.owners k b f in
              ground (arith, ap (λ t. find t r.current_by_account) g),
        )
    | inr (s, e) ↦
        let f : find k (erase s.session_id r.account_by_session) ≡ some b = rw e at h in
        let away = find-erase s.session_id k r.account_by_session in
        let g : find k r.account_by_session ≡ some b = ground arith in
        (
          g,
          λ same.
              let (t, at, named) = v.owners k b g in
              ground (arith, ap (λ u. find u r.current_by_account) same),
        )
  ]

  kept_route :
      (k b : ℕ)
      → find k r.account_by_session ≡ some b
      → b ≢ account
      → find k (drop_route current r.account_by_session) ≡ some b
  kept_route k b h n = elim (Option-cases current) [
    | inl e ↦ rw e h
    | inr (s, e) ↦
        let away = find-erase s.session_id k r.account_by_session in
        let old = v.routes account s e in
        rw e (ground (arith, ap (λ u. find u r.account_by_session)))
  ]

  -- The next session number has no route yet.
  pub fresh_route : find r.next_session_id (drop_route current r.account_by_session) ≡ none
  fresh_route =
      elim (Option-cases (find r.next_session_id (drop_route current r.account_by_session))) [
        | inl e ↦ e
        | inr (b, e) ↦ absurd (
            omega
              (arith, v.fresh_session r.next_session_id b (dropped_route r.next_session_id b e).0))
      ]

  pub installed_route :
      (k : ℕ)
      → find k (install r identity current).0.account_by_session ≡ (
          if r.next_session_id == k
          then some account
          else find k (drop_route current r.account_by_session))
  unfolding install
  installed_route k = ground (
    arith,
    fresh_route,
    find-insert_or_assign r.next_session_id k account (drop_route current r.account_by_session),
  )

  abbrev installed : ActiveSession
  installed = record {
    session_id = r.next_session_id;
    generation = r.next_generation;
    nickname = identity.nickname;
    detached_until = none;
    resume_proof_generation = none;
  }

  installed_session :
      (a : ℕ)
      → find a (install r identity current).0.current_by_account
        ≡ (if account == a then some installed else find a r.current_by_account)
  unfolding install
  installed_session a = find-insert_or_assign account a _ r.current_by_account

  install_counters :
      ((install r identity current).0.next_session_id ≡ r.next_session_id + 1)
      × ((install r identity current).0.next_generation ≡ r.next_generation + 1)
  unfolding install
  install_counters = (refl, refl)

  pub install-IsValid : IsValid (install r identity current).0
  install-IsValid = record {
    routes = λ a s e. elim (Bool-cases (account == a)) [
      | inl x ↦ ground (arith, installed_session a, installed_route s.session_id)
      | inr x ↦
          let f : find a r.current_by_account ≡ some s = ground (arith, installed_session a) in
          let g = v.routes a s f in
          let old : a ≢ account = ground arith in
          ground (
            arith,
            installed_route s.session_id,
            kept_route s.session_id a g old,
            v.fresh_session s.session_id a g,
          )
    ];
    owners = λ k b e. elim (Bool-cases (r.next_session_id == k)) [
      | inl x ↦
          let owned : some account ≡ some b = ground (arith, installed_route k) in
          (installed, ground (arith, installed_session b), ground arith)
      | inr x ↦
          let f : find k (drop_route current r.account_by_session) ≡ some b =
            ground (arith, installed_route k) in
          let (g, other) = dropped_route k b f in
          let (s, at, named) = v.owners k b g in (s, ground (arith, installed_session b), named)
    ];
    fresh_session = λ k b e. elim (Bool-cases (r.next_session_id == k)) [
      | inl x ↦ ground (arith, install_counters)
      | inr x ↦
          let f : find k (drop_route current r.account_by_session) ≡ some b =
            ground (arith, installed_route k) in
          ground (arith, install_counters, v.fresh_session k b (dropped_route k b f).0)
    ];
    fresh_generation =
        λ a s e. ground (arith, install_counters, installed_session a, v.fresh_generation a s);
    proofs = λ a s e. ground (arith, installed_session a, v.proofs a s);
  }

-- Writing a session back under its account, with the same identifiers.
module _ (r : SessionRegistry) (a : ℕ) (s t : ActiveSession) (v : IsValid r) where
  assigned :
      (b : ℕ)
      → find b (assign r a t).current_by_account
        ≡ (if a == b then some t else find b r.current_by_account)
  assigned b = find-insert_or_assign a b t r.current_by_account

  pub assign-IsValid :
      find a r.current_by_account ≡ some s
      → t.session_id ≡ s.session_id
      → t.generation ≡ s.generation
      → has_value t.detached_until ≡ has_value t.resume_proof_generation
      → IsValid (assign r a t)
  assign-IsValid at same_id same_generation proved = record {
    routes = λ b u e. elim (Bool-cases (a == b)) [
      | inl x ↦
          let f = v.routes a s at in
          let g : some t ≡ some u = ground (arith, assigned b) in
          let k : u.session_id ≡ s.session_id = ground arith in rw k (ground arith)
      | inr x ↦ v.routes b u (ground (arith, assigned b))
    ];
    owners = λ k b e.
        let (u, found, named) = v.owners k b e in
        elim (Bool-cases (a == b)) [
          | inl x ↦
              let same : find b r.current_by_account ≡ some s = ground arith in
              (t, ground (arith, assigned b), ground arith)
          | inr x ↦ (u, ground (arith, assigned b), named)
        ];
    fresh_session = v.fresh_session;
    fresh_generation =
        λ b u e. ground (arith, assigned b, v.fresh_generation a s at, v.fresh_generation b u);
    proofs = λ b u e. ground (arith, assigned b, v.proofs b u);
  }

-- Erasing a session under both its keys.
module _ (r : SessionRegistry) (a : ℕ) (s : ActiveSession) (v : IsValid r) where
  abbrev pub erased : SessionRegistry
  erased = record r {
    current_by_account = erase a r.current_by_account;
    account_by_session = erase s.session_id r.account_by_session;
  }

  pub erase-IsValid : find a r.current_by_account ≡ some s → IsValid erased
  erase-IsValid at = record {
    routes = λ b u e.
        let gone = find-erase a b r.current_by_account in
        let old : find b r.current_by_account ≡ some u = ground arith in
        let other : a ≢ b = λ w. ground (arith, w) in
        let f = v.routes b u old in
        let g = v.routes a s at in
        ground (arith, find-erase s.session_id u.session_id r.account_by_session);
    owners = λ k b e.
        let gone = find-erase s.session_id k r.account_by_session in
        let old : find k r.account_by_session ≡ some b = ground arith in
        let (u, found, named) = v.owners k b old in
        (u, ground (arith, find-erase a b r.current_by_account), named);
    fresh_session = λ k b e.
        ground (arith, find-erase s.session_id k r.account_by_session, v.fresh_session k b);
    fresh_generation =
        λ b u e. ground (arith, find-erase a b r.current_by_account, v.fresh_generation b u);
    proofs = λ b u e. ground (arith, find-erase a b r.current_by_account, v.proofs b u);
  }
