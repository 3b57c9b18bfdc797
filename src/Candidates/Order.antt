-- ===== src/Candidates/Order.antt =====
-- The order in which the candidates are tried.
use mathlib.Core.List.{Perm, perm_middle}
use mathlib.Core.List.Perm
use mathlib.Core.Path.{ap₂}
use native.Mathlib.Nat.{le_refl}
use prelay_server.Base.{
  ◌∙◌, ℕ, ◌≡◌, refl, String, List, [], ◌∷◌, ◌++◌, Bool, not, if◌then◌else◌, arith, Bool-cases, inl,
  inr,
}
use prelay_server.Failover.{FailoverRegistry}
use prelay_server.Failover.Backoff.{is_resting, resting_lem}
use prelay_server.Candidates.{
  ResolvedEndpointProvider, resting_now, partition_candidates, order_candidates,
}

pub select {ℓ} : {A : Type ℓ} → (A → Bool) → List A → List A
select p [] = []
select p (x ∷ xs) = let rest = select p xs in if p x then x ∷ rest else rest

module _ {W : Type 0} (now : W → ℕ × W) where
  partition-perm :
      (cs : List ResolvedEndpointProvider) (s : FailoverRegistry × W)
      → let parts = partition_candidates now cs s in Perm (parts.ready ++ parts.rested) cs
  unfolding partition_candidates
  partition-perm [] s = Perm.refl []
  partition-perm (c ∷ cs) s =
      let parts = partition_candidates now cs (resting_now now c.provider.id s).1 in
      let rest = partition-perm cs (resting_now now c.provider.id s).1 in
      elim (Bool-cases (resting_now now c.provider.id s).0) [
        | inl b ↦ rw b (Perm.trans (perm_middle parts.ready parts.rested) (Perm.cons c rest))
        | inr b ↦ rw b (Perm.cons c rest)
      ]

  -- Every candidate is kept: the order is a permutation of what was given.
  order_candidates-perm :
      (cs : List ResolvedEndpointProvider) (s : FailoverRegistry × W)
      → Perm (order_candidates now cs s).0 cs
  unfolding order_candidates
  order_candidates-perm cs s = partition-perm cs s

-- A clock that stands still while the candidates are looked at.
module _ {W : Type 0} (now : W → ℕ × W) (t : ℕ) (still : (w : W) → now w ≡ (t, w)) where
  resting_now_still :
      (id : String) (rests : FailoverRegistry) (w : W)
      → ((resting_now now id (rests, w)).0 ≡ is_resting id t rests)
        × ((other : String)
            → is_resting other t (resting_now now id (rests, w)).1.0 ≡ is_resting other t rests)
  unfolding resting_now is_resting
  resting_now_still id rests w = (
    ground (arith, still w, resting_lem id id t t rests (le_refl t)),
    λ other. ground (arith, still w, resting_lem id other t t rests (le_refl t)),
  )

  partition_still :
      (flag : String → Bool) (cs : List ResolvedEndpointProvider) (s : FailoverRegistry × W)
      → ((id : String) → is_resting id t s.0 ≡ flag id)
      → let parts = partition_candidates now cs s in
        (parts.ready ≡ select (λ c. not (flag c.provider.id)) cs)
        × (parts.rested ≡ select (λ c. flag c.provider.id) cs)
  unfolding partition_candidates select
  partition_still flag [] s h = (refl, refl)
  partition_still flag (c ∷ cs) (rests, w) h =
      let (seen, kept) = resting_now_still c.provider.id rests w in
      let rest =
        partition_still flag cs (resting_now now c.provider.id (rests, w)).1
          (λ id. kept id ∙ h id) in
      ground (arith, seen, h c.provider.id, rest)

  -- While the clock stands still, the candidates that do not rest come first and those that rest
  -- come last, each in the order given.
  pub order_candidates_still :
      (cs : List ResolvedEndpointProvider) (rests : FailoverRegistry) (w : W)
      → (order_candidates now cs (rests, w)).0
        ≡ select (λ c. not (is_resting c.provider.id t rests)) cs
          ++ select (λ c. is_resting c.provider.id t rests) cs
  unfolding order_candidates
  order_candidates_still cs rests w =
      let (ready, rested) =
        partition_still (λ id. is_resting id t rests) cs (rests, w) (λ id. refl) in
      ap₂ ◌++◌ ready rested
