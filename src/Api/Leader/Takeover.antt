-- ===== src/Api/Leader/Takeover.antt =====
-- When the holder of the lease is gone: attempts of the others, one after the other.
use lmax_clob.Common.{
  ap, some-injective, ℕ, ◌+◌, ◌-◌, ◌/◌, ◌≤◌, ◌≡◌, ◌≢◌, ◌⊎◌, sym, ◌∙◌, subst, Bool, true, inl, inr,
  String, List, [], ◌∷◌, All, arith, ltb, some,
}
use lmax_clob.Engine.Types.{ok}
use lmax_clob.Api.Leader.{
  Lease, LeaseServer, LeaseSpec, try_acquire_or_renew, lease_duration_secs, is_expired,
}
use lmax_clob.Api.Leader.Safety.{HeldBy, Settled, try_acquire_or_renew-Settled}

module _ ⦃k : LeaseServer⦄ where
  -- Attempts, in order, and the lease that they leave: one is carried out, whether its answer arrives
  -- or is lost, or it fails before it has changed the lease.
  pub data Attempts : List (String × ℕ) → k.State → k.State → Type 0 where
    no_more : (s : k.State) → Attempts [] s s
    carried :
        (x : String × ℕ) (xs : List (String × ℕ)) (s s1 s' : k.State) (won : Bool)
        → try_acquire_or_renew x.0 x.1 s ≡ ok (s1, won)
        → Attempts xs s1 s'
        → Attempts (x ∷ xs) s s'
    failed :
        (x : String × ℕ) (xs : List (String × ℕ)) (s s' : k.State)
        → Attempts xs s s'
        → Attempts (x ∷ xs) s s'

  -- The lease is still the one of `a`, or one that another holder has taken.
  abbrev pub HeldSince : String → ℕ → k.State → Type 0
  HeldSince a since s = HeldBy a since s ⊎ ((j : String) × (t : ℕ) × HeldBy j t s × (j ≢ a))

  Settled-HeldSince :
      (a b : String) (since now : ℕ) (s s' : k.State) (won : Bool)
      → b ≢ a
      → HeldSince a since s
      → Settled b now s s' won
      → HeldSince a since s'
  Settled-HeldSince a b since now s s' won other h (inl (_, held)) = inr (b, now, held, other)
  Settled-HeldSince a b since now s s' won other h (inr (_, same, _)) = rw same h

  Attempts-HeldSince :
      (a : String) (since : ℕ) (xs : List (String × ℕ)) (s s' : k.State)
      → All (λ x. x.0 ≢ a) xs
      → HeldSince a since s
      → Attempts xs s s'
      → HeldSince a since s'
  Attempts-HeldSince a since _ _ _ others h (no_more s) = h
  Attempts-HeldSince a since _ _ _ others h (carried x xs s s1 s' won run more) =
      Attempts-HeldSince a since xs s1 s' others.1
        (Settled-HeldSince a x.0 since x.1 s s1 won others.0 h
          (try_acquire_or_renew-Settled x.0 x.1 s s1 won run))
        more
  Attempts-HeldSince a since _ _ _ others h (failed x xs s s' more) =
      Attempts-HeldSince a since xs s s' others.1 h more

  is_past_late : (now since : ℕ) → since + 16000000 ≤ now → ltb 15 ((now - since) / 1000000) ≡ true
  is_past_late now since h = ground arith

  is_expired_late :
      (now since : ℕ) (spec : LeaseSpec)
      → since + 16000000 ≤ now
      → spec.renew_time ≡ some since
      → spec.lease_duration_seconds ≡ some lease_duration_secs
      → is_expired now (some spec) ≡ true
  is_expired_late now since spec late renewed lasts =
      rw (renewed, lasts) (is_past_late now since late)

  -- What a holder has taken runs out.
  HeldBy-late :
      (a b : String) (since now : ℕ) (s s' : k.State) (won : Bool)
      → since + 16000000 ≤ now
      → HeldBy a since s
      → Settled b now s s' won
      → HeldBy b now s'
  HeldBy-late a b since now s s' won late held (inl x) = x.1
  HeldBy-late a b since now s s' won late held (inr (_, _, (l, stored, other, fresh))) =
      let (spec, here, holder, renewed, lasts) = held in
      let same = some-injective l (record { spec = some spec }) (sym stored ∙ here) in
      absurd (
        cc (
          fresh,
          ap (λ (x : Lease). is_expired now x.spec) same,
          is_expired_late now since spec late renewed lasts,
        ))

  HeldSince-late :
      (a b : String) (since now : ℕ) (s s' : k.State) (won : Bool)
      → b ≢ a
      → since + 16000000 ≤ now
      → HeldSince a since s
      → Settled b now s s' won
      → (j : String) × (t : ℕ) × HeldBy j t s' × (j ≢ a)
  HeldSince-late a b since now s s' won other late (inl held) done =
      (b, now, HeldBy-late a b since now s s' won late held done, other)
  HeldSince-late a b since now s s' won other late (inr h) (inl x) = (b, now, x.1, other)
  HeldSince-late a b since now s s' won other late (inr (j, t, held, ne)) (inr x) =
      (j, t, subst (HeldBy j t) (sym x.1) held, ne)

  HeldBy-won :
      (b : String) (now : ℕ) (s s' : k.State) (won : Bool)
      → Settled b now s s' won
      → won ≡ true
      → HeldBy b now s'
  HeldBy-won b now s s' won (inl x) told = x.1
  HeldBy-won b now s s' won (inr x) told = absurd (cc (x.0, told))

  -- Once the holder of the lease makes no more attempts, it is replaced: whatever attempts the
  -- others have made since, one after the other, each carried out, whether its answer arrived
  -- or was lost, or failed before it changed the lease, the next one that is answered, sixteen
  -- seconds after the last renewal or later, leaves the lease with another holder, and with the
  -- one that tries if it is told so.
  pub Attempts-takeover :
      (a b : String) (since now : ℕ) (xs : List (String × ℕ)) (s s1 s' : k.State) (won : Bool)
      → HeldBy a since s
      → All (λ x. x.0 ≢ a) xs
      → Attempts xs s s1
      → b ≢ a
      → since + 16000000 ≤ now
      → try_acquire_or_renew b now s1 ≡ ok (s', won)
      → ((j : String) × (t : ℕ) × HeldBy j t s' × (j ≢ a)) × (won ≡ true → HeldBy b now s')
  Attempts-takeover a b since now xs s s1 s' won held others tries other late run =
      let done = try_acquire_or_renew-Settled b now s1 s' won run in
      (
        HeldSince-late a b since now s1 s' won other late
            (Attempts-HeldSince a since xs s s1 others (inl held) tries) done,
        HeldBy-won b now s1 s' won done,
      )
