-- ===== src/Api/Leader/Safety.antt =====
-- What an attempt at the lease does to it, alone and beside another one.
use lmax_clob.Common.{
  ◌-◌, ◌<◌, ◌/◌, ltb, ℕ, ◌≡◌, ◌≢◌, ◌⊎◌, refl, sym, ap, ◌∙◌, Bool, true, false, ◌||◌, inl, inr,
  String, Option, none, some, arith, same_text, same_text_iff, Bool-cases,
}
use lmax_clob.Engine.Types.{Result-cases, ok-injective, Result, ok, err}
use lmax_clob.Api.Leader.{
  LeaseSpec, Lease, LeaseServer, Plan, decide, carry_out, written, try_acquire_or_renew, is_expired,
  we_hold, lease_duration_secs,
}

module _ ⦃k : LeaseServer⦄ where
  -- The server's lease names this holder, renewed at this time, for the fixed duration.
  abbrev pub HeldBy : String → ℕ → k.State → Type 0
  HeldBy identity now s =
      (spec : LeaseSpec) × (k.stored s ≡ some (record { spec = some spec }))
      × (spec.holder_identity ≡ some identity)
      × (spec.renew_time ≡ some now)
      × (spec.lease_duration_seconds ≡ some lease_duration_secs)

  -- Another one holds the lease, and it has not run out.
  abbrev pub HeldByOther : String → ℕ → k.State → Type 0
  HeldByOther identity now s =
      (l : Lease) × (k.stored s ≡ some l)
      × (we_hold identity l.spec ≡ false)
      × (is_expired now l.spec ≡ false)

  written-ok :
      (r : Result k.KubeError k.State) (s : k.State) (b : Bool)
      → written r ≡ ok (s, b)
      → (r ≡ ok s) × (b ≡ true)
  written-ok (ok s') s b e =
      let same = ok-injective (s', true) (s, b) e in
      (ap (λ (x : k.State × Bool). ok x.0) same, sym (ap (λ (x : k.State × Bool). x.1) same))
  written-ok (err x) s b e = absurd cc

  create-HeldBy :
      (identity : String) (now : ℕ) (s s' : k.State) (b : Bool)
      → carry_out (decide identity now none) s ≡ ok (s', b)
      → HeldBy identity now s' × (b ≡ true)
  unfolding carry_out decide
  create-HeldBy identity now s s' b run =
      let done = written-ok (k.create s _) s' b run in
      ((_, (k.create_lem s s' _ done.0).1, refl, refl, refl), done.1)

  -- What the reply of an attempt says of the lease that it leaves.
  abbrev pub Settled : String → ℕ → k.State → k.State → Bool → Type 0
  Settled identity now s s' won =
      ((won ≡ true) × HeldBy identity now s')
      ⊎ ((won ≡ false) × (s' ≡ s) × HeldByOther identity now s)

  carry_out-Settled :
      (identity : String) (now : ℕ) (l : Option Lease) (s s' : k.State) (b : Bool)
      → l ≡ k.stored s
      → carry_out (decide identity now l) s ≡ ok (s', b)
      → Settled identity now s s' b
  unfolding carry_out decide
  carry_out-Settled identity now none s s' b read run =
      let done = create-HeldBy identity now s s' b run in inl (done.1, done.0)
  carry_out-Settled identity now (some l) s s' b read run =
      elim (Bool-cases (we_hold identity l.spec || is_expired now l.spec)) [
        | inl go ↦
            let done = written-ok (k.patch s _) s' b (rw (go) at run) in
            let new = k.patch_lem s s' _ done.0 in inl (done.1, (_, new.2, refl, refl, refl))
        | inr stop ↦ inr (ground arith, ground arith, (l, sym read, ground arith, ground arith))
      ]

  -- An attempt that replies true leaves the lease in this holder's name, renewed at this time
  -- for the fixed duration; one that replies false changes nothing and met the lease of another
  -- holder that had not run out.
  pub try_acquire_or_renew-Settled :
      (identity : String) (now : ℕ) (s s' : k.State) (won : Bool)
      → try_acquire_or_renew identity now s ≡ ok (s', won)
      → Settled identity now s s' won
  unfolding try_acquire_or_renew
  try_acquire_or_renew-Settled identity now s s' won run = elim (Result-cases (k.get_opt s)) [
    | inl (l, e) ↦
        carry_out-Settled identity now l s s' won (k.get_lem s l e)
          (rw (e, try_acquire_or_renew) at run)
    | inr (x, e) ↦ absurd (cc (rw (e, try_acquire_or_renew) at run))
  ]

  is_past_fresh :
      (now since : ℕ) → now - since < 16000000 → ltb 15 ((now - since) / 1000000) ≡ false
  is_past_fresh now since h = ground arith

  decide-stand_by :
      (a b : String) (now since : ℕ) (spec : LeaseSpec)
      → spec.holder_identity ≡ some a
      → spec.renew_time ≡ some since
      → spec.lease_duration_seconds ≡ some lease_duration_secs
      → a ≢ b
      → now - since < 16000000
      → decide b now (some (record { spec = some spec })) ≡ Plan.stand_by
  unfolding decide
  decide-stand_by a b now since spec held renewed lasts other fresh =
      elim (Bool-cases (same_text a b)) [
        | inl same ↦ absurd (other ((same_text_iff a b).0 same))
        | inr differs ↦ rw (held, renewed, lasts) (rw (differs, is_past_fresh now since fresh))
      ]

  -- Until sixteen seconds after one holder took or renewed the lease (the fifteen whole seconds
  -- of LEASE_DURATION_SECS have to be exceeded), an attempt of another holder that gets an
  -- answer is told false, and the lease stays as it is.
  pub try_acquire_or_renew_excluded :
      (a b : String) (now since : ℕ) (s s' : k.State) (won : Bool)
      → HeldBy a since s
      → a ≢ b
      → now - since < 16000000
      → try_acquire_or_renew b now s ≡ ok (s', won)
      → (won ≡ false) × (s' ≡ s)
  unfolding try_acquire_or_renew carry_out
  try_acquire_or_renew_excluded a b now since s s' won held other fresh run =
      let (spec, here, holder, renewed, lasts) = held in
      elim (Result-cases (k.get_opt s)) [
        | inl (l, e) ↦
            let waits = decide-stand_by a b now since spec holder renewed lasts other fresh in
            let same =
              ok-injective _ (s', won)
                (sym (rw (e, try_acquire_or_renew) (rw (k.get_lem s l e, here, waits, carry_out)))
                  ∙ run) in
            (
              ap (λ (x : k.State × Bool). x.1) (sym same),
              ap (λ (x : k.State × Bool). x.0) (sym same),
            )
        | inr (x, e) ↦ absurd (cc (rw (e, try_acquire_or_renew) at run))
      ]
