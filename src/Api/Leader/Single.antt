-- ===== src/Api/Leader/Single.antt =====
-- Two leaders at once, and how far apart their attempts are.
use lmax_clob.Common.{
  ℕ, ◌+◌, ◌-◌, ◌≤◌, ◌<◌, ◌≡◌, ◌≢◌, ◌⊎◌, refl, sym, ◌∙◌, subst, Bool, true, false, inl, inr, String,
  same_text, same_text_iff, arith, ltb, Bool-cases,
}
use lmax_clob.Engine.Types.{Result, ok, err}
use lmax_clob.Api.Leader.{LeaseServer, try_acquire_or_renew}
use lmax_clob.Api.Leader.Safety.{
  HeldBy, try_acquire_or_renew_excluded, try_acquire_or_renew-Settled,
}
use lmax_clob.Api.Leader.Elector.{Elector, run_step}
use lmax_clob.Api.Leader.Cluster.{
  Cluster, tried, Moves, waited, answered, unheard, failed, Reached, started, moved,
}

-- Sixteen seconds lie between two times.
abbrev pub FarApart : ℕ → ℕ → Type 0
FarApart s t = (s + 16000000 ≤ t) ⊎ (t + 16000000 ≤ s)

module _ ⦃k : LeaseServer⦄ where
  -- The lease is still the one that `i` took at `since`, or another one taken well after that.
  abbrev pub Backed : String → ℕ → ℕ → k.State → Type 0
  Backed i since now s =
      (j : String) × (t : ℕ) × HeldBy j t s
      × (t ≤ now)
      × (((j ≡ i) × (t ≡ since)) ⊎ (since + 16000000 ≤ t))

  abbrev pub Leads : Cluster → String → Type 0
  Leads w i = (w.elector i).is_leader ≡ true

  pub record IsSafe (w : Cluster) : Type 0 where
    pub backed : (i : String) → Leads w i → Backed i (w.attempted i) w.now w.server
    pub apart :
        (i j : String) → i ≢ j → Leads w i → Leads w j → FarApart (w.attempted i) (w.attempted j)

  Backed-later :
      (i : String) (since now d : ℕ) (s : k.State)
      → Backed i since now s
      → Backed i since (now + d) s
  Backed-later i since now d s (j, t, held, past, how) = (j, t, held, omega (arith, past), how)

  -- Who takes the lease from another holder comes late enough.
  Backed-taken :
      (i b : String) (since now : ℕ) (s s' : k.State)
      → b ≢ i
      → Backed i since now s
      → try_acquire_or_renew b now s ≡ ok (s', true)
      → since + 16000000 ≤ now
  Backed-taken i b since now s s' other (j, t, held, past, inr later) run =
      omega (arith, past, later)
  Backed-taken i b since now s s' other (j, t, held, past, inl (same, at)) run =
      elim (Bool-cases (ltb (now - t) 16000000)) [
        | inl soon ↦ absurd (
            cc
              (try_acquire_or_renew_excluded j b now t s s' true held (λ e. other (sym e ∙ same))
                (ground (arith, soon)) run).0)
        | inr late ↦ ground (arith, late, at)
      ]

  -- After the attempt of another one, `i` is still backed.
  Backed-attempt :
      (i b : String) (since now : ℕ) (s s' : k.State) (won : Bool)
      → b ≢ i
      → Backed i since now s
      → try_acquire_or_renew b now s ≡ ok (s', won)
      → Backed i since now s'
  Backed-attempt i b since now s s' true other h run =
      elim (try_acquire_or_renew-Settled b now s s' true run) [
        | inl (_, held) ↦
            (b, now, held, omega arith, inr (Backed-taken i b since now s s' other h run))
        | inr x ↦ absurd (cc x.0)
      ]
  Backed-attempt i b since now s s' false other h run =
      elim (try_acquire_or_renew-Settled b now s s' false run) [
        | inl x ↦ absurd (cc x.0)
        | inr (_, same, _) ↦ subst (Backed i since now) (sym same) h
      ]

  -- One round of `b`: what is asked of the lease, and of `b` where it leads afterwards.
  tried-IsSafe :
      (w : Cluster) (b : String) (r : Result k.KubeError Bool) (s : k.State)
      → IsSafe w
      → ((i : String)
          → b ≢ i
          → Backed i (w.attempted i) w.now w.server
          → Backed i (w.attempted i) w.now s)
      → ((run_step (w.elector b) r).is_leader ≡ true
          → Backed b w.now w.now s
            × ((i : String)
                → b ≢ i
                → Backed i (w.attempted i) w.now w.server
                → w.attempted i + 16000000 ≤ w.now))
      → IsSafe (tried b r s w)
  tried-IsSafe w b r s h kept new = record {
    backed = λ i. elim (Bool-cases (same_text b i)) [
      | inl self ↦
          rw self (λ leads.
            subst (λ x. Backed x w.now w.now s) ((same_text_iff b i).0 self) (new leads).0)
      | inr other ↦ rw other (λ leads. kept i (differs i other) (h.backed i leads))
    ];
    apart = λ i j. elim (Bool-cases (same_text b i)) [
      | inl first ↦ elim (Bool-cases (same_text b j)) [
        | inl second ↦
            λ ne. absurd (ne (sym ((same_text_iff b i).0 first) ∙ (same_text_iff b j).0 second))
        | inr other ↦
            rw (first, other)
              (λ ne leads also. inr ((new leads).1 j (differs j other) (h.backed j also)))
      ]
      | inr other ↦ elim (Bool-cases (same_text b j)) [
        | inl second ↦
            rw (other, second)
              (λ ne leads also. inl ((new also).1 i (differs i other) (h.backed i leads)))
        | inr neither ↦ rw (other, neither) (h.apart i j)
      ]
    ];
  }
    where
      differs : (i : String) → same_text b i ≡ false → b ≢ i
      differs i e same = cc (e, (same_text_iff b i).1 same)

  run_step-false :
      (e : Elector) → (run_step {KubeError = k.KubeError} e (ok false)).is_leader ≡ false
  unfolding run_step
  run_step-false e = ground arith

  run_step-err : (e : Elector) (x : k.KubeError) → (run_step e (err x)).is_leader ≡ false
  unfolding run_step
  run_step-err e x = refl

  answered-IsSafe :
      (w : Cluster) (b : String) (s : k.State) (won : Bool)
      → IsSafe w
      → try_acquire_or_renew b w.now w.server ≡ ok (s, won)
      → IsSafe (tried b (ok won) s w)
  answered-IsSafe w b s true h run =
      tried-IsSafe w b (ok true) s h
        (λ i ne held. Backed-attempt i b _ w.now w.server s true ne held run)
        (λ leads. (
          elim (try_acquire_or_renew-Settled b w.now w.server s true run) [
            | inl (_, held) ↦ (b, w.now, held, omega arith, inl (refl, refl))
            | inr x ↦ absurd (cc x.0)
          ],
          λ i ne held. Backed-taken i b _ w.now w.server s ne held run,
        ))
  answered-IsSafe w b s false h run =
      tried-IsSafe w b (ok false) s h
        (λ i ne held. Backed-attempt i b _ w.now w.server s false ne held run)
        (λ leads. absurd (cc (run_step-false (w.elector b), leads)))

  Moves-IsSafe : (w w' : Cluster) → IsSafe w → Moves w w' → IsSafe w'
  Moves-IsSafe w _ h (waited _ d) = record {
    backed = λ i leads. Backed-later i _ w.now d w.server (h.backed i leads);
    apart = h.apart;
  }
  Moves-IsSafe w _ h (answered _ b s won run) = answered-IsSafe w b s won h run
  Moves-IsSafe w _ h (unheard _ b s won x run) =
      tried-IsSafe w b (err x) s h
        (λ i ne held. Backed-attempt i b _ w.now w.server s won ne held run)
        (λ leads. absurd (cc (run_step-err (w.elector b) x, leads)))
  Moves-IsSafe w _ h (failed _ b x) =
      tried-IsSafe w b (err x) w.server h (λ i ne held. held)
        (λ leads. absurd (cc (run_step-err (w.elector b) x, leads)))

  Reached-IsSafe : (w : Cluster) → Reached w → IsSafe w
  Reached-IsSafe _ (started s now h) = record {
    backed = λ i leads. absurd (cc leads);
    apart = λ i j ne leads. absurd (cc leads);
  }
  Reached-IsSafe w' (moved w _ r m) = Moves-IsSafe w w' (Reached-IsSafe w r) m

  Backed-past : (i : String) (since now : ℕ) (s : k.State) → Backed i since now s → since ≤ now
  Backed-past i since now s (j, t, held, past, inl (same, at)) = omega (arith, past, at)
  Backed-past i since now s (j, t, held, past, inr later) = omega (arith, past, later)

  -- Of any number of electors whose attempts come one after the other, and whose calls may fail
  -- or lose their answers, at most one both says that it leads and made its last attempt less
  -- than sixteen seconds ago.
  pub Reached-single :
      (w : Cluster) (i j : String)
      → Reached w
      → Leads w i
      → Leads w j
      → w.now < w.attempted i + 16000000
      → w.now < w.attempted j + 16000000
      → i ≡ j
  Reached-single w i j r li lj fresh_i fresh_j = elim (Bool-cases (same_text i j)) [
    | inl same ↦ (same_text_iff i j).0 same
    | inr other ↦
        let h = Reached-IsSafe w r in
        let past_i = Backed-past i _ w.now w.server (h.backed i li) in
        let past_j = Backed-past j _ w.now w.server (h.backed j lj) in
        absurd (
          ground (
            arith,
            past_i,
            past_j,
            fresh_i,
            fresh_j,
            h.apart i j (λ same. cc (other, (same_text_iff i j).1 same)) li lj,
          ))
  ]
