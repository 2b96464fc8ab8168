-- ===== src/Mock/Rate.antt =====
-- How many updates the mock sends.
use native.Mathlib.Nat.{div-mul-le_self, lt-div-mul-add}
use lmax_clob.Common.{
  ℕ, zero, suc, ◌+◌, ◌*◌, ◌≤◌, ◌<◌, ◌≡◌, ◌≢◌, refl, true, false, inl, inr, some, List, [], ◌∷◌,
  length, leb, ◌==◌, arith, Bool-cases,
}
use lmax_clob.Mock.Config.{Config}
use lmax_clob.Mock.Server.{Turn, stream, interval_ns, disconnect_after}

-- Each round starts at least one interval after the one before, as the sleep makes it.
abbrev pub IsPaced : ℕ → ℕ → List Turn → Type 0
IsPaced tick since [] = Unit
IsPaced tick since (t ∷ ts) = (since ≤ t.elapsed) × IsPaced tick (t.elapsed + tick) ts

one_more :
    (tick n since at limit : ℕ)
    → since ≤ at
    → at + tick + n * tick < limit
    → since + suc n * tick < limit
one_more tick n since at limit h k = omega (arith, h, k)

sent_more :
    (tick limit since at sent n : ℕ)
    → since ≤ at
    → at < limit
    → ((m : ℕ) → sent ≡ suc m → at + tick + m * tick < limit)
    → suc sent ≡ suc n
    → since + n * tick < limit
sent_more tick limit since at sent zero h low more e = omega (arith, h, low)
sent_more tick limit since at sent (suc m) h low more e =
    one_more tick m since at limit h (more m (omega (arith, e)))

stream_fits :
    (c : Config) (limit since n : ℕ) (ts : List Turn)
    → disconnect_after c ≡ some limit
    → IsPaced (interval_ns c.stream_rate_per_second) since ts
    → length (stream c ts).0 ≡ suc n
    → since + n * interval_ns c.stream_rate_per_second < limit
unfolding stream
stream_fits c limit since n [] sim paced size = absurd (omega (arith, size))
stream_fits c limit since n (t ∷ ts) sim paced size = elim (Bool-cases (leb limit t.elapsed)) [
  | inl over ↦ absurd (omega (arith, (rw (sim, over, stream) at size)))
  | inr early ↦ elim (Bool-cases t.takes) [
    | inl takes ↦
        sent_more _ limit since t.elapsed _ n paced.0 (ground (arith, early))
          (λ m e.
            stream_fits c limit (t.elapsed + interval_ns c.stream_rate_per_second) m ts sim paced.1
              e)
          (rw (sim, early, takes, stream) at size)
    | inr gone ↦ absurd (omega (arith, (rw (sim, early, gone, stream) at size)))
  ]
]

-- The interval is the whole part of a second's share.
interval_ns_share :
    (rate : ℕ)
    → rate ≢ 0
    → (interval_ns rate * rate ≤ 1000000000) × (1000000000 < interval_ns rate * rate + rate)
unfolding interval_ns
interval_ns_share rate h =
    let positive : (rate == 0) ≡ false = ground (arith, h) in
    rw positive (div-mul-le_self 1000000000 rate, lt-div-mul-add (omega (arith, h)))

-- With simulated disconnects and a rate other than zero, and rounds that start at least an
-- interval apart, as many intervals as updates after the first have passed before the
-- disconnect is due; the interval times the rate is at most a second, and short of it by less
-- than one nanosecond for each update of a second.
pub stream_bounded :
    (c : Config) (n : ℕ) (ts : List Turn)
    → c.simulate_disconnects ≡ true
    → c.stream_rate_per_second ≢ 0
    → IsPaced (interval_ns c.stream_rate_per_second) 0 ts
    → length (stream c ts).0 ≡ suc n
    → let tick = interval_ns c.stream_rate_per_second in
      (n * tick < c.disconnect_interval_s * 1000000000)
      × (tick * c.stream_rate_per_second ≤ 1000000000)
      × (1000000000 < tick * c.stream_rate_per_second + c.stream_rate_per_second)
unfolding disconnect_after
stream_bounded c n ts sim rate paced size =
    let share = interval_ns_share c.stream_rate_per_second rate in
    (
      omega (
        arith,
        stream_fits c (c.disconnect_interval_s * 1000000000) 0 n ts (rw sim refl) paced size,
      ),
      share.0,
      share.1,
    )
