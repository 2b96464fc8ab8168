-- ===== src/Mock/Orders.antt =====
-- The mock in front of the ingestor: what crates/clob-api makes of its updates.
use lmax_clob.Common.{
  ℕ, ◌%◌, ◌≡◌, refl, none, List, [], ◌∷◌, All, length, ◌==◌, Bool-cases, inl, inr, if◌then◌else◌,
  suc, ap,
}
use lmax_clob.Crates.{Crates}
use lmax_clob.Engine.Types.{bid, ask, Order, next_u64}
use lmax_clob.Api.Ingest.{SubscribeUpdate, StreamItem, update, map_update_to_order, run_ingestor}
use lmax_clob.Mock.Config.{Config}
use lmax_clob.Mock.Server.{Update, Turn, stream, disconnect_after, is_over}

stream-untimed :
    (c : Config) (ts : List Turn) → All (λ (u : Update). u.created_at ≡ none) (stream c ts).0
unfolding stream
stream-untimed c [] = tt
stream-untimed c (t ∷ ts) = elim (Bool-cases (is_over (disconnect_after c) t.elapsed)) [
  | inl over ↦ rw (over, stream) tt
  | inr early ↦ elim (Bool-cases t.takes) [
    | inl takes ↦ rw (early, takes, stream) (refl, stream-untimed c ts)
    | inr gone ↦ rw (early, gone, stream) tt
  ]
]

module _ ⦃c : Crates⦄ where
  -- The stream as the client sees it, with the `Uuid`s that the orders get.
  abbrev pub as_items : (ℕ → c.Uuid) → ℕ → List Update → List StreamItem
  as_items ids n [] = []
  as_items ids n (u ∷ us) =
      update (ids n) (record { created_at = u.created_at }) ∷ as_items ids (next_u64 n) us

  -- One order for each number from `n` on, bids at the even ones and asks at the odd ones.
  abbrev pub Numbers : (ℕ → c.Uuid) → ℕ → List Order → Type 0
  Numbers ids n [] = Unit
  Numbers ids n (o ∷ os) =
      (o.sequence ≡ n)
      × (o.id ≡ ids n)
      × (o.side ≡ (if n % 2 == 0 then bid else ask))
      × Numbers ids (next_u64 n) os

  side_lem :
      (n : ℕ) (id : c.Uuid) (u : SubscribeUpdate)
      → (map_update_to_order n id u).side ≡ (if n % 2 == 0 then bid else ask)
  unfolding map_update_to_order
  side_lem n id u = elim (Bool-cases (n % 2 == 0)) [
    | inl even ↦ rw even refl
    | inr odd ↦ rw odd refl
  ]

  run_ingestor-Numbers :
      (ids : ℕ → c.Uuid) (n : ℕ) (us : List Update)
      → All (λ u. u.created_at ≡ none) us
      → Numbers ids n (run_ingestor n (as_items ids n us))
        × (length (run_ingestor n (as_items ids n us)) ≡ length us)
  unfolding run_ingestor map_update_to_order
  run_ingestor-Numbers ids n [] h = (tt, refl)
  run_ingestor-Numbers ids n (u ∷ us) h =
      let (rest, size) = run_ingestor-Numbers ids (next_u64 n) us h.1 in
      (
        (rw h.0 refl, refl, side_lem n (ids n) (record { created_at = u.created_at }), rest),
        ap suc size,
      )

  -- Of a stream of the mock the ingestor makes one order for each update, numbered by its
  -- counter since the updates bear no time, bids at the even numbers and asks at the odd ones.
  pub run_ingestor-stream :
      (ids : ℕ → c.Uuid) (n : ℕ) (k : Config) (ts : List Turn)
      → Numbers ids n (run_ingestor n (as_items ids n (stream k ts).0))
        × (length (run_ingestor n (as_items ids n (stream k ts).0)) ≡ length (stream k ts).0)
  run_ingestor-stream ids n k ts = run_ingestor-Numbers ids n (stream k ts).0 (stream-untimed k ts)
