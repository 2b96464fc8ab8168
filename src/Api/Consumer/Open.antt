-- ===== src/Api/Consumer/Open.antt =====
-- The consumer in front of an engine that takes every order.
use lmax_clob.Common.{◌≡◌, sym, ap, ◌∙◌, Bool, true, inl, inr, Option, List, [], ◌++◌, append-nil}
use lmax_clob.Crates.{Crates}
use lmax_clob.Engine.Types.{Order}
use lmax_clob.Api.Consumer.{Delivery, Consumer, orders, offsets, run}
use lmax_clob.Api.Consumer.Handled.{run-Handled}

abbrev pub all_open {ℓ} : {A : Type ℓ} → List A → Bool
all_open sent = true

module _ ⦃c : Crates⦄ {Bytes : Type 0} (decode : Bytes → Option Order) where
  -- All messages are handled.
  pub run-open :
      (s : Consumer) (ds : List (Delivery Bytes))
      → ((run decode all_open s ds).sent ≡ s.sent ++ orders decode all_open ds)
        × ((run decode all_open s ds).committed ≡ s.committed ++ offsets decode all_open ds)
  run-open s ds =
      let h = run-Handled decode all_open s ds in
      let left : h.left ≡ [] = elim h.rest [ inl all ↦ all | inr shut ↦ absurd cc ] in
      let all : h.done ≡ ds = sym (append-nil h.done) ∙ ap (◌++◌ h.done) (sym left) ∙ sym h.split in
      (
        h.sent ∙ ap (λ x. s.sent ++ orders decode all_open x) all,
        h.committed ∙ ap (λ x. s.committed ++ offsets decode all_open x) all,
      )
