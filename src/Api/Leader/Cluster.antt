-- ===== src/Api/Leader/Cluster.antt =====
-- leader.rs: any number of electors on one lease, each attempt between two others, under one clock.
use lmax_clob.Common.{ℕ, ◌+◌, ◌≡◌, Bool, String, same_text, if◌then◌else◌}
use lmax_clob.Engine.Types.{Result, ok, err}
use lmax_clob.Api.Health.{HealthState}
use lmax_clob.Api.Leader.{LeaseServer, try_acquire_or_renew}
use lmax_clob.Api.Leader.Elector.{Elector, new_elector, run_step}

abbrev pub assign {ℓ} : {A : Type ℓ} → String → A → (String → A) → String → A
assign i x f j = if same_text i j then x else f j

module _ ⦃k : LeaseServer⦄ where
  -- The electors by their identities, with the time of the last attempt of each.
  pub record Cluster : Type 0 where
    pub server : k.State
    pub now : ℕ
    pub elector : String → Elector
    pub attempted : String → ℕ

  abbrev pub new_cluster : k.State → ℕ → HealthState → Cluster
  new_cluster s now h = record {
    server = s;
    now = now;
    elector = λ i. new_elector h;
    attempted = λ i. 0;
  }

  -- The round of one elector: it sees the result of its attempt, and the server has moved.
  abbrev pub tried : String → Result k.KubeError Bool → k.State → Cluster → Cluster
  tried i r s w = record {
    server = s;
    now = w.now;
    elector = assign i (run_step (w.elector i) r) w.elector;
    attempted = assign i w.now w.attempted;
  }

  -- Time passes, or an elector makes an attempt: it is answered, or it is carried out and the answer
  -- is lost, or it fails before it changes the lease. An elector that never moves has crashed.
  pub data Moves : Cluster → Cluster → Type 0 where
    waited : (w : Cluster) (d : ℕ) → Moves w (record w { now = w.now + d })
    answered :
        (w : Cluster) (i : String) (s : k.State) (won : Bool)
        → try_acquire_or_renew i w.now w.server ≡ ok (s, won)
        → Moves w (tried i (ok won) s w)
    unheard :
        (w : Cluster) (i : String) (s : k.State) (won : Bool) (x : k.KubeError)
        → try_acquire_or_renew i w.now w.server ≡ ok (s, won)
        → Moves w (tried i (err x) s w)
    failed : (w : Cluster) (i : String) (x : k.KubeError) → Moves w (tried i (err x) w.server w)

  pub data Reached : Cluster → Type 0 where
    started : (s : k.State) (now : ℕ) (h : HealthState) → Reached (new_cluster s now h)
    moved : (w w' : Cluster) → Reached w → Moves w w' → Reached w'
