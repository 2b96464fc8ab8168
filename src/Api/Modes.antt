-- ===== src/Api/Modes.antt =====
-- main.rs: what a process loads at its start, the mode that it then runs in, the routes that each
-- mode serves, and the wait of a follower for its promotion. Connecting, spawning and logging are
-- left out.
use lmax_clob.Common.{
  subst, ◌∙◌, sym, ap, some-injective, Option-cases, ◌+◌, All, ℕ, ◌≡◌, ◌⊎◌, refl, Bool, true, false,
  String, Option, none, some, List, [], ◌∷◌, if◌then◌else◌, inl, inr, Any,
}
use lmax_clob.Crates.{Crates}
use lmax_clob.Engine.Types.{Result, ok, err}
use lmax_clob.Engine.Matching.{MatchingEngine}
use lmax_clob.Engine.Snapshot.{BookSnapshot, Postcard}
use lmax_clob.Api.Health.{HealthState}
use lmax_clob.Api.Consumer.{seek_to-All, Topic, start_offset, seek_to}
use lmax_clob.Api.Leader.Elector.{Elector, run_step, NotLeading, run_step-follower}
use lmax_clob.Api.Threads.{start_thread, start_follower}

pub data Mode : Type 0 where
  leader_mode follower_mode : Mode

pub data Route : Type 0 where
  health healthz place_order get_order cancel_order get_book get_trades ws_market : Route

unfoldable pub routes : Mode → List Route
routes leader_mode =
    Route.health ∷ Route.place_order ∷ Route.get_order ∷ Route.cancel_order ∷ Route.get_book
    ∷ Route.get_trades ∷ Route.ws_market ∷ Route.healthz ∷ []
routes follower_mode = Route.health ∷ Route.get_book ∷ Route.get_trades ∷ Route.healthz ∷ []

module _ ⦃c : Crates⦄ where
  abbrev pub snapshot_in : Option (BookSnapshot × ℕ) → Option BookSnapshot
  snapshot_in none = none
  snapshot_in (some (snap, offset)) = some snap

  abbrev pub mark_loaded : Option (BookSnapshot × ℕ) → HealthState → HealthState
  mark_loaded none h = h
  mark_loaded (some x) h = record h { snapshot_loaded = true }

  module _ ⦃p : Postcard⦄ where
    -- A process that has started: its mode, the offsets from which its consumer reads, its engine
    -- and the shared flags.
    pub record Process : Type 0 where
      pub mode : Mode
      pub assignment : List (String × ℕ × ℕ)
      pub engine : MatchingEngine
      pub health : HealthState

    abbrev pub engine_of : Mode → Option BookSnapshot → MatchingEngine
    engine_of leader_mode snap = (start_thread snap).engine
    engine_of follower_mode snap = (start_follower snap).engine

    seeked :
        Option (BookSnapshot × ℕ)
        → Mode
        → HealthState
        → Option (List (String × ℕ × ℕ))
        → Option Process
    seeked loaded mode h none = none
    seeked loaded mode h (some tpl) = some (record {
      mode = mode;
      assignment = tpl;
      engine = engine_of mode (snapshot_in loaded);
      health = mark_loaded loaded h;
    })

    -- `loaded` is the result of `store.load()`, `topics` the metadata of the broker, and `leads`
    -- the elector's flag after its first cycle. `none` where `main` returns an error.
    unfoldable pub start_process :
        Result c.PostcardError (Option (BookSnapshot × ℕ))
        → Option (List Topic)
        → Bool
        → HealthState
        → Option Process
    unfolding seeked
    start_process (err x) topics leads h = none
    start_process (ok loaded) topics leads h =
        seeked loaded (if leads then leader_mode else follower_mode) h
          (seek_to topics (start_offset loaded))

    engine_of-start :
        (leads : Bool) (snap : BookSnapshot)
        → engine_of (if leads then leader_mode else follower_mode) (some snap)
          ≡ (start_thread (some snap)).engine
    unfolding start_thread start_follower
    engine_of-start true snap = refl
    engine_of-start false snap = refl

    -- A process that starts from a snapshot
    pub start_process-loaded :
        (snap : BookSnapshot) (offset : ℕ) (topics : Option (List Topic)) (leads : Bool)
        (h : HealthState) (k : Process)
        → start_process (ok (some (snap, offset))) topics leads h ≡ some k
        → (k.engine ≡ (start_thread (some snap)).engine)
          × All (λ (a : String × ℕ × ℕ). a.2 ≡ offset + 1) k.assignment
          × (k.health.snapshot_loaded ≡ true)
    unfolding start_process seeked
    start_process-loaded snap offset topics leads h k run =
        elim (Option-cases (seek_to topics (offset + 1))) [
          | inl failed ↦ absurd (cc (rw (failed, start_process, seeked) at run))
          | inr (tpl, found) ↦
              let same = some-injective _ k (rw (found, start_process, seeked) at run) in
              (
                ap (λ (x : Process). x.engine) (sym same) ∙ engine_of-start leads snap,
                subst (All (λ (a : String × ℕ × ℕ). a.2 ≡ offset + 1))
                    (ap (λ (x : Process). x.assignment) same)
                    (seek_to-All topics (offset + 1) tpl found),
                ap (λ (x : Process). x.health.snapshot_loaded) (sym same),
              )
        ]

-- What happens to a follower: an attempt of its elector has a result, or it looks at the flag.
pub data Happening (E : Type 0) : Type 0 where
  attempted : Result E Bool → Happening E
  looked : Happening E

-- The code with which the process exits, once it sees that it leads.
unfoldable pub await_promotion : {E : Type 0} → Elector → List (Happening E) → Option ℕ
await_promotion e [] = none
await_promotion e (attempted r ∷ hs) = await_promotion (run_step e r) hs
await_promotion e (looked ∷ hs) =
    let rest = await_promotion e hs in if e.is_leader then some 0 else rest

-- An attempt that has won the lease.
abbrev pub IsWon : {E : Type 0} → Happening E → Type 0
IsWon (attempted r) = r ≡ ok true
IsWon looked = ⊥

exit_or_wait :
    (leads : Bool) (rest : Option ℕ) (n : ℕ)
    → (if leads then some 0 else rest) ≡ some n
    → ((leads ≡ true) × (n ≡ 0)) ⊎ (rest ≡ some n)
exit_or_wait true rest n run = inl (refl, cc run)
exit_or_wait false rest n run = inr run

module _ {E : Type 0} where
  exit_code :
      (e : Elector) (hs : List (Happening E)) (n : ℕ) → await_promotion e hs ≡ some n → n ≡ 0
  unfolding await_promotion
  exit_code e [] n run = absurd cc
  exit_code e (attempted r ∷ hs) n run = exit_code (run_step e r) hs n run
  exit_code e (looked ∷ hs) n run = elim (exit_or_wait e.is_leader (await_promotion e hs) n run) [
    | inl (leads, zero) ↦ zero
    | inr later ↦ exit_code e hs n later
  ]

  -- A process in follower mode whose elector does not lead and whose lease flag is down exits
  -- only once an attempt of its elector has won the lease, and then with the code 0.
  pub await_promotion-IsWon :
      (e : Elector) (hs : List (Happening E)) (n : ℕ)
      → NotLeading e
      → await_promotion e hs ≡ some n
      → (n ≡ 0) × Any IsWon hs
  unfolding await_promotion
  await_promotion-IsWon e [] n h run = absurd cc
  await_promotion-IsWon e (looked ∷ hs) n h run =
      elim (exit_or_wait e.is_leader (await_promotion e hs) n run) [
        | inl (leads, zero) ↦ absurd (cc (leads, h.0))
        | inr later ↦ let (zero, won) = await_promotion-IsWon e hs n h later in (zero, inr won)
      ]
  await_promotion-IsWon e (attempted (ok true) ∷ hs) n h run = (exit_code _ hs n run, inl refl)
  await_promotion-IsWon e (attempted (ok false) ∷ hs) n h run =
      let (zero, won) =
        await_promotion-IsWon (run_step e (ok false)) hs n
          (run_step-follower e (ok false) (λ x. cc x) h) run in
      (zero, inr won)
  await_promotion-IsWon e (attempted (err x) ∷ hs) n h run =
      let (zero, won) =
        await_promotion-IsWon (run_step e (err x)) hs n (run_step-follower e (err x) (λ y. cc y) h)
          run in
      (zero, inr won)
