-- ===== src/Engine/Refine/Cancel.antt =====
-- matching.rs: `cancel`, beside the queues of the market.
use lmax_clob.Common.{
  ℕ, ◌≡◌, ◌⊎◌, refl, subst, false, inl, inr, none, some, List, [], ◌∷◌, ◌++◌, All, arith,
  Option-cases,
}
use lmax_clob.Crates.{Crates}
use lmax_clob.Engine.Types.{Side, bid, ask, Order, is_complete, ProcessResult, EngineError, ok, err}
use lmax_clob.Engine.Levels.Flat.{flatten}
use lmax_clob.Engine.Book.{OrderBook, levels, index_put, cancel_order}
use lmax_clob.Engine.Matching.{MatchingEngine}
use lmax_clob.Engine.Process.{cancel}
use lmax_clob.Engine.Spec.{Priced, Market, queue, with_queue}
use lmax_clob.Engine.Refine.Holds.{
  IsResting, Holds, Holds-pop_other, IndexSound, get-set_self, IndexSound-set, IndexSound-remove,
}
use lmax_clob.Engine.Refine.Drop.{Cut, Cut-at}
use lmax_clob.Engine.Refine.Models.{Models}
use lmax_clob.Engine.Refine.Struck.{
  cancelled_order, struck, cancel_order-struck, Holds-struck, Covers-struck,
}

module _ ⦃c : Crates⦄ where
  struck-IndexSound :
      (b : OrderBook) (id : c.Uuid) (k : ℕ) (o : Order)
      → c.slab_get b.orders k ≡ some o
      → o.id ≡ id
      → IndexSound b.orders b.index
      → IndexSound
          (c.slab_remove (c.slab_set b.orders k (cancelled_order o)) k)
          (index_put id none b.index)
  struck-IndexSound b id k o held owner h =
      let kept = IndexSound-set b.orders b.index h k (cancelled_order o) o held refl in
      subst
        (λ i.
          IndexSound (c.slab_remove (c.slab_set b.orders k (cancelled_order o)) k)
            (index_put i none b.index))
        owner
        (IndexSound-remove (c.slab_set b.orders k (cancelled_order o)) b.index kept k
          (cancelled_order o) (get-set_self b.orders k (cancelled_order o) o held))

  All-mid {ℓ} :
      {A : Type 0} (P : A → Type ℓ) (x : A) (before later : List A)
      → All P (before ++ x ∷ later)
      → P x
  All-mid P x [] later h = h.0
  All-mid P x (y ∷ before) later h = All-mid P x before later h.1

  own_side :
      (s : Side) (e : MatchingEngine) (a : Market)
      → Models e a
      → Holds s e.book.orders (levels s e.book) (queue s a)
  own_side bid e a h = h.bids
  own_side ask e a h = h.asks

  -- Every order in the slab has a limit, is live, and has a place in the queue of its side.
  pub found :
      (e : MatchingEngine) (a : Market)
      → Models e a
      → (k : ℕ) (o : Order) → c.slab_get e.book.orders k ≡ some o
      → (l : c.Num) × (o.price ≡ some l)
        × (is_complete o ≡ false)
        × Cut e.book.orders k o (flatten (levels o.side e.book)) (queue o.side a)
  found e a h k o held =
      let side = own_side o.side e a h in
      let cut =
        Cut-at e.book.orders k o (flatten (levels o.side e.book)) (queue o.side a) held
          (h.covers k o held) side.distinct side.resolves in
      let r =
        All-mid (λ x. IsResting o.side x.0 x.1) (cut.level, o) cut.before cut.later
          (subst (All (λ x. IsResting o.side x.0 x.1)) cut.split side.resting) in
      (r.limit, r.priced, r.incomplete, cut)

  -- Every order in the slab may rest at its own limit.
  pub slab-IsResting :
      (e : MatchingEngine) (a : Market)
      → Models e a
      → (k : ℕ) (o : Order) → c.slab_get e.book.orders k ≡ some o
      → (l : c.Num) × (o.price ≡ some l) × IsResting o.side l o
  slab-IsResting e a h k o held =
      let side = own_side o.side e a h in
      let cut =
        Cut-at e.book.orders k o (flatten (levels o.side e.book)) (queue o.side a) held
          (h.covers k o held) side.distinct side.resolves in
      let r =
        All-mid (λ x. IsResting o.side x.0 x.1) (cut.level, o) cut.before cut.later
          (subst (All (λ x. IsResting o.side x.0 x.1)) cut.split side.resting) in
      (
        r.limit,
        r.priced,
        record {
          live = r.live;
          on_side = r.on_side;
          limit = r.limit;
          priced = r.priced;
          at_level = refl;
          incomplete = r.incomplete;
        },
      )

  Models-struck :
      (s : Side) (e : MatchingEngine) (a : Market) (id : c.Uuid) (k : ℕ) (l : c.Num) (o : Order)
      → Models e a
      → c.slab_get e.book.orders k ≡ some o
      → o.side ≡ s
      → o.price ≡ some l
      → o.id ≡ id
      → (cut : Cut e.book.orders k o (flatten (levels s e.book)) (queue s a))
      → Models
          (record e { book = struck s e.book id k l o })
          (with_queue s (cut.before ++ cut.later) a)
  Models-struck bid e a id k l o h held side priced owner cut = record {
    bids = Holds-struck bid e.book.orders e.book.bids a.bids k o l h.bids held priced cut;
    asks =
        Holds-pop_other bid e.book.orders e.book.asks a.asks k o h.asks held side
          (cancelled_order o);
    index = struck-IndexSound e.book id k o held owner h.index;
    covers = Covers-struck bid e.book id k l o a.bids h.bids held priced h.covers;
    sequence_eq = h.sequence_eq;
  }
  Models-struck ask e a id k l o h held side priced owner cut = record {
    bids =
        Holds-pop_other ask e.book.orders e.book.bids a.bids k o h.bids held side
          (cancelled_order o);
    asks = Holds-struck ask e.book.orders e.book.asks a.asks k o l h.asks held priced cut;
    index = struck-IndexSound e.book id k o held owner h.index;
    covers = Covers-struck ask e.book id k l o a.asks h.asks held priced h.covers;
    sequence_eq = h.sequence_eq;
  }

  -- An order of this id is taken out of the market, and the others keep their places.
  pub record Withdrawn (id : c.Uuid) (a a' : Market) : Type 0 where
    pub side : Side
    pub level : c.Num
    pub order : Order
    pub before : Priced Order
    pub later : Priced Order
    pub owner : order.id ≡ id
    pub queued : queue side a ≡ before ++ (level, order) ∷ later
    pub left : a' ≡ with_queue side (before ++ later) a

  -- What `cancel` does: it refuses an id that the index does not know and changes nothing, or
  -- withdraws an order of that id, after which the index does not know the id.
  abbrev pub Cancels : MatchingEngine → Market → c.Uuid → Type 0
  Cancels e a id =
      ((e.book.index id ≡ none) × (cancel e id ≡ some (e, err (EngineError.order_not_found id))))
      ⊎ ((e' : MatchingEngine) × (a' : Market) × (cancel e id
            ≡ some (e', ok ProcessResult.cancelled))
          × Withdrawn id a a'
          × Models e' a'
          × (e'.book.index id ≡ none))

  pub cancel-unknown :
      (e : MatchingEngine) (id : c.Uuid)
      → e.book.index id ≡ none
      → cancel e id ≡ some (e, err (EngineError.order_not_found id))
  unfolding cancel cancel_order
  cancel-unknown e id unknown = rw (unknown, cancel, cancel_order)

  pub cancel-struck :
      (s : Side) (e : MatchingEngine) (id : c.Uuid) (k : ℕ) (o : Order) (l : c.Num)
      → o.side ≡ s
      → e.book.index id ≡ some k
      → c.slab_get e.book.orders k ≡ some o
      → is_complete o ≡ false
      → o.price ≡ some l
      → cancel e id
        ≡ some (record e { book = struck s e.book id k l o }, ok ProcessResult.cancelled)
  unfolding cancel
  cancel-struck s e id k o l side known held live priced =
      rw (cancel_order-struck s e.book id k o l side known held live priced, cancel)

  index-struck :
      (s : Side) (b : OrderBook) (id : c.Uuid) (k : ℕ) (l : c.Num) (o : Order)
      → (struck s b id k l o).index id ≡ none
  index-struck bid b id k l o = ground (arith, c.uuid_eq_iff id id)
  index-struck ask b id k l o = ground (arith, c.uuid_eq_iff id id)

  -- cancel never panics on an engine that stands for a market: an unknown id is refused and
  -- nothing changes; a known one is withdrawn from its queue, every other order keeps its
  -- place, and the index forgets the id.
  pub cancel-Cancels : (e : MatchingEngine) (a : Market) (id : c.Uuid) → Models e a → Cancels e a id
  cancel-Cancels e a id h = elim (Option-cases (e.book.index id)) [
    | inl unknown ↦ inl (unknown, cancel-unknown e id unknown)
    | inr (k, known) ↦
        let (o, held, owner) = h.index id k known in
        let (l, priced, live, cut) = found e a h k o held in
        inr (
          record e { book = struck o.side e.book id k l o },
          with_queue o.side (cut.before ++ cut.later) a,
          cancel-struck o.side e id k o l refl known held live priced,
          record {
            side = o.side;
            level = cut.level;
            order = o;
            before = cut.before;
            later = cut.later;
            owner = owner;
            queued = cut.split;
            left = refl;
          },
          Models-struck o.side e a id k l o h held refl priced owner cut,
          index-struck o.side e.book id k l o,
        )
  ]
