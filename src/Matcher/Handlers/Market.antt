-- ===== src/Matcher/Handlers/Market.antt =====
-- HandleMarketOrder on a book that keeps the invariant.
use native.Mathlib.Decide.{ℕ_discrete}
use espacekilly.Base.{
  ℕ, ◌<◌, ◌≡◌, ◌≢◌, refl, sym, ap, ◌∙◌, subst, ◌⊎◌, inl, inr, Bool, true, not, some, arith, ℤ, pos,
  is_pos, eqb_ℤ, eq_of_parts, ◌==◌, if◌then◌else◌, Bool-cases,
}
use espacekilly.Types.{filled, partially_filled, rejected, MessageResponse, NewOrderRequest}
use espacekilly.Matcher.Handlers.{past_limit, sweep, sweep_fuel, settle, handle_market_order}
use espacekilly.Matcher.Handlers.Rounds.{Swept, side-set_side, side-set_side-other}
use espacekilly.Matcher.Handlers.Sweep.{sweep-Swept}
use espacekilly.Matcher.OrderBook.{OrderBook, side, inc, invalid_best_idx}
use espacekilly.Matcher.OrderBook.Counting.{on_side}
use espacekilly.Matcher.OrderBook.Invariant.{IsBookOf}
use espacekilly.Matcher.OrderBook.Index.{Keeps, Keeps-counted}
use espacekilly.Matcher.OrdersData.Invariant.{Levels}
use espacekilly.Matcher.Handlers.Settle.{
  reset-IsBook, sweep_fuel-Enough, settled, settle-settled, settle-filled, settle-unfilled,
}

-- What the response to an order says of the book: nothing of the order is left and it is filled, or
-- some is, since no order of the other side rests (and it has no best price), or only orders past
-- the limit.
abbrev pub Outcome : Bool → ℕ → NewOrderRequest → OrderBook → MessageResponse → Type 0
Outcome is_buy limit msg c r =
    (left : ℤ) × (r.order ≡ some (record { id = msg.order.id; quantity_lots = left }))
    × (((left ≡ pos 0) × (r.result ≡ filled))
        ⊎ ((on_side is_buy left ≡ true)
            × (r.result
                ≡ (if eqb_ℤ left msg.order.quantity_lots then rejected else partially_filled))
            × (((side c.counts (not is_buy) ≡ 0)
                  × (side c.best_idx (not is_buy) ≡ invalid_best_idx))
                ⊎ (past_limit is_buy limit (side c.best_idx (not is_buy)) ≡ true))))

abbrev pub SettledAt :
    Bool
    → ℕ
    → NewOrderRequest
    → OrderBook
    → Levels
    → Levels
    → OrderBook
    → MessageResponse
    → Levels
    → Levels
    → Type 0
SettledAt is_buy limit msg b rests frees c r rests' frees' =
    IsBookOf c rests' frees'
    × Keeps b c rests frees rests' frees'
    × Outcome is_buy limit msg c r
    × (side c.best_idx is_buy ≡ side b.best_idx is_buy)
    × (side c.counts is_buy ≡ side b.counts is_buy)
    × ((0 < side c.counts (not is_buy)) ⊎ (side c.best_idx (not is_buy) ≡ invalid_best_idx))

abbrev pub Settled :
    Bool → ℕ → NewOrderRequest → OrderBook → Levels → Levels → OrderBook → MessageResponse → Type 0
Settled is_buy limit msg b rests frees c r =
    (rests' : Levels) × (frees' : Levels) × SettledAt is_buy limit msg b rests frees c r rests'
      frees'

-- The book once the counters at file scope are up to date.
abbrev pub counted_in : Bool → OrderBook → OrderBook
counted_in is_buy b =
    let c = b.counters in
    record b {
      counters = record c {
        market_orders = inc c.market_orders;
        no_ops = if side b.counts (not is_buy) == 0 then inc c.no_ops else c.no_ops;
      };
    }

pub handle-sweep :
    (msg : NewOrderRequest) (b c : OrderBook) (limit : ℕ) (left : ℤ)
    → sweep sweep_fuel
        (is_pos msg.order.quantity_lots)
        limit
        (counted_in (is_pos msg.order.quantity_lots) b)
        msg.order.quantity_lots
      ≡ some (c, left)
    → handle_market_order msg b limit ≡ some (settle (is_pos msg.order.quantity_lots) msg c left)
unfolding handle_market_order
handle-sweep msg b c limit left e = rw (handle_market_order, e)

-- Where the counter of the other side is zero, the best price goes.
module _ (is_buy : Bool) (limit : ℕ) (msg : NewOrderRequest) (b c : OrderBook)
    {rests frees : Levels} (left : ℤ)
    (s : Swept is_buy limit b rests frees msg.order.quantity_lots c left) where
  pub settled-IsBook : IsBookOf (settled is_buy msg c left) s.rests s.frees
  settled-IsBook = elim (Bool-cases (side c.counts (not is_buy) == 0)) [
    | inl e ↦ rw e (reset-IsBook s.book (not is_buy) (ground arith))
    | inr e ↦ rw e s.book
  ]

  settled-Keeps : Keeps b (settled is_buy msg c left) rests frees s.rests s.frees
  settled-Keeps = elim (Bool-cases (side c.counts (not is_buy) == 0)) [
    | inl e ↦ rw e (record {
      room = s.keeps.room;
      read = s.keeps.read;
      index = s.keeps.index;
      stays = s.keeps.stays;
      found = s.keeps.found;
      cursors = s.keeps.cursors;
    })
    | inr e ↦ rw e s.keeps
  ]

  settled_empty :
      side (settled is_buy msg c left).counts (not is_buy) ≡ 0
      → side (settled is_buy msg c left).best_idx (not is_buy) ≡ invalid_best_idx
  settled_empty = elim (Bool-cases (side c.counts (not is_buy) == 0)) [
    | inl e ↦ rw e (λ _. side-set_side c.best_idx (not is_buy) invalid_best_idx)
    | inr e ↦ rw e (λ z. absurd (ground arith))
  ]

  settled_best :
      (0 < side (settled is_buy msg c left).counts (not is_buy))
      ⊎ (side (settled is_buy msg c left).best_idx (not is_buy) ≡ invalid_best_idx)
  settled_best = elim (ℕ_discrete (side (settled is_buy msg c left).counts (not is_buy)) 0) [
    | yes z ↦ inr (settled_empty z)
    | no ne ↦ inl (omega arith)
  ]

  settled_own :
      (side (settled is_buy msg c left).best_idx is_buy ≡ side b.best_idx is_buy)
      × (side (settled is_buy msg c left).counts is_buy ≡ side b.counts is_buy)
  settled_own = elim (Bool-cases (side c.counts (not is_buy) == 0)) [
    | inl e ↦
        rw e (side-set_side-other c.best_idx is_buy invalid_best_idx ∙ s.own_best, s.own_count)
    | inr e ↦ rw e (s.own_best, s.own_count)
  ]

  -- What stops the loop with lots left.
  settled_stop :
      on_side is_buy left ≡ true
      → ((side (settled is_buy msg c left).counts (not is_buy) ≡ 0)
          × (side (settled is_buy msg c left).best_idx (not is_buy) ≡ invalid_best_idx))
        ⊎ (past_limit is_buy limit (side (settled is_buy msg c left).best_idx (not is_buy)) ≡ true)
  settled_stop on = elim (Bool-cases (side c.counts (not is_buy) == 0)) [
    | inl e ↦ inl (rw e (ground arith), settled_empty (rw e (ground arith)))
    | inr e ↦ rw e (elim s.ended [
      | inl off ↦ absurd (ground arith)
      | inr (inl z) ↦ absurd (ground arith)
      | inr (inr past) ↦ inr past
    ])
  ]

  outcome :
      on_side is_buy msg.order.quantity_lots ≡ true
      → Outcome is_buy limit msg (settle is_buy msg c left).0 (settle is_buy msg c left).1
  outcome nonzero = elim (Bool-cases (on_side is_buy left)) [
    | inl on ↦
        rw (settle-unfilled is_buy msg c left on) (left, refl, inr (on, refl, settled_stop on))
    | inr off ↦ rw (settle-filled is_buy msg c left nonzero off) (pos 0, refl, inl (refl, refl))
  ]

  pub settle-SettledAt :
      on_side is_buy msg.order.quantity_lots ≡ true
      → SettledAt is_buy limit msg b rests frees
          (settle is_buy msg c left).0
          (settle is_buy msg c left).1
          s.rests
          s.frees
  settle-SettledAt nonzero =
      let o = outcome nonzero in
      let e = settle-settled is_buy msg c left in
      (
        subst (λ x. IsBookOf x s.rests s.frees) (sym e) settled-IsBook,
        subst (λ x. Keeps b x rests frees s.rests s.frees) (sym e) settled-Keeps,
        o,
        ap (λ x. side x.best_idx is_buy) e ∙ settled_own.0,
        ap (λ x. side x.counts is_buy) e ∙ settled_own.1,
        subst
            (λ x.
              (0 < side x.counts (not is_buy)) ⊎ (side x.best_idx (not is_buy) ≡ invalid_best_idx))
            (sym e) settled_best,
      )

pub nonzero_side : (x : ℤ) → x ≢ pos 0 → on_side (is_pos x) x ≡ true
nonzero_side x ne = elim (Bool-cases (on_side (is_pos x) x)) [
  | inl e ↦ e
  | inr e ↦ absurd (ne (eq_of_parts x (pos 0) (ground arith)))
]

-- The counters do not matter to what is settled.
pub from_start :
    (is_buy : Bool) (limit : ℕ) (msg : NewOrderRequest) (b : OrderBook) {rests frees : Levels}
    (c : OrderBook) (r : MessageResponse) {rests' frees' : Levels}
    → SettledAt is_buy limit msg (counted_in is_buy b) rests frees c r rests' frees'
    → SettledAt is_buy limit msg b rests frees c r rests' frees'
from_start is_buy limit msg b c r (book, keeps, o, p, q, z) =
    (book, Keeps-counted (counted_in is_buy b).counters c.counters b c keeps, o, p, q, z)

abbrev pub Handled : NewOrderRequest → OrderBook → Levels → Levels → ℕ → Type 0
Handled msg b rests frees limit =
    (c : OrderBook) × (r : MessageResponse) × (handle_market_order msg b limit ≡ some (c, r))
    × Settled (is_pos msg.order.quantity_lots) limit msg b rests frees c r

-- HandleMarketOrder of an order with lots, on a book with the invariant, returns: its loop ends.
-- The invariant holds after it. The response carries the order's id: either the order is filled
-- and has no lots left, or it has lots left on its side, is rejected if these are all of its lots
-- and else partially filled, and then no order of the other side rests or the best price of that
-- side is past the limit. The order's own side stays as it was, and the other
-- side has a best price only where an order of it rests. No free node is lost, and the index is
-- as before.
pub handle_market_order-IsBook :
    (msg : NewOrderRequest) (b : OrderBook) (limit : ℕ) (rests frees : Levels)
    → IsBookOf b rests frees
    → msg.order.quantity_lots ≢ pos 0
    → Handled msg b rests frees limit
handle_market_order-IsBook msg b limit rests frees v ne =
    let lots = msg.order.quantity_lots in
    let is_buy = is_pos lots in
    let start = counted_in is_buy b in
    let (c, left, run, s) =
      sweep-Swept sweep_fuel is_buy limit start rests frees lots v
        (sweep_fuel-Enough start is_buy lots v) in
    let r = settle is_buy msg c left in
    (
      r.0,
      r.1,
      handle-sweep msg b c limit left run,
      (
        s.rests,
        s.frees,
        from_start is_buy limit msg b r.0 r.1
            (settle-SettledAt is_buy limit msg start c left s (nonzero_side lots ne)),
      ),
    )
