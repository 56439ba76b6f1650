-- ===== src/Matcher/Priority.antt =====
-- What the book promises, with no nodes and no levels: the orders of a side stand in one queue, the
-- best price first and the oldest first at the same price, and an incoming order is matched against
-- that queue from its front.
pub mod Cases
pub mod Conserve
pub mod Exchange
pub mod Withdraw
use espacekilly.Base.{
  ℕ, Bool, true, false, not, ◌||◌, some, List, [], ◌∷◌, ℤ, pos, ◌+ℤ◌, is_pos, is_neg, eqb_ℤ, ltb,
  if◌then◌else◌, update,
}
use espacekilly.Types.{Order, MessageResponse, filled, partially_filled, resting, rejected}
use espacekilly.Matcher.OrderBook.{inc, fulfilled_slot}

-- A price, and an order that rests there.
abbrev pub Entry : Type 0
Entry = ℕ × Order

-- Has the incoming order lots on the side `is_buy` left? Bids are positive and asks negative.
abbrev pub wants_more : Bool → ℤ → Bool
wants_more is_buy lots = if is_buy then is_pos lots else is_neg lots

-- Is the price of a resting order worse than the limit of the incoming one?
abbrev pub worse : Bool → ℕ → ℕ → Bool
worse is_buy limit price = if is_buy then ltb limit price else ltb price limit

abbrev pub fill_report : Order → ℤ → Bool → MessageResponse
fill_report o left in_full = record {
  order = some (record { id = o.id; quantity_lots = left });
  result = if in_full then filled else partially_filled;
}

-- The queue that is left, the lots that are left, and the fills that are reported, in order.
pub record Matched : Type 0 where
  pub queue : List Entry
  pub left : ℤ
  pub reports : List MessageResponse

-- The reference: lots of the two sides have opposite signs, so that a fill is an addition.
unfoldable pub match_orders : Bool → ℕ → List Entry → ℤ → Matched
match_orders is_buy limit [] lots = record { queue = []; left = lots; reports = [] }
match_orders is_buy limit ((price, o) ∷ es) lots =
    let new = lots +ℤ o.quantity_lots in
    let rest = match_orders is_buy limit es new in
    let goes_on = record rest { reports = fill_report o (pos 0) true ∷ rest.reports } in
    if not (wants_more is_buy lots) || worse is_buy limit price
    then record { queue = (price, o) ∷ es; left = lots; reports = [] }
    else if wants_more (not is_buy) new
    then record {
      queue = (price, record { id = o.id; quantity_lots = new }) ∷ es;
      left = new;
      reports = fill_report o new false ∷ [];
    }
    else goes_on

-- An order comes to rest behind all orders with its price or a better one.
unfoldable pub enqueue : Bool → ℕ → Order → List Entry → List Entry
enqueue is_bid price o [] = (price, o) ∷ []
enqueue is_bid price o ((p, x) ∷ es) =
    let rest = enqueue is_bid price o es in
    if worse (not is_bid) price p then (price, o) ∷ (p, x) ∷ es else (p, x) ∷ rest

-- The answer to an order with so many lots left: no lots on its side left, all of them, or some.
unfoldable pub answer : Bool → Order → ℤ → MessageResponse
answer is_buy o left =
    if wants_more is_buy left
    then record {
      order = some (record { id = o.id; quantity_lots = left });
      result = if eqb_ℤ left o.quantity_lots then rejected else partially_filled;
    }
    else record { order = some (record { id = o.id; quantity_lots = pos 0 }); result = filled }

-- What a limit order leads to: the two queues, the reports, and the answer.
pub record Placed : Type 0 where
  pub other : List Entry
  pub own : List Entry
  pub reports : List MessageResponse
  pub response : MessageResponse

-- It is matched up to its price, and what is left of it comes to rest.
unfoldable pub place : Bool → ℕ → Order → List Entry → List Entry → Placed
place is_buy price o other own =
    let m = match_orders is_buy price other o.quantity_lots in
    let rest : Order = record { id = o.id; quantity_lots = m.left } in
    let response : MessageResponse = record { order = some rest; result = resting } in
    if wants_more is_buy m.left
    then record {
      other = m.queue;
      own = enqueue is_buy price rest own;
      reports = m.reports;
      response = response;
    }
    else record {
      other = m.queue;
      own = own;
      reports = m.reports;
      response = answer is_buy o m.left;
    }

-- Responses written one by one to the ring, from index `i` on: the ring and the index behind them.
abbrev pub logged : List MessageResponse → (ℕ → MessageResponse) → ℕ → (ℕ → MessageResponse) × ℕ
logged [] ring i = (ring, i)
logged (r ∷ rs) ring i = logged rs (update ring (fulfilled_slot i) r) (inc i)
