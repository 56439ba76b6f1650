-- ===== src/Matcher/Priority/Exchange.antt =====
-- What the program promises as a whole, with no nodes, no ring and no index: two queues, and for
-- each request the responses to it, in order.
use espacekilly.Base.{
  ℕ, ◌^◌, ◌-◌, Bool, not, none, some, List, [], ◌∷◌, ◌++◌, pos, is_pos, eqb_ℤ, if◌then◌else◌,
}
use espacekilly.Types.{
  OrderType, buy, buy_limit, sell, sell_limit, other_type, MessageResponse, filled, rejected,
  not_found, cancelled, NewOrderRequest, NewRequest, new, cancel,
}
use espacekilly.Matcher.Priority.{Entry, match_orders, answer, place}
use espacekilly.Matcher.Priority.Withdraw.{take_out}

-- The bids and the asks, best price first and oldest first.
pub record Queues : Type 0 where
  pub bids : List Entry
  pub asks : List Entry

abbrev pub queue_of : Queues → Bool → List Entry
queue_of q is_bid = if is_bid then q.bids else q.asks

-- The queues, by the order's own side and the other one.
abbrev pub queues : Bool → List Entry → List Entry → Queues
queues is_buy own other =
    if is_buy then record { bids = own; asks = other } else record { bids = other; asks = own }

-- The queues that a request leaves, the fills that are reported, in order, and the answer.
pub record Served : Type 0 where
  pub left : Queues
  pub reports : List MessageResponse
  pub response : MessageResponse

-- A request that changes nothing.
abbrev pub answered : MessageResponse → Queues → Served
answered r q = record { left = q; reports = []; response = r }

-- Any price is good enough for a market order.
abbrev pub any_price : Bool → ℕ
any_price is_buy = if is_buy then 2 ^ 64 - 1 else 0

unfoldable pub at_market : NewOrderRequest → Queues → Served
at_market msg q =
    let is_buy = is_pos msg.order.quantity_lots in
    let m =
      match_orders is_buy (any_price is_buy) (queue_of q (not is_buy)) msg.order.quantity_lots in
    record {
      left = queues is_buy (queue_of q is_buy) m.queue;
      reports = m.reports;
      response = answer is_buy msg.order m.left;
    }

unfoldable pub at_limit : NewOrderRequest → Queues → Served
at_limit msg q =
    let is_buy = is_pos msg.order.quantity_lots in
    let p =
      place is_buy msg.price_ticks_limit msg.order (queue_of q (not is_buy)) (queue_of q is_buy) in
    record { left = queues is_buy p.own p.other; reports = p.reports; response = p.response }

-- An order with lots, by its type.
unfoldable pub by_type : OrderType → NewOrderRequest → Queues → Served
by_type buy msg q = at_market msg q
by_type sell msg q = at_market msg q
by_type buy_limit msg q = at_limit msg q
by_type sell_limit msg q = at_limit msg q
by_type (other_type _) msg q = answered (record { order = none; result = filled }) q

-- The order with this id, if one rests, is taken out of its queue and is the answer.
unfoldable pub withdraw : ℕ → Queues → Served
withdraw id q = elim (take_out id q.bids) [
  | some (o, es) ↦ answered (record { order = some o; result = cancelled }) (record q { bids = es })
  | none ↦ elim (take_out id q.asks) [
    | some (o, es) ↦
        answered (record { order = some o; result = cancelled }) (record q { asks = es })
    | none ↦ answered (record { order = none; result = not_found }) q
  ]
]

unfoldable pub serve : NewRequest → Queues → Served
serve (cancel msg) q = withdraw msg.to_cancel q
serve (new msg) q =
    if eqb_ℤ msg.order.quantity_lots (pos 0)
    then answered (record { order = none; result = rejected }) q
    else by_type msg.order_type msg q

-- All the requests, one after the other: the queues that they leave and all the responses.
unfoldable pub serve_all : List NewRequest → Queues → Queues × List MessageResponse
serve_all [] q = (q, [])
serve_all (r ∷ rs) q =
    let s = serve r q in
    let (left, responses) = serve_all rs s.left in (left, s.reports ++ s.response ∷ responses)
