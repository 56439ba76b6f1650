-- ===== src/Matcher/Engine/Market.antt =====
-- Market orders as matchAllOrders passes them on: their limit never holds them back.
use espacekilly.Base.{
  if◌then◌else◌, ◌≡◌, ◌≢◌, refl, ◌∙◌, Bool, true, false, not, some, pos, is_pos, arith,
}
use espacekilly.Types.{OrderType, buy, sell, MessageResponse, NewOrderRequest}
use espacekilly.Matcher.Engine.{dispatch, market_limit}
use espacekilly.Matcher.Handlers.{past_limit, handle_market_order}
use espacekilly.Matcher.Handlers.Match.{Matches, handle_market_order-match_orders}
use espacekilly.Matcher.OrderBook.{OrderBook, side}
use espacekilly.Matcher.OrderBook.Invariant.{IsBookOf}
use espacekilly.Matcher.OrderBook.View.{view}
use espacekilly.Matcher.OrdersData.Invariant.{Levels}
use espacekilly.Matcher.Priority.{match_orders}

abbrev market_type : Bool → OrderType
market_type is_buy = if is_buy then buy else sell

market_limit_never :
    (is_buy : Bool) (b : OrderBook) {rests frees : Levels}
    → IsBookOf b rests frees
    → past_limit is_buy (market_limit (market_type is_buy)) (side b.best_idx (not is_buy)) ≡ false
market_limit_never true b v = let k = v.best_ok false in ground arith
market_limit_never false b v = let k = v.best_ok true in ground arith

market_dispatch :
    (is_buy : Bool) (msg : NewOrderRequest) (b : OrderBook)
    → dispatch (market_type is_buy) msg b
      ≡ handle_market_order msg b (market_limit (market_type is_buy))
unfolding dispatch
market_dispatch true msg b = refl
market_dispatch false msg b = refl

-- What a market order leads to, of the type that goes with its sign.
abbrev pub MarketMatches : NewOrderRequest → OrderBook → Levels → Type 0
MarketMatches msg b rests =
    let lots = msg.order.quantity_lots in
    let is_buy = is_pos lots in
    let type = if is_buy then buy else sell in
    (c : OrderBook) × (r : MessageResponse) × (rests' : Levels) × (frees' : Levels) × (dispatch type
        msg b
      ≡ some (c, r))
    × IsBookOf c rests' frees'
    × Matches is_buy msg b rests
        (match_orders is_buy (market_limit type) (view (not is_buy) b rests) lots) c r rests'

-- A market order with lots, of the type that goes with their sign, which matchAllOrders hands to
-- HandleMarketOrder with SIZE_MAX or 0 as its limit, is matched as the reference says on every book
-- with the invariant: no best price is past such a limit.
pub dispatch-MarketMatches :
    (msg : NewOrderRequest) (b : OrderBook) (rests frees : Levels)
    → IsBookOf b rests frees
    → msg.order.quantity_lots ≢ pos 0
    → MarketMatches msg b rests
dispatch-MarketMatches msg b rests frees v ne =
    let is_buy = is_pos msg.order.quantity_lots in
    let limit = market_limit (market_type is_buy) in
    let (c, r, rests', frees', run, w, m) =
      handle_market_order-match_orders msg b limit rests frees v ne
        (market_limit_never is_buy b v) in
    (c, r, rests', frees', market_dispatch is_buy msg b ∙ run, w, m)
