-- ===== src/Matcher/Engine/Dispatch.antt =====
-- The handlers, as matchAllOrders calls them, on requests that fit the book.
use espacekilly.Base.{
  ℕ, ◌+◌, ◌≤◌, ◌<◌, ◌≡◌, ◌≢◌, refl, ◌⊎◌, inl, inr, ◌==◌, Bool, true, false, Option, some, pos,
  arith, if◌then◌else◌, length,
}
use espacekilly.Types.{
  OrderType, buy, buy_limit, sell, sell_limit, other_type, MessageResponse, instrument_count,
  NewOrderRequest, CancelOrderRequest, NewRequest, new, cancel, k_price_level_count, arr_size,
}
use espacekilly.Matcher.Engine.{no_response, market_limit, dispatch}
use espacekilly.Matcher.Handlers.{handle_market_order, handle_limit_order, handle_cancellation}
use espacekilly.Matcher.Handlers.Cancel.{handle_cancellation-IsBook}
use espacekilly.Matcher.Handlers.Limit.{handle_limit_order-IsBook}
use espacekilly.Matcher.Handlers.Market.{handle_market_order-IsBook}
use espacekilly.Matcher.OrderBook.{OrderBook}
use espacekilly.Matcher.OrderBook.Counting.{one_if}
use espacekilly.Matcher.OrderBook.Index.{Cursors, IsIndexed, Keeps-IsIndexed}
use espacekilly.Matcher.OrderBook.Invariant.{IsBookOf}
use espacekilly.Matcher.OrdersData.Invariant.{Levels}

-- A book between two requests.
pub record IsSound (b : OrderBook) (rests frees : Levels) : Type 0 where
  pub book : IsBookOf b rests frees
  pub index : IsIndexed b rests
  pub cursors : Cursors b

abbrev pub is_limit : OrderType → Bool
is_limit buy_limit = true
is_limit sell_limit = true
is_limit _ = false

-- A request for the one instrument, with a price that is a level if it is a limit order, and an id
-- that the index has.
abbrev pub Fits : NewRequest → Type 0
Fits (new msg) =
    (msg.instrument_id < instrument_count)
    × ((is_limit msg.order_type ≡ false)
        ⊎ ((msg.price_ticks_limit < k_price_level_count) × (msg.order.id ≤ arr_size)))
Fits (cancel msg) =
    (msg.instrument_id < instrument_count) × (0 < msg.to_cancel) × (msg.to_cancel ≤ arr_size)

-- The nodes of level `l` that a request may take: one if it is a limit order at that price.
abbrev pub wants : ℕ → NewRequest → ℕ
wants l (new msg) = if is_limit msg.order_type then one_if (msg.price_ticks_limit == l) else 0
wants l (cancel msg) = 0

abbrev pub Leads : Option (OrderBook × MessageResponse) → Levels → (ℕ → ℕ) → Type 0
Leads run frees wanted =
    (c : OrderBook) × (r : MessageResponse) × (rests' : Levels) × (frees' : Levels) × (run
      ≡ some (c, r))
    × IsSound c rests' frees'
    × ((l : ℕ) → length (frees l) ≤ length (frees' l) + wanted l)

module _ (msg : NewOrderRequest) (b : OrderBook) (rests frees : Levels) (s : IsSound b rests frees)
    (nonzero : msg.order.quantity_lots ≢ pos 0) where
  market-Leads : (limit : ℕ) → Leads (handle_market_order msg b limit) frees (λ _. 0)
  market-Leads limit =
      let (c, r, run, done) = handle_market_order-IsBook msg b limit rests frees s.book nonzero in
      let (rests', frees', settled) = done in
      let (w, keeps, _, _, _, _) = settled in
      (
        c,
        r,
        rests',
        frees',
        run,
        record {
          book = w;
          index = Keeps-IsIndexed keeps s.index;
          cursors = keeps.cursors s.cursors;
        },
        λ l. let g = keeps.room l in omega arith,
      )

  limit-Leads :
      msg.price_ticks_limit < k_price_level_count
      → msg.order.id ≤ arr_size
      → 0 < length (frees msg.price_ticks_limit)
      → Leads (handle_limit_order msg b) frees (λ l. one_if (msg.price_ticks_limit == l))
  limit-Leads hp hi room =
      let (c, r, rests', frees', run, w, y, less, still, _) =
        handle_limit_order-IsBook msg b rests frees s.book s.index nonzero hp hi room in
      (c, r, rests', frees', run, record { book = w; index = y; cursors = still s.cursors }, less)

  pub dispatch-Leads :
      (t : OrderType)
      → (is_limit t ≡ false)
        ⊎ ((msg.price_ticks_limit < k_price_level_count) × (msg.order.id ≤ arr_size))
      → ((l : ℕ)
          → l < k_price_level_count
          → (if is_limit t then one_if (msg.price_ticks_limit == l) else 0) ≤ length (frees l))
      → Leads
          (dispatch t msg b)
          frees
          (λ l. if is_limit t then one_if (msg.price_ticks_limit == l) else 0)
  unfolding dispatch
  dispatch-Leads buy fits room = market-Leads (market_limit buy)
  dispatch-Leads sell fits room = market-Leads (market_limit sell)
  dispatch-Leads buy_limit (inl e) room = cc
  dispatch-Leads buy_limit (inr (hp, hi)) room =
      limit-Leads hp hi (let h = room msg.price_ticks_limit hp in ground arith)
  dispatch-Leads sell_limit (inl e) room = cc
  dispatch-Leads sell_limit (inr (hp, hi)) room =
      limit-Leads hp hi (let h = room msg.price_ticks_limit hp in ground arith)
  dispatch-Leads (other_type n) fits room =
      (b, no_response, rests, frees, refl, s, λ l. omega arith)

pub cancel-Leads :
    (msg : CancelOrderRequest) (b : OrderBook) (rests frees : Levels)
    → IsSound b rests frees
    → 0 < msg.to_cancel
    → msg.to_cancel ≤ arr_size
    → Leads (handle_cancellation msg b) frees (λ _. 0)
cancel-Leads msg b rests frees s has_id hi =
    let (c, r, rests', frees', run, w, y, more, still, _, _, _) =
      handle_cancellation-IsBook msg b rests frees s.book s.index hi (omega arith) in
    (
      c,
      r,
      rests',
      frees',
      run,
      record { book = w; index = y; cursors = still s.cursors },
      λ l. let g = more l in omega arith,
    )
