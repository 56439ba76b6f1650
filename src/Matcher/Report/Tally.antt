-- ===== src/Matcher/Report/Tally.antt =====
-- What the handlers do with the counters at file scope.
use espacekilly.Base.{
  ℕ, zero, suc, ◌≡◌, refl, sym, ◌∙◌, subst, Bool, true, false, not, ◌&&◌, Option, none, some, ℤ,
  is_pos, ◌==◌, ◌>>=◌, if◌then◌else◌, Bool-cases, inl, inr,
}
use espacekilly.Types.{
  Result, filled, partially_filled, resting, rejected, not_found, cancelled, Order, NewOrderRequest,
  CancelOrderRequest,
}
use espacekilly.Matcher.Memory.{Ptr, null}
use espacekilly.Matcher.Handlers.{
  fill, Round, done, again, fault, again_or_fault, next_level, round, sweep, sweep_fuel, settle,
  handle_market_order, crosses, rest_order, after_cross, handle_limit_order, handle_cancellation,
}
use espacekilly.Matcher.Handlers.Crossing.{crossing, coming, fully_filled}
use espacekilly.Matcher.Handlers.Market.{counted_in}
use espacekilly.Matcher.OrderBook.{OrderBook, Counters, side, inc}

-- Whatever comes out, the counters are such.
pub data Tallied {A : Type 0} (P : Counters → Type 0) : Option (OrderBook × A) → Type 0 where
  faulty : Tallied P none
  kept : (c : OrderBook) (a : A) → P c.counters → Tallied P (some (c, a))

-- They are `k`.
abbrev pub As : Counters → Counters → Type 0
As k = λ x. x ≡ k

data RoundTallied (k : Counters) : Round → Type 0 where
  stopped : (c : OrderBook) (lots : ℤ) → c.counters ≡ k → RoundTallied k (done c lots)
  going : (c : OrderBook) (lots : ℤ) → c.counters ≡ k → RoundTallied k (again c lots)
  broken : RoundTallied k fault

pub bind-Tallied :
    {A B : Type 0} {P : Counters → Type 0} (m : Option A) (f : A → Option (OrderBook × B))
    → ((a : A) → Tallied P (f a))
    → Tallied P (m >>= f)
bind-Tallied none f h = faulty
bind-Tallied (some a) f h = h a

pub if-Tallied :
    {A : Type 0} {P : Counters → Type 0} (t : Bool) (x y : Option (OrderBook × A))
    → Tallied P x
    → Tallied P y
    → Tallied P (if t then x else y)
if-Tallied true x y p q = p
if-Tallied false x y p q = q

-- What follows on a result.
pub then-Tallied :
    {A B : Type 0} {P P' : Counters → Type 0} (m : Option (OrderBook × A))
    (f : OrderBook × A → Option (OrderBook × B))
    → Tallied P m
    → ((c : OrderBook) (a : A) → P c.counters → Tallied P' (f (c, a)))
    → Tallied P' (m >>= f)
then-Tallied none f faulty h = faulty
then-Tallied (some _) f (kept c a e) h = h c a e

if-RoundTallied :
    {k : Counters} (t : Bool) (x y : Round)
    → RoundTallied k x
    → RoundTallied k y
    → RoundTallied k (if t then x else y)
if-RoundTallied true x y p q = p
if-RoundTallied false x y p q = q

ruleset tallies =
    (bind-Tallied, if-Tallied, if-RoundTallied, faulty, kept, broken, stopped, going, refl)

fill-Tallied :
    (is_buy : Bool) (b : OrderBook) (n : Ptr) (lots : ℤ)
    → Tallied (As b.counters) (fill is_buy b n lots)
unfolding fill
fill-Tallied is_buy b n lots = search (tallies)

again_or_fault-Tallied :
    {k : Counters} {r : Option (OrderBook × ℤ)}
    → Tallied (As k) r
    → RoundTallied k (again_or_fault r)
again_or_fault-Tallied faulty = broken
again_or_fault-Tallied (kept c lots e) = going c lots e

next_level-Tallied :
    (is_buy : Bool) (limit : ℕ) (b : OrderBook) (lots : ℤ)
    → RoundTallied b.counters (next_level is_buy limit b lots)
unfolding next_level
next_level-Tallied is_buy limit b lots = search (tallies)

round-Tallied :
    (is_buy : Bool) (limit : ℕ) (b : OrderBook) (lots : ℤ)
    → RoundTallied b.counters (round is_buy limit b lots)
unfolding round
round-Tallied is_buy limit b lots =
    search (tallies, next_level-Tallied, again_or_fault-Tallied, fill-Tallied)

-- The loop leaves the counters alone.
sweep-Tallied :
    (fuel : ℕ) (is_buy : Bool) (limit : ℕ) (b : OrderBook) (lots : ℤ)
    → Tallied (As b.counters) (sweep fuel is_buy limit b lots)
unfolding sweep
sweep-Tallied zero is_buy limit b lots = faulty
sweep-Tallied (suc fuel) is_buy limit b lots =
    go (sweep-Tallied fuel is_buy limit) (round is_buy limit b lots)
      (round-Tallied is_buy limit b lots)
  where
    go :
        ((c : OrderBook) (left : ℤ) → Tallied (As c.counters) (sweep fuel is_buy limit c left))
        → (r : Round) → RoundTallied b.counters r
        → Tallied (As b.counters) (elim r [
          | done b' lots' ↦ some (b', lots')
          | again b' lots' ↦ sweep fuel is_buy limit b' lots'
          | fault ↦ none
        ])
    go ih (done _ _) (stopped c left t) = kept c left t
    go ih (again _ _) (going c left t) =
        subst (λ k. Tallied (As k) (sweep fuel is_buy limit c left)) t (ih c left)
    go ih fault broken = faulty

-- A market order, and what its caller does with the counters before.
unfoldable pub after_market : Bool → Counters → Counters
after_market idle c = record c {
  market_orders = inc c.market_orders;
  no_ops = if idle then inc c.no_ops else c.no_ops;
}

settle-Tallied :
    (is_buy : Bool) (msg : NewOrderRequest) (b : OrderBook) (left : ℤ)
    → (settle is_buy msg b left).0.counters ≡ b.counters
unfolding settle
settle-Tallied is_buy msg b left = elim (Bool-cases (side b.counts (not is_buy) == 0)) [
  | inl e ↦ rw e refl
  | inr e ↦ rw e refl
]

pub market-Tallied :
    (msg : NewOrderRequest) (b : OrderBook) (limit : ℕ)
    → Tallied
        (As (after_market (side b.counts (not (is_pos msg.order.quantity_lots)) == 0) b.counters))
        (handle_market_order msg b limit)
unfolding handle_market_order after_market
market-Tallied msg b limit =
    let is_buy = is_pos msg.order.quantity_lots in
    let start = counted_in is_buy b in
    then-Tallied (sweep sweep_fuel is_buy limit start msg.order.quantity_lots)
      (λ r. some (settle is_buy msg r.0 r.1))
      (sweep-Tallied sweep_fuel is_buy limit start msg.order.quantity_lots)
      (λ c left e.
        kept (settle is_buy msg c left).0 (settle is_buy msg c left).1
          (settle-Tallied is_buy msg c left ∙ e))

rest-Tallied :
    (is_buy : Bool) (price : ℕ) (o : Order) (b : OrderBook)
    → Tallied
        (As (record b.counters { resting_order = inc b.counters.resting_order }))
        (rest_order is_buy price o b)
unfolding rest_order
rest-Tallied is_buy price o b = search (tallies)

-- A limit order that does not cross rests at once, one that crosses, a side without orders or
-- not, is filled, or what is left of it rests.
pub data Limited (k : Counters) : Bool → Bool → Counters → Type 0 where
  rested :
      (idle : Bool)
      → Limited k false idle
          (record k { limit_orders = inc k.limit_orders; resting_order = inc k.resting_order })
  crossed_filled :
      (idle : Bool)
      → Limited k true idle (record k {
        limit_orders = inc k.limit_orders;
        cross_order = inc k.cross_order;
        market_orders = inc k.market_orders;
        no_ops = if idle then inc k.no_ops else k.no_ops;
        fully_filled_cross_order = inc k.fully_filled_cross_order;
      })
  crossed_rested :
      (idle : Bool)
      → Limited k true idle (record k {
        limit_orders = inc k.limit_orders;
        cross_order = inc k.cross_order;
        market_orders = inc k.market_orders;
        no_ops = if idle then inc k.no_ops else k.no_ops;
        resting_order = inc k.resting_order;
      })

-- A cancellation finds the order or does not.
pub data Cancelled (k : Counters) : Bool → Counters → Type 0 where
  found : Cancelled k false (record k { cancels = inc k.cancels })
  missed :
      Cancelled k true
        (record k { cancels = inc k.cancels; cancels_not_found = inc k.cancels_not_found })

pub weaken-Tallied :
    {A : Type 0} {k : Counters} {P : Counters → Type 0} {m : Option (OrderBook × A)}
    → P k
    → Tallied (As k) m
    → Tallied P m
weaken-Tallied h faulty = faulty
weaken-Tallied {P} h (kept c a e) = kept c a (subst P (sym e) h)

-- The counters before a limit order is matched.
abbrev came : Counters → Counters
came k = record k { limit_orders = inc k.limit_orders; cross_order = inc k.cross_order }

-- What is left of it comes to rest.
left-Tallied :
    (k : Counters) (idle is_buy : Bool) (price : ℕ) (c : OrderBook) (o : Option Order)
    → c.counters ≡ after_market idle (came k)
    → Tallied (Limited k true idle) (o >>= (λ x. rest_order is_buy price x c))
unfolding after_market
left-Tallied k idle is_buy price c none e = faulty
left-Tallied k idle is_buy price c (some x) e =
    weaken-Tallied
      (subst (λ z. Limited k true idle (record z { resting_order = inc z.resting_order })) (sym e)
        (crossed_rested idle))
      (rest-Tallied is_buy price x c)

after_cross-Tallied :
    (k : Counters) (idle is_buy : Bool) (price : ℕ) (c : OrderBook) (o : Option Order)
    (result : Result)
    → c.counters ≡ after_market idle (came k)
    → Tallied
        (Limited k true idle)
        (after_cross is_buy price (c, record { order = o; result = result }))
unfolding after_cross after_market
after_cross-Tallied k idle is_buy price c o filled e =
    kept (fully_filled c) (record { order = o; result = filled })
      (subst
        (λ z.
          Limited k true idle
            (record z { fully_filled_cross_order = inc z.fully_filled_cross_order }))
        (sym e) (crossed_filled idle))
after_cross-Tallied k idle is_buy price c o partially_filled e =
    left-Tallied k idle is_buy price c o e
after_cross-Tallied k idle is_buy price c o resting e = left-Tallied k idle is_buy price c o e
after_cross-Tallied k idle is_buy price c o rejected e = left-Tallied k idle is_buy price c o e
after_cross-Tallied k idle is_buy price c o not_found e = left-Tallied k idle is_buy price c o e
after_cross-Tallied k idle is_buy price c o cancelled e = left-Tallied k idle is_buy price c o e

-- Does the order cross when it comes, is the other side without orders, does no order have the id?
abbrev pub meets : NewOrderRequest → OrderBook → Bool
meets msg b =
    let is_buy = is_pos msg.order.quantity_lots in
    crosses is_buy msg.price_ticks_limit (side b.best_idx (not is_buy))

abbrev pub finds_none : NewOrderRequest → OrderBook → Bool
finds_none msg b = side b.counts (not (is_pos msg.order.quantity_lots)) == 0

abbrev pub is_missing : CancelOrderRequest → OrderBook → Bool
is_missing msg b =
    let n = b.id_to_order msg.to_cancel in
    not (not (n == null) && b.orders_data.heap.id n == msg.to_cancel)

pub limit-Tallied :
    (msg : NewOrderRequest) (b : OrderBook)
    → Tallied (Limited b.counters (meets msg b) (finds_none msg b)) (handle_limit_order msg b)
unfolding handle_limit_order
limit-Tallied msg b =
    let is_buy = is_pos msg.order.quantity_lots in
    let price = msg.price_ticks_limit in
    let idle = finds_none msg b in
    elim (Bool-cases (meets msg b)) [
      | inl e ↦ rw e (
          then-Tallied (handle_market_order msg (crossing b) price)
            (λ r. after_cross is_buy price r) (market-Tallied msg (crossing b) price)
            (λ c r e'. after_cross-Tallied b.counters idle is_buy price c r.order r.result e'))
      | inr e ↦ rw e (weaken-Tallied (rested idle) (rest-Tallied is_buy price msg.order (coming b)))
    ]

pub cancel-Tallied :
    (msg : CancelOrderRequest) (b : OrderBook)
    → Tallied (Cancelled b.counters (is_missing msg b)) (handle_cancellation msg b)
unfolding handle_cancellation
cancel-Tallied msg b =
    let n = b.id_to_order msg.to_cancel in
    elim (Bool-cases (not (n == null) && b.orders_data.heap.id n == msg.to_cancel)) [
      | inl e ↦ rw e (search (tallies, found))
      | inr e ↦ rw e (search (tallies, missed))
    ]
