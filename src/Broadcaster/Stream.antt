-- ===== src/Broadcaster/Stream.antt =====
-- The orders of the broadcaster fit the matching engine.
use espacekilly.Base.{
  ℕ, zero, suc, ◌+◌, ◌*◌, ◌%◌, ◌^◌, ◌≤◌, ◌<◌, ◌≡◌, refl, ap, ◌∙◌, ◌>>=◌, length, inl, inr, Bool,
  true, false, some, List, [], ◌∷◌, arith, if◌then◌else◌, Bool-cases, ◌⊎◌,
}
use espacekilly.Types.{
  OrderType, buy, buy_limit, sell, sell_limit, other_type, CancelOrderRequest, NewOrderRequest,
  NewRequest, new, cancel, k_price_level_count, arr_size,
}
use espacekilly.Broadcaster.{OrderDraw, ord_is_limit, new_orders, add_cancels, generate_orders}
use espacekilly.Matcher.Engine.Dispatch.{Fits, is_limit}
use espacekilly.Matcher.Engine.Run.{AllFit}
use espacekilly.Wire.Message.{to_order_type}

-- New orders only, with ids that are not 0.
abbrev News : List NewRequest → Type 0
News [] = Unit {0}
News (new r ∷ rs) = Fits (new r) × (0 < r.order.id) × (r.order.id ≤ arr_size) × News rs
News (cancel c ∷ rs) = c.to_cancel < 0

price_fits :
    (t : OrderType) (ticks id : ℕ)
    → ticks < k_price_level_count
    → id ≤ arr_size
    → (is_limit t ≡ false) ⊎ ((ord_is_limit t * ticks < k_price_level_count) × (id ≤ arr_size))
price_fits buy ticks id h k = inl refl
price_fits sell ticks id h k = inl refl
price_fits (other_type n) ticks id h k = inl refl
price_fits buy_limit ticks id h k = inr (omega arith, k)
price_fits sell_limit ticks id h k = inr (omega arith, k)

new_orders-News :
    (draws : ℕ → OrderDraw) (n i msg_id : ℕ)
    → ((j : ℕ) → (draws j).ticks < k_price_level_count)
    → 0 < msg_id
    → msg_id + n ≤ arr_size + 1
    → News (new_orders draws n i msg_id)
unfolding new_orders
new_orders-News draws zero i msg_id t h k = tt
new_orders-News draws (suc n) i msg_id t h k = (
  (
    omega arith,
    price_fits (to_order_type (draws i).type_num) (draws i).ticks msg_id (t i) (omega arith),
  ),
  h,
  omega arith,
  new_orders-News draws n (i + 1) ((msg_id + 1) % 2 ^ 64) t (omega arith) (omega arith),
)

abbrev Adds : ℕ → (ℕ → Bool) → ℕ → ℕ → List NewRequest → Type 0
Adds fuel drawn i msg_id rs =
    (out : List NewRequest) × (add_cancels fuel drawn i false msg_id rs ≡ some out) × AllFit out

-- The cancellation that was added is skipped.
skips :
    (fuel : ℕ) (drawn : ℕ → Bool) (i msg_id : ℕ) (c : CancelOrderRequest) (rs : List NewRequest)
    {out : List NewRequest}
    → add_cancels fuel drawn i false msg_id rs ≡ some out
    → add_cancels (suc fuel) drawn i true msg_id (cancel c ∷ rs) ≡ some (cancel c ∷ out)
unfolding add_cancels
skips fuel drawn i msg_id c rs e = rw e refl

-- The cancellation of an order, with the number of its message.
abbrev cancellation : ℕ → NewOrderRequest → CancelOrderRequest
cancellation msg_id r = record {
  msg_id = msg_id;
  to_cancel = r.order.id;
  instrument_id = r.instrument_id;
}

module _ (fuel : ℕ) (drawn : ℕ → Bool) (i msg_id : ℕ) (r : NewOrderRequest) (rs : List NewRequest)
    (out : List NewRequest) where
  -- A round at an order that is not skipped.
  round : add_cancels (suc fuel) drawn i false msg_id (new r ∷ rs) ≡ (
      add_cancels fuel drawn
        (i + 1)
        (drawn i)
        (if drawn i then (msg_id + 1) % 2 ^ 64 else msg_id)
        (if drawn i then cancel (cancellation msg_id r) ∷ rs else rs)
      >>= (λ rest. some (new r ∷ rest)))
  unfolding add_cancels
  round = refl

  inserts :
      drawn i ≡ true
      → add_cancels fuel drawn
          (i + 1)
          true
          ((msg_id + 1) % 2 ^ 64)
          (cancel (cancellation msg_id r) ∷ rs)
        ≡ some out
      → add_cancels (suc fuel) drawn i false msg_id (new r ∷ rs) ≡ some (new r ∷ out)
  inserts d e = round ∙ rw (d, e) refl

  passes :
      drawn i ≡ false
      → add_cancels fuel drawn (i + 1) false msg_id rs ≡ some out
      → add_cancels (suc fuel) drawn i false msg_id (new r ∷ rs) ≡ some (new r ∷ out)
  passes d e = round ∙ rw (d, e) refl

-- Two rounds for each order are enough.
add_cancels-AllFit :
    (fuel : ℕ) (drawn : ℕ → Bool) (i msg_id : ℕ) (rs : List NewRequest)
    → News rs
    → 2 * length rs ≤ fuel
    → Adds fuel drawn i msg_id rs
unfolding add_cancels
add_cancels-AllFit fuel drawn i msg_id [] news h = ([], refl, tt)
add_cancels-AllFit fuel drawn i msg_id (cancel c ∷ rs) news h = absurd (omega arith)
add_cancels-AllFit zero drawn i msg_id (new r ∷ rs) news h = absurd (omega arith)
add_cancels-AllFit (suc zero) drawn i msg_id (new r ∷ rs) news h = absurd (omega arith)
add_cancels-AllFit (suc (suc fuel)) drawn i msg_id (new r ∷ rs) (fits, some_id, hi, news) h =
    let (apart, e, all) =
      add_cancels-AllFit (suc fuel) drawn (i + 1) msg_id rs news (omega arith) in
    let next = (msg_id + 1) % 2 ^ 64 in
    let (out, e', all') = add_cancels-AllFit fuel drawn (i + 1) next rs news (omega arith) in
    let c = cancellation msg_id r in
    elim (Bool-cases (drawn i)) [
      | inl d ↦ (
        new r ∷ cancel c ∷ out,
        inserts (suc fuel) drawn i msg_id r rs (cancel c ∷ out) d
            (skips fuel drawn (i + 1) next c rs e'),
        (fits, ((fits.0, some_id, hi), all')),
      )
      | inr d ↦ (new r ∷ apart, passes (suc fuel) drawn i msg_id r rs apart d e, (fits, all))
    ]

length-new_orders :
    (draws : ℕ → OrderDraw) (n i msg_id : ℕ) → length (new_orders draws n i msg_id) ≡ n
unfolding new_orders
length-new_orders draws zero i msg_id = refl
length-new_orders draws (suc n) i msg_id =
    ap suc (length-new_orders draws n (i + 1) ((msg_id + 1) % 2 ^ 64))

abbrev pub Streams : (ℕ → OrderDraw) → (ℕ → Bool) → ℕ → Type 0
Streams draws drawn count =
    (out : List NewRequest) × (generate_orders draws drawn count ≡ some out) × AllFit out

-- Where the ticks that are drawn are levels and there are at most 20,000,000 orders, GenerateOrders
-- ends, takes no cancellation for an order, which would throw an exception, and all requests fit the matching engine: prices of limit orders are levels,
-- ids of orders are within the index, and cancelled ids are within it and not 0.
pub generate_orders-AllFit :
    (draws : ℕ → OrderDraw) (drawn : ℕ → Bool) (count : ℕ)
    → ((j : ℕ) → (draws j).ticks < k_price_level_count)
    → count ≤ arr_size
    → Streams draws drawn count
unfolding generate_orders
generate_orders-AllFit draws drawn count t h =
    add_cancels-AllFit (2 * count) drawn 0 ((1 + count) % 2 ^ 64) (new_orders draws count 0 1)
      (new_orders-News draws count 0 1 t (omega arith) (omega arith))
      (omega (arith, length-new_orders draws count 0 1))
