-- ===== src/Matcher/Report/Kinds.antt =====
-- The kinds of requests, and the counters that go with them.
use espacekilly.Base.{
  ℕ, suc, ◌+◌, ◌≤◌, ◌<◌, ◌^◌, ◌≡◌, Bool, List, [], ◌∷◌, pos, eqb_ℤ, arith, length, if◌then◌else◌,
  Bool-cases, Option-cases, inl, inr, none, some, ◌&&◌,
}
use espacekilly.Types.{
  OrderType, buy, buy_limit, sell, sell_limit, other_type, NewRequest, new, cancel, MessageResponse,
}
use espacekilly.Matcher.OrderBook.{OrderBook, Counters}
use espacekilly.Matcher.Engine.{visit}
use espacekilly.Matcher.Report.{Summary, summary}
use espacekilly.Matcher.Report.Tally.{
  after_market, meets, finds_none, is_missing, Limited, rested, crossed_filled, crossed_rested,
  Cancelled, found, missed,
}

-- The limit orders, the market orders and the cancellations among the requests (an order without
-- lots, or of another type, is none of them); the limit orders that crossed when their turn came,
-- the matchings that found the other side without orders, and the cancellations that found no order.
pub record Kinds : Type 0 where
  pub limits : ℕ
  pub markets : ℕ
  pub cancels : ℕ
  pub crosses : ℕ
  pub idles : ℕ
  pub missing : ℕ

abbrev pub one_if : Bool → ℕ
one_if t = if t then 1 else 0

abbrev pub of_type : OrderType → Bool → Bool → Kinds → Kinds
of_type buy cross idle k = record k { markets = k.markets + 1; idles = k.idles + one_if idle }
of_type sell cross idle k = record k { markets = k.markets + 1; idles = k.idles + one_if idle }
of_type buy_limit cross idle k = record k {
  limits = k.limits + 1;
  crosses = k.crosses + one_if cross;
  idles = k.idles + one_if (cross && idle);
}
of_type sell_limit cross idle k = record k {
  limits = k.limits + 1;
  crosses = k.crosses + one_if cross;
  idles = k.idles + one_if (cross && idle);
}
of_type (other_type _) cross idle k = k

abbrev pub of_kind : NewRequest → OrderBook → Kinds → Kinds
of_kind (new msg) b k =
    if eqb_ℤ msg.order.quantity_lots (pos 0)
    then k
    else of_type msg.order_type (meets msg b) (finds_none msg b) k
of_kind (cancel msg) b k = record k {
  cancels = k.cancels + 1;
  missing = k.missing + one_if (is_missing msg b);
}

-- The kinds of the requests that are served one after the other, from the book `b` on, on top of `k`.
module _ {Q : Type 0} (try_emplace : Q → MessageResponse → Q) where
  unfoldable pub kinds : List NewRequest → OrderBook → Q → Kinds → Kinds
  kinds [] b q k = k
  kinds (r ∷ rs) b q k = elim (visit try_emplace r b q) [
    | none ↦ of_kind r b k
    | some (c, q', _, _) ↦ kinds rs c q' (of_kind r b k)
  ]

-- The counters after requests of these kinds.
pub record Agrees (t : Kinds) (k : Counters) : Type 0 where
  pub limits : k.limit_orders ≡ t.limits
  pub markets : k.market_orders ≡ t.markets + k.cross_order
  pub cancels : k.cancels ≡ t.cancels
  pub ends : k.resting_order + k.fully_filled_cross_order ≡ t.limits
  pub filled : k.fully_filled_cross_order ≤ k.cross_order
  pub crosses : k.cross_order ≡ t.crosses
  pub idles : k.no_ops ≡ t.idles
  pub missing : k.cancels_not_found ≡ t.missing
  pub crosses_le : t.crosses ≤ t.limits
  pub idles_le : t.idles ≤ t.markets + t.crosses
  pub missing_le : t.missing ≤ t.cancels

abbrev pub Small : ℕ → Kinds → Type 0
Small n t = t.limits + t.markets + t.cancels + n < 2 ^ 64

of_type-Small :
    (type : OrderType) (cross idle : Bool) (n : ℕ) (t : Kinds)
    → Small (suc n) t
    → Small n (of_type type cross idle t)
of_type-Small buy cross idle n t s = omega arith
of_type-Small sell cross idle n t s = omega arith
of_type-Small buy_limit cross idle n t s = omega arith
of_type-Small sell_limit cross idle n t s = omega arith
of_type-Small (other_type _) cross idle n t s = omega arith

pub of_kind-Small :
    (r : NewRequest) (b : OrderBook) (n : ℕ) (t : Kinds) → Small (suc n) t → Small n (of_kind r b t)
of_kind-Small (cancel msg) b n t s = omega arith
of_kind-Small (new msg) b n t s = elim (Bool-cases (eqb_ℤ msg.order.quantity_lots (pos 0))) [
  | inl e ↦ rw e (omega arith)
  | inr e ↦ rw e (of_type-Small msg.order_type (meets msg b) (finds_none msg b) n t s)
]

module _ {Q : Type 0} (try_emplace : Q → MessageResponse → Q) where
  pub kinds-Small :
      (rs : List NewRequest) (b : OrderBook) (q : Q) (t : Kinds)
      → Small (length rs) t
      → Small 0 (kinds try_emplace rs b q t)
  unfolding kinds
  kinds-Small [] b q t s = s
  kinds-Small (r ∷ rs) b q t s =
      let next = of_kind-Small r b (length rs) t s in
      elim (Option-cases (visit try_emplace r b q)) [
        | inl e ↦ rw (kinds, e) (omega (arith, next))
        | inr (x, e) ↦ rw (kinds, e) (kinds-Small rs x.0 x.1 (of_kind r b t) next)
      ]

pub Limited-Agrees :
    {t : Kinds} {k k' : Counters} {cross idle : Bool}
    → Agrees t k
    → Small 1 t
    → Limited k cross idle k'
    → Agrees (of_type buy_limit cross idle t) k'
Limited-Agrees a s (rested idle) = ground arith
Limited-Agrees a s (crossed_filled idle) = ground arith
Limited-Agrees a s (crossed_rested idle) = ground arith

pub Cancelled-Agrees :
    {t : Kinds} {k k' : Counters} {miss : Bool}
    → Agrees t k
    → Small 1 t
    → Cancelled k miss k'
    → Agrees (record t { cancels = t.cancels + 1; missing = t.missing + one_if miss }) k'
Cancelled-Agrees a s found = ground arith
Cancelled-Agrees a s missed = ground arith

pub market-Agrees :
    (cross idle : Bool) (t : Kinds) (k : Counters)
    → Agrees t k
    → Small 1 t
    → Agrees (of_type buy cross idle t) (after_market idle k)
unfolding after_market
market-Agrees cross idle t k a s = ground arith

-- What is printed, given the numbers of requests of each kind.
pub record IsSummary (t : Kinds) (s : Summary) : Type 0 where
  pub limits : s.executed_limits ≡ t.limits
  pub markets : s.executed_markets ≡ t.markets
  pub cancels : s.executed_cancels ≡ t.cancels
  pub ends : s.resting + s.fully_filled_crosses ≡ t.limits
  pub crosses : s.resting_crosses + s.fully_filled_crosses ≡ t.crosses
  pub some_cross : t.crosses ≤ t.limits
  pub idle : s.no_ops ≡ t.idles
  pub missing : s.cancels_not_found ≡ t.missing
  pub some_miss : t.missing ≤ t.cancels

pub Agrees-IsSummary : (t : Kinds) (k : Counters) → Agrees t k → Small 0 t → IsSummary t (summary k)
unfolding summary
Agrees-IsSummary t k a s = ground arith

abbrev pub no_kinds : Kinds
no_kinds = record { limits = 0; markets = 0; cancels = 0; crosses = 0; idles = 0; missing = 0 }
