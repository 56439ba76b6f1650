-- ===== src/Matcher/Handlers/Rounds.antt =====
-- The rounds of the loop of HandleMarketOrder, one by one.
use espacekilly.Base.{
  ℕ, suc, ◌+◌, ◌≤◌, ◌<◌, ◌≡◌, refl, ◌∙◌, ◌⊎◌, inl, inr, Bool, true, false, not, some, arith, ℤ, ltb,
  if◌then◌else◌, Bool-cases,
}
use espacekilly.Types.{k_price_level_count}
use espacekilly.Matcher.Memory.{sentinel}
use espacekilly.Matcher.Handlers.{
  move, done, again, goes_on, past_limit, next_level, round, sweep, fill,
}
use espacekilly.Matcher.Handlers.Fill.{is_pos-times_direction}
use espacekilly.Matcher.Handlers.Follows.{Follows, stops_filled, stops_empty}
use espacekilly.Matcher.Handlers.NextLevel.{distance}
use espacekilly.Matcher.IntrusiveList.{is_empty, head}
use espacekilly.Matcher.OrderBook.{OrderBook, Sides, side, set_side, level_slot}
use espacekilly.Matcher.OrderBook.Counting.{on_side}
use espacekilly.Matcher.OrderBook.Invariant.{IsBookOf}
use espacekilly.Matcher.OrderBook.Index.{Keeps, Keeps-trans}
use espacekilly.Matcher.OrderBook.Reading.{best_valid}
use espacekilly.Matcher.OrdersData.Invariant.{Levels}

-- The loop ends with a book that keeps the invariant, because the order has nothing left to fill,
-- the other side is empty, or its best price is past the limit. The own side is as before.
pub record Swept (is_buy : Bool) (limit : ℕ) (b : OrderBook) (was_rests was_frees : Levels)
    (lots : ℤ) (c : OrderBook) (left : ℤ) : Type 0 where
  pub rests : Levels
  pub frees : Levels
  pub book : IsBookOf c rests frees
  pub keeps : Keeps b c was_rests was_frees rests frees
  pub ended :
      (on_side is_buy left ≡ false)
      ⊎ ((side c.counts (not is_buy) ≡ 0)
          ⊎ (past_limit is_buy limit (side c.best_idx (not is_buy)) ≡ true))
  pub own_best : side c.best_idx is_buy ≡ side b.best_idx is_buy
  pub own_count : side c.counts is_buy ≡ side b.counts is_buy
  -- Started within the limit, the loop does what the reference matching does.
  pub follows :
      past_limit is_buy limit (side b.best_idx (not is_buy)) ≡ false
      → Follows is_buy limit b was_rests lots c rests left

abbrev pub measure : Bool → OrderBook → ℕ
measure is_buy b = side b.counts (not is_buy) + distance is_buy (side b.best_idx (not is_buy))

abbrev pub Sweeps : ℕ → Bool → ℕ → OrderBook → Levels → Levels → ℤ → Type 0
Sweeps fuel is_buy limit b rests frees lots =
    (c : OrderBook) × (left : ℤ) × (sweep fuel is_buy limit b lots ≡ some (c, left))
    × Swept is_buy limit b rests frees lots c left

-- Enough fuel: one round ends the loop where it does not go on, and each other round lowers the
-- measure or leaves nothing to fill.
abbrev pub Enough : ℕ → Bool → OrderBook → ℤ → Type 0
Enough fuel is_buy b lots =
    (0 < fuel)
    × (on_side is_buy lots ≡ true → 0 < side b.counts (not is_buy) → measure is_buy b + 2 ≤ fuel)

pub sweep-done :
    (fuel : ℕ) (is_buy : Bool) (limit : ℕ) (b c : OrderBook) (lots left : ℤ)
    → round is_buy limit b lots ≡ done c left
    → sweep (suc fuel) is_buy limit b lots ≡ some (c, left)
unfolding sweep
sweep-done fuel is_buy limit b c lots left e = rw (sweep, e)

pub sweep-again :
    (fuel : ℕ) (is_buy : Bool) (limit : ℕ) (b c : OrderBook) (lots left : ℤ)
    → round is_buy limit b lots ≡ again c left
    → sweep (suc fuel) is_buy limit b lots ≡ sweep fuel is_buy limit c left
unfolding sweep
sweep-again fuel is_buy limit b c lots left e = rw (sweep, e)

-- How a round carries over what the rounds behind it do.
abbrev pub Carries : Bool → ℕ → OrderBook → Levels → ℤ → OrderBook → Levels → ℤ → Type 0
Carries is_buy limit b rests lots c rests' lots' =
    past_limit is_buy limit (side b.best_idx (not is_buy)) ≡ false
    → (past_limit is_buy limit (side c.best_idx (not is_buy)) ≡ false)
      × ((e : OrderBook) (rests'' : Levels) (left : ℤ)
          → Follows is_buy limit c rests' lots' e rests'' left
          → Follows is_buy limit b rests lots e rests'' left)

-- The rounds that follow on a round, seen from the start of it.
pub Swept-trans :
    {is_buy : Bool} {limit : ℕ} {b c e : OrderBook} {rests frees rests' frees' : Levels}
    {lots lots' left : ℤ}
    → side c.best_idx is_buy ≡ side b.best_idx is_buy
    → side c.counts is_buy ≡ side b.counts is_buy
    → Keeps b c rests frees rests' frees'
    → Carries is_buy limit b rests lots c rests' lots'
    → Swept is_buy limit c rests' frees' lots' e left
    → Swept is_buy limit b rests frees lots e left
Swept-trans {e} {left} p q k carries s = record {
  rests = s.rests;
  frees = s.frees;
  book = s.book;
  keeps = Keeps-trans k s.keeps;
  ended = s.ended;
  own_best = s.own_best ∙ p;
  own_count = s.own_count ∙ q;
  follows = λ near. let (near', onward) = carries near in onward e s.rests left (s.follows near');
}

module _ (is_buy : Bool) (limit : ℕ) (b : OrderBook) (lots : ℤ) where
  pub round-stops : goes_on is_buy b lots ≡ false → round is_buy limit b lots ≡ done b lots
  unfolding round
  round-stops e = rw (round, e)

  abbrev pub moved : OrderBook
  moved = record b {
    best_idx = set_side b.best_idx (not is_buy) (move is_buy (side b.best_idx (not is_buy)));
  }

  pub round-empty :
      side b.best_idx (not is_buy) < k_price_level_count
      → goes_on is_buy b lots ≡ true
      → is_empty b.orders_data.heap (sentinel (side b.best_idx (not is_buy))) ≡ true
      → round is_buy limit b lots ≡ (
          if past_limit is_buy limit (move is_buy (side b.best_idx (not is_buy)))
          then done moved lots
          else again moved lots)
  unfolding round next_level
  round-empty h e i =
      let m : level_slot (side b.best_idx (not is_buy)) ≡ side b.best_idx (not is_buy) =
        omega arith in
      rw (round, m, e, i)

  pub round-filled :
      (c : OrderBook) (left : ℤ)
      → side b.best_idx (not is_buy) < k_price_level_count
      → goes_on is_buy b lots ≡ true
      → is_empty b.orders_data.heap (sentinel (side b.best_idx (not is_buy))) ≡ false
      → fill is_buy b (head b.orders_data.heap (sentinel (side b.best_idx (not is_buy)))) lots
        ≡ some (c, left)
      → round is_buy limit b lots ≡ again c left
  unfolding round
  round-filled c left h e i f =
      let m : level_slot (side b.best_idx (not is_buy)) ≡ side b.best_idx (not is_buy) =
        omega arith in
      rw (round, m, e, i, f)

pub side-set_side : (c : Sides) (s : Bool) (v : ℕ) → side (set_side c s v) s ≡ v
side-set_side c true v = refl
side-set_side c false v = refl

pub side-set_side-other : (c : Sides) (s : Bool) (v : ℕ) → side (set_side c (not s) v) s ≡ side c s
side-set_side-other c true v = refl
side-set_side-other c false v = refl

-- A round that starts is one of an order with lots, at a level, before a side with orders.
pub starts :
    (is_buy : Bool) (b : OrderBook) (lots : ℤ)
    → goes_on is_buy b lots ≡ true
    → (0 < side b.counts (not is_buy)) × (on_side is_buy lots ≡ true)
starts is_buy b lots e = let p = is_pos-times_direction is_buy lots in ground arith

pub does_not :
    (is_buy : Bool) (limit : ℕ) (b : OrderBook) {rests frees : Levels} (lots : ℤ)
    → IsBookOf b rests frees
    → goes_on is_buy b lots ≡ false
    → Swept is_buy limit b rests frees lots b lots
does_not is_buy limit b {rests} {frees} lots v e = record {
  rests = rests;
  frees = frees;
  book = v;
  keeps = record {
    room = λ l. omega arith;
    read = refl;
    index = refl;
    stays = λ l p hl m. (m, refl);
    found = λ p f. f;
    cursors = λ k. k;
  };
  ended = elim why [ inl off ↦ inl off | inr z ↦ inr (inl z) ];
  own_best = refl;
  own_count = refl;
  follows = λ _. elim why [
    | inl off ↦ stops_filled is_buy limit b lots v off
    | inr z ↦ stops_empty is_buy limit b lots v z
  ];
}
  where
    why : (on_side is_buy lots ≡ false) ⊎ (side b.counts (not is_buy) ≡ 0)
    why = elim (Bool-cases (ltb 0 (side b.counts (not is_buy)))) [
      | inl c ↦
          let p = is_pos-times_direction is_buy lots in
          let h = best_valid v (not is_buy) (ground arith) in inl (ground arith)
      | inr c ↦ inr (ground arith)
    ]
