-- ===== src/Matcher/Handlers/Sweep.antt =====
-- The loop of HandleMarketOrder ends, and keeps the invariant.
use espacekilly.Base.{
  ℕ, zero, suc, ◌+◌, ◌≤◌, ◌<◌, ◌≡◌, refl, ap, ◌∙◌, inl, inr, Bool, true, false, not, List, [], ◌∷◌,
  arith, ℤ, ◌+ℤ◌, Bool-cases,
}
use espacekilly.Types.{k_price_level_count}
use espacekilly.Matcher.Memory.{Ptr, sentinel}
use espacekilly.Matcher.Handlers.{move, done, again, goes_on, past_limit, round}
use espacekilly.Matcher.Handlers.Fill.{Counts}
use espacekilly.Matcher.Handlers.Filling.{fill_lem}
use espacekilly.Matcher.Handlers.Follows.{Follows, stops_past}
use espacekilly.Matcher.Handlers.NextLevel.{distance, move_in_range, move-IsBook}
use espacekilly.Matcher.IntrusiveList.{is_empty, head}
use espacekilly.Matcher.OrderBook.{OrderBook, side}
use espacekilly.Matcher.OrderBook.Counting.{on_side}
use espacekilly.Matcher.OrderBook.Invariant.{IsBookOf}
use espacekilly.Matcher.OrderBook.Index.{Keeps}
use espacekilly.Matcher.OrderBook.Reading.{ring_cases, best_valid}
use espacekilly.Matcher.OrdersData.Invariant.{Levels}
use espacekilly.Matcher.Handlers.Rounds.{
  Swept, Carries, measure, Sweeps, Enough, sweep-done, sweep-again, Swept-trans, round-stops, moved,
  round-empty, round-filled, side-set_side, side-set_side-other, starts, does_not,
}

abbrev pub Induction : ℕ → Type 0
Induction fuel =
    (is_buy : Bool) (limit : ℕ) (b : OrderBook) (rests frees : Levels) (lots : ℤ)
    → IsBookOf b rests frees
    → Enough fuel is_buy b lots
    → Sweeps fuel is_buy limit b rests frees lots

sweep_stopping :
    (fuel : ℕ) (is_buy : Bool) (limit : ℕ) (b c : OrderBook) (rests frees : Levels) (lots left : ℤ)
    → round is_buy limit b lots ≡ done c left
    → Swept is_buy limit b rests frees lots c left
    → Sweeps (suc fuel) is_buy limit b rests frees lots
sweep_stopping fuel is_buy limit b c rests frees lots left e s =
    (c, left, sweep-done fuel is_buy limit b c lots left e, s)

sweep_going :
    (fuel : ℕ) (is_buy : Bool) (limit : ℕ) (b c : OrderBook) (rests frees rests' frees' : Levels)
    (lots left : ℤ)
    → round is_buy limit b lots ≡ again c left
    → side c.best_idx is_buy ≡ side b.best_idx is_buy
    → side c.counts is_buy ≡ side b.counts is_buy
    → Keeps b c rests frees rests' frees'
    → Carries is_buy limit b rests lots c rests' left
    → Sweeps fuel is_buy limit c rests' frees' left
    → Sweeps (suc fuel) is_buy limit b rests frees lots
sweep_going fuel is_buy limit b c rests frees rests' frees' lots left e p q k carries
      (f, rest, run, s) =
    (f, rest, sweep-again fuel is_buy limit b c lots left e ∙ run, Swept-trans p q k carries s)

-- The round at an empty level.
module _ (fuel : ℕ) (ih : Induction fuel) (is_buy : Bool) (limit : ℕ) (b : OrderBook)
    {rests frees : Levels} (lots : ℤ) (v : IsBookOf b rests frees)
    (enough : Enough (suc fuel) is_buy b lots) (go : goes_on is_buy b lots ≡ true) where
  level : side b.best_idx (not is_buy) < k_price_level_count
  level = best_valid v (not is_buy) (starts is_buy b lots go).0

  -- The queues do not depend on the best prices.
  moved-Follows :
      (e : OrderBook) (rests' : Levels) (left : ℤ)
      → Follows is_buy limit (moved is_buy limit b lots) rests lots e rests' left
      → Follows is_buy limit b rests lots e rests' left
  moved-Follows e rests' left f = record {
    queue = f.queue;
    lots_left = f.lots_left;
    reports = f.reports;
    own = f.own;
  }

  at_empty :
      rests (side b.best_idx (not is_buy)) ≡ []
      → is_empty b.orders_data.heap (sentinel (side b.best_idx (not is_buy))) ≡ true
      → Sweeps (suc fuel) is_buy limit b rests frees lots
  at_empty none_rests e =
      let (count, on) = starts is_buy b lots go in
      let best = move is_buy (side b.best_idx (not is_buy)) in
      let c = moved is_buy limit b lots in
      let stay : Keeps b c rests frees rests frees = record {
        room = λ l. omega arith;
        read = refl;
        index = refl;
        stays = λ l p hl m. (m, refl);
        found = λ p f. f;
        cursors = λ k. k;
      } in
      let w = move-IsBook v is_buy count none_rests in
      let (_, nearer) = move_in_range v is_buy count none_rests in
      let r = round-empty is_buy limit b lots level go e in
      let new = side-set_side b.best_idx (not is_buy) best in
      let own = side-set_side-other b.best_idx is_buy best in
      elim (Bool-cases (past_limit is_buy limit best)) [
        | inl past ↦
            sweep_stopping fuel is_buy limit b c rests frees lots lots (rw past at r) (record {
              rests = rests;
              frees = frees;
              book = w;
              keeps = stay;
              ended = inr (inr (rw new past));
              own_best = own;
              own_count = refl;
              follows =
                  λ _. moved-Follows c rests lots (stops_past is_buy limit c lots w (rw new past));
            })
        | inr within ↦
            let m = enough.1 on count in
            sweep_going fuel is_buy limit b c rests frees rests frees lots lots (rw within at r) own
              refl stay (λ _. (rw new within, moved-Follows))
              (ih is_buy limit c rests frees lots w
                (omega arith, λ _ _. omega (arith, nearer, ap (distance is_buy) new, m)))
      ]

  at_filled :
      (ys : List Ptr)
      → rests (side b.best_idx (not is_buy))
        ≡ head b.orders_data.heap (sentinel (side b.best_idx (not is_buy))) ∷ ys
      → is_empty b.orders_data.heap (sentinel (side b.best_idx (not is_buy))) ≡ false
      → Sweeps (suc fuel) is_buy limit b rests frees lots
  at_filled ys stands e =
      let (count, on) = starts is_buy b lots go in
      let m = enough.1 on count in
      let n = head b.orders_data.heap (sentinel (side b.best_idx (not is_buy))) in
      let left = lots +ℤ b.orders_data.heap.quantity_lots n in
      let (c, rests', frees', run, w, keeps, same, counts, onward) =
        fill_lem b v is_buy n ys lots level stands count in
      let best = ap (λ s. side s (not is_buy)) same in
      sweep_going fuel is_buy limit b c rests frees rests' frees' lots left
        (round-filled is_buy limit b lots c left level go e run) (ap (λ s. side s is_buy) same)
        (own_count c is_buy left counts) keeps
        (λ near. (ap (past_limit is_buy limit) best ∙ near, onward limit near on))
        (ih is_buy limit c rests' frees' left w
          (omega arith, λ k _. lower c is_buy left counts best k m))
    where
      own_count :
          (c : OrderBook) (is_buy : Bool) (left : ℤ)
          → Counts is_buy b.counts c.counts left
          → side c.counts is_buy ≡ side b.counts is_buy
      own_count c is_buy left (inl (_, q)) = ap (λ s. side s is_buy) q
      own_count c is_buy left (inr (_, _, q)) = q

      lower :
          (c : OrderBook) (is_buy : Bool) (left : ℤ)
          → Counts is_buy b.counts c.counts left
          → side c.best_idx (not is_buy) ≡ side b.best_idx (not is_buy)
          → on_side is_buy left ≡ true
          → measure is_buy b + 2 ≤ suc fuel
          → measure is_buy c + 2 ≤ fuel
      lower c is_buy left (inl (k, _)) best on m = absurd (ground arith)
      lower c is_buy left (inr (_, q, _)) best on m = omega (arith, q, ap (distance is_buy) best, m)

-- With enough fuel, the loop ends on a book with the invariant.
pub sweep-Swept : (fuel : ℕ) → Induction fuel
sweep-Swept zero is_buy limit b rests frees lots v enough = absurd (omega (arith, enough.0))
sweep-Swept (suc fuel) is_buy limit b rests frees lots v enough =
    elim (Bool-cases (goes_on is_buy b lots)) [
      | inr stop ↦
          sweep_stopping fuel is_buy limit b b rests frees lots lots
            (round-stops is_buy limit b lots stop) (does_not is_buy limit b lots v stop)
      | inl go ↦
          let ih = sweep-Swept fuel in
          let l = level fuel ih is_buy limit b lots v enough go in
          let ring = (v.pool.level (side b.best_idx (not is_buy)) l).ring in
          elim (ring_cases b.orders_data.heap (sentinel (side b.best_idx (not is_buy)))
            (rests (side b.best_idx (not is_buy))) ring) [
              | inl (e, i) ↦ at_empty fuel ih is_buy limit b lots v enough go e i
              | inr (ys, e, i) ↦ at_filled fuel ih is_buy limit b lots v enough go ys e i
            ]
    ]
