-- ===== src/Matcher/Handlers/Follows.antt =====
-- The loop of HandleMarketOrder follows the reference matching of Matcher.Priority, round by round.
use espacekilly.Base.{
  ℕ, ◌≡◌, refl, sym, ap, ◌∙◌, inl, inr, Bool, true, false, not, List, [], ◌∷◌, arith, ℤ, pos, ◌+ℤ◌,
  Bool-cases, Bool-cases,
}
use espacekilly.Types.{Order}
use espacekilly.Matcher.Handlers.{past_limit}
use espacekilly.Matcher.OrderBook.{OrderBook, side}
use espacekilly.Matcher.OrderBook.Counting.{on_side}
use espacekilly.Matcher.OrderBook.Invariant.{Within, IsBookOf}
use espacekilly.Matcher.OrderBook.View.{view}
use espacekilly.Matcher.OrderBook.View.Front.{view_front, view_empty}
use espacekilly.Matcher.OrdersData.Invariant.{Levels}
use espacekilly.Matcher.Priority.{
  Entry, wants_more, worse, fill_report, Matched, match_orders, logged,
}

-- Nothing is matched.
abbrev pub nothing : List Entry → ℤ → Matched
nothing es lots = record { queue = es; left = lots; reports = [] }

module _ (is_buy : Bool) (limit : ℕ) where
  match-stops :
      (es : List Entry) (lots : ℤ)
      → wants_more is_buy lots ≡ false
      → match_orders is_buy limit es lots ≡ nothing es lots
  unfolding match_orders
  match-stops [] lots off = refl
  match-stops ((price, o) ∷ es) lots off = rw off refl

  match-worse :
      (price : ℕ) (o : Order) (es : List Entry) (lots : ℤ)
      → worse is_buy limit price ≡ true
      → match_orders is_buy limit ((price, o) ∷ es) lots ≡ nothing ((price, o) ∷ es) lots
  unfolding match_orders
  match-worse price o es lots w = elim (Bool-cases (wants_more is_buy lots)) [
    | inl e ↦ rw (e, w) refl
    | inr e ↦ rw e refl
  ]

  module _ (price : ℕ) (o : Order) (es : List Entry) (lots : ℤ)
      (more : wants_more is_buy lots ≡ true) (near : worse is_buy limit price ≡ false) where
    match_part :
        wants_more (not is_buy) (lots +ℤ o.quantity_lots) ≡ true
        → match_orders is_buy limit ((price, o) ∷ es) lots ≡ record {
          queue = (price, record { id = o.id; quantity_lots = lots +ℤ o.quantity_lots }) ∷ es;
          left = lots +ℤ o.quantity_lots;
          reports = fill_report o (lots +ℤ o.quantity_lots) false ∷ [];
        }
    unfolding match_orders
    match_part over = rw (more, near, over) refl

    match_full :
        wants_more (not is_buy) (lots +ℤ o.quantity_lots) ≡ false
        → let rest = match_orders is_buy limit es (lots +ℤ o.quantity_lots) in
          match_orders is_buy limit ((price, o) ∷ es) lots
          ≡ record rest { reports = fill_report o (pos 0) true ∷ rest.reports }
    unfolding match_orders
    match_full under = rw (more, near, under) refl

-- From `b` to `c` the loop does what the reference does with the queue of the other side.
pub record Follows (is_buy : Bool) (limit : ℕ) (b : OrderBook) (rests : Levels) (lots : ℤ)
    (c : OrderBook) (rests' : Levels) (left : ℤ) : Type 0 where
  pub queue :
      view (not is_buy) c rests'
      ≡ (match_orders is_buy limit (view (not is_buy) b rests) lots).queue
  pub lots_left : left ≡ (match_orders is_buy limit (view (not is_buy) b rests) lots).left
  pub reports :
      (c.fulfilled, c.filled_write_idx)
      ≡ logged
          (match_orders is_buy limit (view (not is_buy) b rests) lots).reports
          b.fulfilled
          b.filled_write_idx
  pub own : view is_buy c rests' ≡ view is_buy b rests

-- Where the reference does nothing, so may the loop.
pub Follows-nothing :
    (is_buy : Bool) (limit : ℕ) (b : OrderBook) (rests : Levels) (lots : ℤ)
    → match_orders is_buy limit (view (not is_buy) b rests) lots
      ≡ nothing (view (not is_buy) b rests) lots
    → Follows is_buy limit b rests lots b rests lots
Follows-nothing is_buy limit b rests lots e = record {
  queue = sym (ap (λ m. m.queue) e);
  lots_left = sym (ap (λ m. m.left) e);
  reports = sym (ap (λ m. logged m.reports b.fulfilled b.filled_write_idx) e);
  own = refl;
}

-- A price past the limit is worse than the limit, and so are those behind it.
past_worse :
    (is_buy : Bool) (limit best l : ℕ)
    → Within (not is_buy) best l
    → past_limit is_buy limit best ≡ true
    → worse is_buy limit l ≡ true
past_worse true limit best l w p = ground arith
past_worse false limit best l w p = ground arith

near_in_reach :
    (is_buy : Bool) (limit best : ℕ)
    → past_limit is_buy limit best ≡ false
    → worse is_buy limit best ≡ false
near_in_reach true limit best p = ground arith
near_in_reach false limit best p = ground arith

-- The loop stops where the reference does: nothing is left to fill, no order is left on the other
-- side, or the best price is past the limit.
module _ (is_buy : Bool) (limit : ℕ) (b : OrderBook) {rests frees : Levels} (lots : ℤ)
    (v : IsBookOf b rests frees) where
  pub stops_filled : on_side is_buy lots ≡ false → Follows is_buy limit b rests lots b rests lots
  stops_filled off =
      Follows-nothing is_buy limit b rests lots
        (match-stops is_buy limit (view (not is_buy) b rests) lots off)

  pub stops_empty : side b.counts (not is_buy) ≡ 0 → Follows is_buy limit b rests lots b rests lots
  unfolding match_orders
  stops_empty z =
      let e : view (not is_buy) b rests ≡ [] = view_empty v (not is_buy) z in
      Follows-nothing is_buy limit b rests lots (rw e refl)

  pub stops_past :
      past_limit is_buy limit (side b.best_idx (not is_buy)) ≡ true
      → Follows is_buy limit b rests lots b rests lots
  unfolding match_orders
  stops_past past = Follows-nothing is_buy limit b rests lots (elim (view_front v (not is_buy)) [
    | inl e ↦ rw e refl
    | inr (l, o, rest, e, w) ↦ rw e (
        match-worse is_buy limit l o rest lots
          (past_worse is_buy limit (side b.best_idx (not is_buy)) l w past))
  ])

-- The round that fills the order at the front, and the rounds behind it.
module _ (is_buy : Bool) (limit : ℕ) (b c : OrderBook) (rests rests' : Levels) (o : Order)
    (es : List Entry) (lots : ℤ)
    (before : view (not is_buy) b rests ≡ (side b.best_idx (not is_buy), o) ∷ es)
    (own : view is_buy c rests' ≡ view is_buy b rests)
    (near : past_limit is_buy limit (side b.best_idx (not is_buy)) ≡ false)
    (more : on_side is_buy lots ≡ true) where
  abbrev new : ℤ
  new = lots +ℤ o.quantity_lots

  pub Follows-part :
      on_side (not is_buy) new ≡ true
      → view (not is_buy) c rests'
        ≡ (side b.best_idx (not is_buy), record { id = o.id; quantity_lots = new }) ∷ es
      → (c.fulfilled, c.filled_write_idx)
        ≡ logged (fill_report o new false ∷ []) b.fulfilled b.filled_write_idx
      → (e : OrderBook) (rests'' : Levels) (left : ℤ)
      → Follows is_buy limit c rests' new e rests'' left
      → Follows is_buy limit b rests lots e rests'' left
  Follows-part over after log e rests'' left f =
      let m =
        ap (λ q. match_orders is_buy limit q lots) before
        ∙ match_part is_buy limit (side b.best_idx (not is_buy)) o es lots more
            (near_in_reach is_buy limit (side b.best_idx (not is_buy)) near) over in
      let stop =
        match-stops is_buy limit (view (not is_buy) c rests') new (sides_differ is_buy new over) in
      record {
        queue = f.queue ∙ ap (λ m. m.queue) stop ∙ after ∙ sym (ap (λ m. m.queue) m);
        lots_left = f.lots_left ∙ ap (λ m. m.left) stop ∙ sym (ap (λ m. m.left) m);
        reports =
            f.reports
            ∙ ap (λ m. logged m.reports c.fulfilled c.filled_write_idx) stop
            ∙ log
            ∙ sym (ap (λ m. logged m.reports b.fulfilled b.filled_write_idx) m);
        own = f.own ∙ own;
      }
    where
      sides_differ :
          (is_buy : Bool) (x : ℤ) → on_side (not is_buy) x ≡ true → on_side is_buy x ≡ false
      sides_differ is_buy x h = ground arith

  pub Follows-full :
      on_side (not is_buy) new ≡ false
      → view (not is_buy) c rests' ≡ es
      → (c.fulfilled, c.filled_write_idx)
        ≡ logged (fill_report o (pos 0) true ∷ []) b.fulfilled b.filled_write_idx
      → (e : OrderBook) (rests'' : Levels) (left : ℤ)
      → Follows is_buy limit c rests' new e rests'' left
      → Follows is_buy limit b rests lots e rests'' left
  Follows-full under after log e rests'' left f =
      let m =
        ap (λ q. match_orders is_buy limit q lots) before
        ∙ match_full is_buy limit (side b.best_idx (not is_buy)) o es lots more
            (near_in_reach is_buy limit (side b.best_idx (not is_buy)) near) under in
      let go = ap (λ q. match_orders is_buy limit q new) after in
      record {
        queue = f.queue ∙ ap (λ m. m.queue) go ∙ sym (ap (λ m. m.queue) m);
        lots_left = f.lots_left ∙ ap (λ m. m.left) go ∙ sym (ap (λ m. m.left) m);
        reports =
            f.reports
            ∙ ap (λ m. logged m.reports c.fulfilled c.filled_write_idx) go
            ∙ ap (λ p. logged (match_orders is_buy limit es new).reports p.0 p.1) log
            ∙ sym (ap (λ m. logged m.reports b.fulfilled b.filled_write_idx) m);
        own = f.own ∙ own;
      }
