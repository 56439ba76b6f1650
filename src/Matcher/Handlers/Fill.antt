-- ===== src/Matcher/Handlers/Fill.antt =====
-- The loop of HandleMarketOrder at a level with orders: the oldest one is filled, in part or
-- in full.
use native.Mathlib.Decide.{ℕ_discrete}
use mathlib.Core.Path.{fun_ext}
use espacekilly.Base.{
  update_self, update_ne, ◌+◌, ◌≡◌, ◌≢◌, refl, sym, ap, ◌∙◌, ◌⊎◌, Bool, true, false, not, some,
  arith, ℤ, pos, ◌+ℤ◌, is_pos, is_neg, ◌==◌, update,
}
use espacekilly.Types.{Result, filled, partially_filled, MessageResponse, k_price_level_count}
use espacekilly.Matcher.Memory.{Ptr, null, order_at}
use espacekilly.Matcher.Handlers.{times_direction, fill}
use espacekilly.Matcher.OrderBook.{OrderBook, Sides, side, set_side, inc, dec, fulfilled_slot}
use espacekilly.Matcher.OrderBook.Counting.{on_side, count_on-same, total-same}
use espacekilly.Matcher.OrderBook.Invariant.{IsBook}
use espacekilly.Matcher.OrdersData.{OrdersData, drop_node}
use espacekilly.Matcher.OrdersData.Invariant.{IsPool, Levels, IsLevel-same}

-- Direction and side: a buy has lots to fill while they are positive, and fills asks.
pub is_pos-times_direction :
    (is_buy : Bool) (x : ℤ) → is_pos (times_direction is_buy x) ≡ on_side is_buy x
is_pos-times_direction true x = refl
is_pos-times_direction false x = ground arith

pub is_neg-times_direction :
    (is_buy : Bool) (x : ℤ) → is_neg (times_direction is_buy x) ≡ on_side (not is_buy) x
is_neg-times_direction true x = refl
is_neg-times_direction false x = ground arith

-- The pool with other lots in one node.
abbrev pub with_lots : OrdersData → Ptr → ℤ → OrdersData
with_lots d n v =
    let h = d.heap in record d { heap = record h { quantity_lots = update h.quantity_lots n v } }

pub with_lots-IsPool :
    {d : OrdersData} {rests frees : Levels} (n : Ptr) (v : ℤ)
    → IsPool d rests frees
    → IsPool (with_lots d n v) rests frees
with_lots-IsPool {d} n v pool = record {
  level =
      λ l hl. IsLevel-same d (with_lots d n v) l (λ p near. (refl, refl)) refl (pool.level l hl);
}

-- The books that `fill` may lead to, given the pool, the counters and the report of the fill.
abbrev pub filled_book : OrderBook → OrdersData → Sides → MessageResponse → OrderBook
filled_book b d counts report = record b {
  fulfilled = update b.fulfilled (fulfilled_slot b.filled_write_idx) report;
  filled_write_idx = inc b.filled_write_idx;
  counts = counts;
  orders_data = d;
}

abbrev pub report : OrderBook → Ptr → ℤ → Result → MessageResponse
report b n left result = record {
  order = some (order_at (with_lots b.orders_data n left).heap n);
  result = result;
}

module _ (is_buy : Bool) (b : OrderBook) (n : Ptr) (lots : ℤ) where
  abbrev pub new_lots : ℤ
  new_lots = lots +ℤ b.orders_data.heap.quantity_lots n

  abbrev pub partly : OrderBook
  partly =
      filled_book b (with_lots b.orders_data n new_lots) b.counts
        (report b n new_lots partially_filled)

  abbrev pub fully : OrdersData → OrderBook
  fully e =
      filled_book b e (set_side b.counts (not is_buy) (dec (side b.counts (not is_buy))))
        (report b n (pos 0) filled)

  set_side-side : (c : Sides) (s : Bool) → set_side c s (side c s) ≡ c
  set_side-side c true = refl
  set_side-side c false = refl

  pub fill-partly :
      n ≢ null
      → is_neg (times_direction is_buy new_lots) ≡ true
      → fill is_buy b n lots ≡ some (partly, new_lots)
  unfolding fill
  fill-partly n_ok neg =
      let n0 : (n == null) ≡ false = ground arith in rw (fill, neg, n0, set_side-side)

  pub fill-fully :
      (e : OrdersData)
      → n ≢ null
      → is_neg (times_direction is_buy new_lots) ≡ false
      → drop_node (with_lots b.orders_data n (pos 0)) n ≡ some e
      → fill is_buy b n lots ≡ some (fully e, new_lots)
  unfolding fill
  fill-fully e n_ok neg dropped =
      let n0 : (n == null) ≡ false = ground arith in rw (fill, neg, n0, dropped)

same_sides :
    (s t : Bool) (x y : ℤ) → on_side s x ≡ true → on_side s y ≡ true → on_side t x ≡ on_side t y
same_sides s t x y p q = ground arith

pub update-update : (f : Ptr → ℤ) (n : Ptr) (v w : ℤ) → update (update f n v) n w ≡ update f n w
update-update f n v w = fun_ext λ q. ground arith

-- The oldest order of a level, changed but still on its side.
module _ {d : OrdersData} {counts best : Sides} {rests frees : Levels}
    (b : IsBook d counts best rests frees) (s : Bool) (n : Ptr) (v : ℤ)
    (old : on_side s (d.heap.quantity_lots n) ≡ true) (new : on_side s v ≡ true) where
  pub with_lots-IsBook : IsBook (with_lots d n v) counts best rests frees
  with_lots-IsBook = record {
    pool = with_lots-IsPool n v b.pool;
    full = b.full;
    placed = λ l p hl m.
        let (t, on, w) = b.placed l p hl m in
        elim (ℕ_discrete n p) [
          | yes e ↦ (
            t,
            rw (← e, update_self d.heap.quantity_lots n v)
                (same_sides s t v (d.heap.quantity_lots n) new old
                  ∙ ap (λ q. on_side t (d.heap.quantity_lots q)) e
                  ∙ on),
            w,
          )
          | no ne ↦ (t, rw (update_ne d.heap.quantity_lots v ne) on, w)
        ];
    counted = λ t.
        b.counted t
        ∙ sym (
            total-same _ _ k_price_level_count λ m hm.
              count_on-same t d.heap.quantity_lots n v (rests m)
                (same_sides s t v (d.heap.quantity_lots n) new old));
    best_ok = b.best_ok;
    uncrossed = b.uncrossed;
  }

-- How a fill leaves the counter of the other side.
abbrev pub Counts : Bool → Sides → Sides → ℤ → Type 0
Counts is_buy before after left =
    ((on_side (not is_buy) left ≡ true) × (after ≡ before))
    ⊎ ((on_side (not is_buy) left ≡ false)
        × (side after (not is_buy) + 1 ≡ side before (not is_buy))
        × (side after is_buy ≡ side before is_buy))
