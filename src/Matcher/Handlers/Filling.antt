-- ===== src/Matcher/Handlers/Filling.antt =====
-- The round of the loop of HandleMarketOrder at a level with orders: `fill` succeeds, keeps the
-- invariant, and does what the reference matching does with the front of the queue.
use native.Mathlib.Decide.{ℕ_discrete}
use espacekilly.Base.{
  update_self, update_ne, ℕ, ◌+◌, ◌≤◌, ◌<◌, ◌≡◌, ◌^◌, ◌≢◌, refl, sym, ap, ◌∙◌, subst, length, inl,
  inr, Bool, true, false, not, some, List, [], ◌∷◌, arith, ℤ, pos, ◌+ℤ◌, update, Bool-cases,
}
use espacekilly.Types.{Result, filled, partially_filled, MessageResponse, k_price_level_count}
use espacekilly.Matcher.Memory.{Ptr, null, order_at}
use espacekilly.Matcher.Handlers.{fill}
use espacekilly.Matcher.OrderBook.{OrderBook, Sides, side, set_side, inc, dec, fulfilled_slot}
use espacekilly.Matcher.OrderBook.View.{view}
use espacekilly.Matcher.OrderBook.Counting.{on_side}
use espacekilly.Matcher.OrderBook.Invariant.{IsBookOf, count_bound}
use espacekilly.Matcher.OrderBook.Index.{Found, Found-drop, Keeps}
use espacekilly.Matcher.OrderBook.Reading.{best_side}
use espacekilly.Matcher.OrderBook.Remove.{resting-Near, still, remove-IsBook}
use espacekilly.Matcher.OrdersData.{OrdersData}
use espacekilly.Matcher.OrdersData.Drop.{drop_node-IsPool}
use espacekilly.Matcher.OrdersData.Invariant.{Levels}
use espacekilly.Matcher.Handlers.Fill.{
  is_neg-times_direction, with_lots, with_lots-IsPool, with_lots-IsBook, partly, fully, fill-partly,
  fill-fully, update-update, Counts,
}
use espacekilly.Matcher.Priority.{Entry}
use espacekilly.Matcher.Handlers.Follows.{Follows, Follows-part, Follows-full}
use espacekilly.Matcher.Handlers.{past_limit}
use espacekilly.Matcher.OrderBook.View.Consume.{
  queue_tail, view_before, view_kept, view_gone, view_own,
}

-- If the rest of the loop follows the reference, then so does this round with the rest.
abbrev pub Onward : Bool → OrderBook → Levels → ℤ → OrderBook → Levels → ℤ → Type 0
Onward is_buy b rests lots c rests' new =
    (limit : ℕ)
    → past_limit is_buy limit (side b.best_idx (not is_buy)) ≡ false
    → on_side is_buy lots ≡ true
    → (e : OrderBook) (rests'' : Levels) (left : ℤ)
    → Follows is_buy limit c rests' new e rests'' left
    → Follows is_buy limit b rests lots e rests'' left

same_side_again : (is_buy : Bool) (P : Bool → Type 0) → P (not (not is_buy)) → P is_buy
same_side_again true P p = p
same_side_again false P p = p

module _ (b : OrderBook) {rests frees : Levels} (v : IsBookOf b rests frees) (is_buy : Bool)
    (n : Ptr) (ys : List Ptr) (lots : ℤ) (hl : side b.best_idx (not is_buy) < k_price_level_count)
    (stands : rests (side b.best_idx (not is_buy)) ≡ n ∷ ys) where
  abbrev left_over : ℤ
  left_over = lots +ℤ b.orders_data.heap.quantity_lots n

  -- The order at the front with other lots, and the report on it.
  abbrev entry : ℤ → Entry
  entry x =
      (side b.best_idx (not is_buy), record { id = b.orders_data.heap.id n; quantity_lots = x })

  abbrev reported : ℤ → Result → ℕ → MessageResponse
  reported x result = update b.fulfilled (fulfilled_slot b.filled_write_idx) (record {
    order = some (record { id = b.orders_data.heap.id n; quantity_lots = x });
    result = result;
  })

  partly-Onward :
      on_side (not is_buy) left_over ≡ true
      → Onward is_buy b rests lots (partly is_buy b n lots) rests left_over
  partly-Onward over limit near more =
      let c = partly is_buy b n lots in
      let d = with_lots b.orders_data n left_over in
      let self = update_self b.orders_data.heap.quantity_lots n left_over in
      let others : (q : Ptr) → n ≢ q → d.heap.quantity_lots q ≡ b.orders_data.heap.quantity_lots q =
        λ q ne. update_ne b.orders_data.heap.quantity_lots left_over ne in
      let still : on_side (not is_buy) (d.heap.quantity_lots n) ≡ true =
        ap (on_side (not is_buy)) self ∙ over in
      let kept =
        view_kept v (not is_buy) n ys hl stands d rests (λ q _. refl) others (λ m _. refl) stands
          still in
      let own =
        view_own v (not is_buy) n ys hl stands d rests (λ q _. refl) others (λ m _. refl)
          (inr (stands, still)) in
      Follows-part is_buy limit b c rests rests (order_at b.orders_data.heap n)
        (queue_tail v (not is_buy) n ys hl stands) lots (view_before v (not is_buy) n ys hl stands)
        (same_side_again is_buy (λ t. view t c rests ≡ view t b rests) own) near more over
        (kept ∙ ap (λ x. entry x ∷ queue_tail v (not is_buy) n ys hl stands) self)
        (ap (λ x. (reported x partially_filled, inc b.filled_write_idx)) self)

  fully-Onward :
      (d : OrdersData)
      → on_side (not is_buy) left_over ≡ false
      → d.heap.id ≡ update b.orders_data.heap.id n 0
      → d.heap.quantity_lots ≡ update b.orders_data.heap.quantity_lots n (pos 0)
      → Onward is_buy b rests lots
          (fully is_buy b n lots d)
          (update rests (side b.best_idx (not is_buy)) ys)
          left_over
  fully-Onward d under ids same limit near more =
      let c = fully is_buy b n lots d in
      let best = side b.best_idx (not is_buy) in
      let others : (q : Ptr) → n ≢ q → d.heap.quantity_lots q ≡ b.orders_data.heap.quantity_lots q =
        λ q ne. ap (λ f. f q) same ∙ update_ne b.orders_data.heap.quantity_lots (pos 0) ne in
      let names : (q : Ptr) → n ≢ q → d.heap.id q ≡ b.orders_data.heap.id q =
        λ q ne. ap (λ f. f q) ids ∙ update_ne b.orders_data.heap.id 0 ne in
      let gone = update_self rests best ys in
      Follows-full is_buy limit b c rests (update rests best ys) (order_at b.orders_data.heap n)
        (queue_tail v (not is_buy) n ys hl stands) lots (view_before v (not is_buy) n ys hl stands)
        (same_side_again is_buy (λ t. view t c (update rests best ys) ≡ view t b rests)
          (view_own v (not is_buy) n ys hl stands d (update rests best ys) names others
            (λ m ne. update_ne rests ys ne) (inl gone)))
        near more under
        (view_gone v (not is_buy) n ys hl stands d (update rests best ys) names others
          (λ m ne. update_ne rests ys ne) gone)
        (ap (λ x. (reported x filled, inc b.filled_write_idx))
          (update_self b.orders_data.heap.quantity_lots n (pos 0)))

abbrev pub Filling : Bool → OrderBook → Levels → Levels → Ptr → ℤ → Type 0
Filling is_buy b rests frees n lots =
    (c : OrderBook) × (rests' : Levels) × (frees' : Levels) × (fill is_buy b n lots
      ≡ some (c, lots +ℤ b.orders_data.heap.quantity_lots n))
    × IsBookOf c rests' frees'
    × Keeps b c rests frees rests' frees'
    × (c.best_idx ≡ b.best_idx)
    × Counts is_buy b.counts c.counts (lots +ℤ b.orders_data.heap.quantity_lots n)
    × Onward is_buy b rests lots c rests' (lots +ℤ b.orders_data.heap.quantity_lots n)

pub room_grows :
    (frees : Levels) (l m : ℕ) (n : Ptr)
    → length (frees m) ≤ length (update frees l (n ∷ frees l) m)
room_grows frees l m n = elim (ℕ_discrete l m) [
  | yes e ↦ rw (← e, update_self frees l (n ∷ frees l)) (omega arith)
  | no ne ↦ rw (update_ne frees (n ∷ frees l) ne) (omega arith)
]

counts_fall :
    (c : Sides) (t : Bool)
    → 0 < side c (not t)
    → side c (not t) < 2 ^ 64
    → let after = set_side c (not t) (dec (side c (not t))) in
      (side after (not t) + 1 ≡ side c (not t)) × (side after t ≡ side c t)
counts_fall c true pos_count small = (omega arith, refl)
counts_fall c false pos_count small = (omega arith, refl)

module _ (b : OrderBook) {rests frees : Levels} (v : IsBookOf b rests frees) (is_buy : Bool)
    (n : Ptr) (ys : List Ptr) (lots : ℤ) (hl : side b.best_idx (not is_buy) < k_price_level_count)
    (stands : rests (side b.best_idx (not is_buy)) ≡ n ∷ ys) where
  on : on_side (not is_buy) (b.orders_data.heap.quantity_lots n) ≡ true
  on = best_side v (not is_buy) n hl (rw stands (ground arith))

  n_ok : n ≢ null
  n_ok = let near = resting-Near v (side b.best_idx (not is_buy)) hl [] n ys stands in ground arith

  -- Where the oldest order at the best price of the other side meets an order with lots to fill,
  -- `fill` succeeds and keeps the invariant; the best prices stay, and the counter falls by one
  -- exactly if nothing is left of the resting order.
  pub fill_lem : 0 < side b.counts (not is_buy) → Filling is_buy b rests frees n lots
  fill_lem count =
      let new = lots +ℤ b.orders_data.heap.quantity_lots n in
      let side_of = is_neg-times_direction is_buy new in
      let best = side b.best_idx (not is_buy) in
      let small : side b.counts (not is_buy) < 2 ^ 64 = omega (
        arith,
        v.counted (not is_buy),
        count_bound b.orders_data.heap.quantity_lots rests frees (not is_buy) v.full,
      ) in
      elim (Bool-cases (on_side (not is_buy) new)) [
        | inl e ↦ (
          partly is_buy b n lots,
          rests,
          frees,
          fill-partly is_buy b n lots n_ok (side_of ∙ e),
          with_lots-IsBook v (not is_buy) n new on e,
          record {
            room = λ l. omega arith;
            read = refl;
            index = refl;
            stays = λ l p hl m. (m, refl);
            found = λ p f. f;
            cursors = λ k. (k.0, omega arith);
          },
          refl,
          inl (e, refl),
          partly-Onward b v is_buy n ys lots hl stands e,
        )
        | inr e ↦
            let (d, dropped, pool, ids, same) =
              drop_node-IsPool (with_lots-IsPool n (pos 0) v.pool) best hl [] n ys stands in
            let same_lots =
              same ∙ update-update b.orders_data.heap.quantity_lots n (pos 0) (pos 0) in
            (
              fully is_buy b n lots d,
              update rests best ys,
              update frees best (n ∷ frees best),
              fill-fully is_buy b n lots d n_ok (side_of ∙ e) dropped,
              remove-IsBook v best hl [] n ys stands (not is_buy) d on pool same_lots,
              record {
                room = λ l. room_grows frees best l n;
                read = refl;
                index = refl;
                stays = λ m p hm i.
                    let (j, far) = still v best hl [] n ys stands m p hm i in
                    (j, ap (λ f. f p) ids ∙ update_ne b.orders_data.heap.id 0 far);
                cursors = λ k. (k.0, omega arith);
                found = λ p f.
                    subst (λ x. Found x (update rests best ys) p) (sym ids)
                      (Found-drop b.orders_data.heap.id rests best n [] ys stands p f);
              },
              refl,
              inr (
                e,
                (counts_fall b.counts is_buy count small).0,
                (counts_fall b.counts is_buy count small).1,
              ),
              fully-Onward b v is_buy n ys lots hl stands d e ids same_lots,
            )
      ]
