-- ===== src/Matcher/Handlers/Withdraw.antt =====
-- HandleCancellation refines the reference: the order with the id leaves its queue.
use espacekilly.Base.{
  ℕ, ◌<◌, ◌≤◌, ◌≡◌, ◌≢◌, refl, sym, ap, ap₂, ◌∙◌, inl, inr, ◌⊎◌, Bool, true, false, not, none, some,
  List, arith, is_pos, length,
}
use espacekilly.Types.{
  Order, not_found, cancelled, CancelOrderRequest, MessageResponse, k_price_level_count, arr_size,
}
use espacekilly.Matcher.Handlers.{handle_cancellation}
use espacekilly.Matcher.Handlers.Cancel.{CancelOutcome, IsQuiet, handle_cancellation-IsBook}
use espacekilly.Matcher.IntrusiveList.Ring.{has}
use espacekilly.Matcher.Memory.{Ptr, null}
use espacekilly.Matcher.OrderBook.{OrderBook}
use espacekilly.Matcher.OrderBook.Findable.{Findable, Unnamed}
use espacekilly.Matcher.OrderBook.Index.{Cursors, IsIndexed, Stays}
use espacekilly.Matcher.OrderBook.Invariant.{IsBookOf}
use espacekilly.Matcher.OrderBook.View.{view}
use espacekilly.Matcher.OrderBook.View.Named.{view-take_out}
use espacekilly.Matcher.OrderBook.View.Queues.{queues_of, queues_of-sides, queue_of-view, Serves}
use espacekilly.Matcher.OrdersData.Invariant.{Levels, Owned-has}
use espacekilly.Matcher.Priority.{Entry}
use espacekilly.Matcher.Priority.Exchange.{Queues, queue_of, queues, answered, withdraw}
use espacekilly.Matcher.Priority.Withdraw.{take_out, take_out-found}

-- The reference, by whether an order has the id.
module _ (id : ℕ) (q : Queues) where
  withdraw-none :
      take_out id q.bids ≡ none
      → take_out id q.asks ≡ none
      → withdraw id q ≡ answered (record { order = none; result = not_found }) q
  unfolding withdraw
  withdraw-none e f = rw (withdraw, e, f) refl

  withdraw-some :
      (s : Bool) (o : Order) (es : List Entry)
      → take_out id (queue_of q s) ≡ some (o, es)
      → take_out id (queue_of q (not s)) ≡ none
      → withdraw id q
        ≡ answered
            (record { order = some o; result = cancelled })
            (queues s es (queue_of q (not s)))
  unfolding withdraw
  withdraw-some true o es e f = rw (withdraw, e) refl
  withdraw-some false o es e f = rw (withdraw, f, e) refl

resting_slot :
    (b : OrderBook) {rests frees : Levels}
    → IsBookOf b rests frees
    → (l : ℕ) (p : Ptr) → l < k_price_level_count
    → has p (rests l) ≡ true
    → p ≢ null
resting_slot b {rests} v l p hl m =
    let (h, _) = Owned-has l p (rests l) (v.pool.level l hl).owned_ring m in omega arith

-- Where the index leads to no order with the id, none rests.
misses-Unnamed :
    (b : OrderBook) {rests frees : Levels} (id : ℕ)
    → IsBookOf b rests frees
    → Findable b rests
    → (b.id_to_order id ≡ null) ⊎ (b.orders_data.heap.id (b.id_to_order id) ≢ id)
    → Unnamed id b rests
misses-Unnamed b id v f out l p hl m same =
    let at = ap b.id_to_order (sym same) ∙ f l p hl m in
    elim out [
      | inl z ↦ resting_slot b v l p hl m (sym at ∙ z)
      | inr far ↦ far (ap b.orders_data.heap.id at ∙ same)
    ]

-- Once the node that the index leads to is gone, no order with the id rests.
gone-Unnamed :
    (b c : OrderBook) (rests rests' : Levels) (id : ℕ)
    → Findable b rests
    → Stays b c rests rests'
    → ((m : ℕ) → m < k_price_level_count → has (b.id_to_order id) (rests' m) ≡ false)
    → Unnamed id c rests'
gone-Unnamed b c rests rests' id f stays gone l p hl m same =
    let (m', e) = stays l p hl m in
    let at = ap b.id_to_order (sym same ∙ e) ∙ f l p hl m' in
    let h = gone l hl in let k = rw at at h in cc

-- What HandleCancellation leads to.
abbrev pub Withdrawn : CancelOrderRequest → OrderBook → Levels → Levels → Type 0
Withdrawn msg b rests frees =
    (c : OrderBook) × (r : MessageResponse) × (rests' : Levels) × (frees' : Levels)
    × (handle_cancellation msg b ≡ some (c, r))
    × IsBookOf c rests' frees'
    × IsIndexed c rests'
    × ((l : ℕ) → length (frees l) ≤ length (frees' l))
    × (Cursors b → Cursors c)
    × IsQuiet b c
    × Stays b c rests rests'
    × Serves (withdraw msg.to_cancel (queues_of b rests)) b c rests' r

outcome-Stays :
    (msg : CancelOrderRequest) (b c : OrderBook) (rests rests' : Levels) (r : MessageResponse)
    → CancelOutcome msg b rests c rests' r
    → Stays b c rests rests'
outcome-Stays msg b c rests rests' r (inl (d, same, _, _)) =
    λ l p hl m. (ap (λ f. has p (f l)) (sym same) ∙ m, ap (λ x. x.heap.id p) d)
outcome-Stays msg b c rests rests' r (inr o) =
    let (l, xs, ys, x, _, _, stays, _, _, _, _, _, _) = o in stays

outcome-Serves :
    (msg : CancelOrderRequest) (b c : OrderBook) (rests frees rests' : Levels) (r : MessageResponse)
    → IsBookOf b rests frees
    → Findable b rests
    → IsQuiet b c
    → CancelOutcome msg b rests c rests' r
    → Serves (withdraw msg.to_cancel (queues_of b rests)) b c rests' r
outcome-Serves msg b c rests frees rests' r v f quiet (inl (d, same, out, answer)) =
    let none_in = view-take_out msg.to_cancel b rests (misses-Unnamed b msg.to_cancel v f out) in
    let e = withdraw-none msg.to_cancel (queues_of b rests) (none_in true) (none_in false) in
    rw e (record {
      left = ap₂ (λ h q. queues_of (record b { orders_data = h }) q) d same;
      response = answer;
      reports = quiet.2;
    })
outcome-Serves msg b c rests frees rests' r v f quiet (inr o) =
    let (l, xs, ys, x, _, _, stays, gone, _, named, answer, apart, other) = o in
    let (es, fs, before, after) = apart in
    let id = msg.to_cancel in
    let s = is_pos x.quantity_lots in
    let q = queues_of b rests in
    let none_left = view-take_out id c rests' (gone-Unnamed b c rests rests' id f stays gone) in
    let found =
      ap (take_out id) (queue_of-view s b rests ∙ before)
      ∙ take_out-found id es l x fs named (ap (take_out id) (sym after) ∙ none_left s)
      ∙ ap (λ z. some (x, z)) (sym after) in
    let e =
      withdraw-some id q s x (view s c rests') found
        (ap (take_out id) (queue_of-view (not s) b rests ∙ sym other) ∙ none_left (not s)) in
    rw e (record {
      left =
          queues_of-sides s c rests'
          ∙ ap (queues s (view s c rests')) (other ∙ sym (queue_of-view (not s) b rests));
      response = answer;
      reports = quiet.2;
    })

-- HandleCancellation of an id that is not 0 and within the index, on a book with the invariant in
-- which each order is found under its id, does what the reference asks for: if an order with that
-- id rests on either side, it is the answer and leaves its queue, wherever it stands there, and no
-- other order does; if none does, the queues stay and the answer is that it is not found. Nothing
-- is reported in the ring of responses.
pub handle_cancellation-withdraw :
    (msg : CancelOrderRequest) (b : OrderBook) (rests frees : Levels)
    → IsBookOf b rests frees
    → IsIndexed b rests
    → Findable b rests
    → msg.to_cancel ≤ arr_size
    → msg.to_cancel ≢ 0
    → Withdrawn msg b rests frees
handle_cancellation-withdraw msg b rests frees v x f hi has_id =
    let (c, r, rests', frees', run, w, y, more, still, _, quiet, outcome) =
      handle_cancellation-IsBook msg b rests frees v x hi has_id in
    (
      c,
      r,
      rests',
      frees',
      run,
      w,
      y,
      more,
      still,
      quiet,
      outcome-Stays msg b c rests rests' r outcome,
      outcome-Serves msg b c rests frees rests' r v f quiet outcome,
    )
