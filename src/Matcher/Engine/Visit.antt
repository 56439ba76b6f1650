-- ===== src/Matcher/Engine/Visit.antt =====
-- The visitors of matchAllOrders refine the reference of Matcher.Priority.Exchange.
use espacekilly.Base.{
  ℕ, ◌+◌, ◌≤◌, ◌<◌, ◌≡◌, ◌≢◌, refl, sym, ap, ◌∙◌, ◌⊎◌, inl, inr, ◌==◌, Bool, true, false, none,
  some, [], pos, eqb_ℤ, arith, length, if◌then◌else◌, Bool-cases,
}
use espacekilly.Types.{
  MessageResponse, rejected, k_fulfilled_orders_count, arr_size, NewOrderRequest,
  CancelOrderRequest, NewRequest, new, cancel, k_price_level_count,
}
use espacekilly.Matcher.Engine.{pending, visit}
use espacekilly.Matcher.Engine.Dispatch.{is_limit, Fits, wants}
use espacekilly.Matcher.Engine.Drain.{caught_up, drain_lem}
use espacekilly.Matcher.Engine.Ring.{deliver, drained, fills-length}
use espacekilly.Matcher.Engine.Run.{new_rejected, new_dispatched, cancel_visited}
use espacekilly.Matcher.Engine.Serve.{IsServing, Signed, dispatch-Led}
use espacekilly.Matcher.Handlers.Withdraw.{handle_cancellation-withdraw}
use espacekilly.Matcher.OrderBook.{OrderBook}
use espacekilly.Matcher.OrderBook.Findable.{Unnamed, Stays-Findable, Stays-Unnamed}
use espacekilly.Matcher.OrderBook.View.Queues.{queues_of}
use espacekilly.Matcher.OrdersData.Invariant.{Levels}
use espacekilly.Matcher.Priority.Exchange.{Queues, Served, answered, by_type, withdraw, serve}

-- Is this the id of the request, a limit order?
abbrev pub takes_id : ℕ → NewRequest → Bool
takes_id k (new msg) = if is_limit msg.order_type then msg.order.id == k else false
takes_id k (cancel msg) = false

-- The type of a market order goes with its sign.
abbrev pub SignedRequest : NewRequest → Type 0
SignedRequest (new msg) = Signed msg.order_type msg.order.quantity_lots
SignedRequest (cancel msg) = Unit {0}

-- The id that is measured with a request.
abbrev pub measured_id : NewRequest → ℕ
measured_id (new msg) = if eqb_ℤ msg.order.quantity_lots (pos 0) then 0 else msg.order.id
measured_id (cancel msg) = 0

serve-rejected :
    (msg : NewOrderRequest) (q : Queues)
    → eqb_ℤ msg.order.quantity_lots (pos 0) ≡ true
    → serve (new msg) q ≡ answered (record { order = none; result = rejected }) q
unfolding serve
serve-rejected msg q e = rw e refl

serve-order :
    (msg : NewOrderRequest) (q : Queues)
    → eqb_ℤ msg.order.quantity_lots (pos 0) ≡ false
    → serve (new msg) q ≡ by_type msg.order_type msg q
unfolding serve
serve-order msg q e = rw e refl

withdraw-reports : (id : ℕ) (q : Queues) → (withdraw id q).reports ≡ []
unfolding withdraw
withdraw-reports id q = ground arith

-- A limit order finds a free node at its level.
free_node :
    (msg : NewOrderRequest) (frees : Levels)
    → (is_limit msg.order_type ≡ false)
      ⊎ ((msg.price_ticks_limit < k_price_level_count) × (msg.order.id ≤ arr_size))
    → ((l : ℕ) → l < k_price_level_count → wants l (new msg) ≤ length (frees l))
    → is_limit msg.order_type ≡ true
    → 0 < length (frees msg.price_ticks_limit)
free_node msg frees (inl e) room on = cc
free_node msg frees (inr (hp, hi)) room on =
    let k = rw on at (room msg.price_ticks_limit hp) in ground arith

module _ {Q : Type 0} (try_emplace : Q → MessageResponse → Q) where
  -- The queue once a request is served.
  abbrev pub told : Served → Q → Q
  told s q = try_emplace (deliver try_emplace s.reports q) s.response

  -- What a visitor leads to.
  pub record Visited (r : NewRequest) (b : OrderBook) (rests frees : Levels) (q : Q) (s : Served)
      : Type 0 where
    pub c : OrderBook
    pub rests' : Levels
    pub frees' : Levels
    pub run : visit try_emplace r b q ≡ some (c, told s q, length s.reports, measured_id r)
    pub serving : IsServing c rests' frees'
    pub room : (l : ℕ) → length (frees l) ≤ length (frees' l) + wants l r
    pub unnamed : (k : ℕ) → takes_id k r ≡ false → Unnamed k b rests → Unnamed k c rests'
    pub left : queues_of c rests' ≡ s.left

  visit-reject :
      (msg : NewOrderRequest) (b : OrderBook) (rests frees : Levels) (q : Q)
      → IsServing b rests frees
      → eqb_ℤ msg.order.quantity_lots (pos 0) ≡ true
      → Visited (new msg) b rests frees q (serve (new msg) (queues_of b rests))
  unfolding deliver
  visit-reject msg b rests frees q s e =
      let k = serve-rejected msg (queues_of b rests) e in
      rw k (record {
        c = b;
        rests' = rests;
        frees' = frees;
        run = rw e (new_rejected try_emplace msg b q e);
        serving = s;
        room = λ l. omega arith;
        unnamed = λ k _ u. u;
        left = refl;
      })

  visit-order :
      (msg : NewOrderRequest) (b : OrderBook) (rests frees : Levels) (q : Q)
      → IsServing b rests frees
      → Fits (new msg)
      → Signed msg.order_type msg.order.quantity_lots
      → ((l : ℕ) → l < k_price_level_count → wants l (new msg) ≤ length (frees l))
      → (is_limit msg.order_type ≡ true → Unnamed msg.order.id b rests)
      → eqb_ℤ msg.order.quantity_lots (pos 0) ≡ false
      → length (by_type msg.order_type msg (queues_of b rests)).reports ≤ k_fulfilled_orders_count
      → Visited (new msg) b rests frees q (by_type msg.order_type msg (queues_of b rests))
  visit-order msg b rests frees q s (h, fits) sign room fresh e few =
      let nonzero : msg.order.quantity_lots ≢ pos 0 = λ z. (let k = rw z at e in ground arith) in
      let (c, r, rests', frees', run, s', f, less, apart, read, serves) =
        dispatch-Led msg b rests frees s nonzero msg.order_type fits sign
          (free_node msg frees fits room) fresh in
      let reports = (by_type msg.order_type msg (queues_of b rests)).reports in
      let at =
        new_dispatched try_emplace msg b c r q e h run
          (drain_lem try_emplace (pending c) c q s'.cursors refl) in
      let said =
        drained try_emplace b c reports q s.sound.cursors.0 s.met read serves.reports few in
      let fills = fills-length b c reports s.sound.cursors.1 serves.reports few in
      let id : msg.order.id ≡ measured_id (new msg) = rw e refl in
      record {
        c = caught_up try_emplace c;
        rests' = rests';
        frees' = frees';
        run = at ∙ (λ i.
            some
              (caught_up try_emplace c, try_emplace (said i) (serves.response i), fills i, id i));
        serving = record {
          sound = record {
            book = s'.book;
            index = s'.index;
            cursors = (s'.cursors.1, s'.cursors.1);
          };
          findable = f;
          met = refl;
        };
        room = less;
        unnamed = λ k far u. apart k (λ on same. (let z = rw on at far in ground arith)) u;
        left = serves.left;
      }

  visit-cancel :
      (msg : CancelOrderRequest) (b : OrderBook) (rests frees : Levels) (q : Q)
      → IsServing b rests frees
      → Fits (cancel msg)
      → Visited (cancel msg) b rests frees q (serve (cancel msg) (queues_of b rests))
  unfolding serve deliver
  visit-cancel msg b rests frees q s (h, has_id, hi) =
      let (c, r, rests', frees', run, w, y, more, still, quiet, stays, serves) =
        handle_cancellation-withdraw msg b rests frees s.sound.book s.sound.index s.findable hi
          (omega arith) in
      let (index, read, ring) = quiet in
      let none_said = sym (withdraw-reports msg.to_cancel (queues_of b rests)) in
      let written : c.filled_write_idx ≡ b.filled_write_idx = ap (λ x. x.1) ring in
      record {
        c = c;
        rests' = rests';
        frees' = frees';
        run = cancel_visited try_emplace msg b c r q h run ∙ (λ i. some (
          c,
          try_emplace (deliver try_emplace (none_said i) q) (serves.response i),
          length (none_said i),
          0,
        ));
        serving = record {
          sound = record { book = w; index = y; cursors = still s.sound.cursors };
          findable = Stays-Findable b c rests rests' stays index s.findable;
          met = written ∙ s.met ∙ sym read;
        };
        room = λ l. (let g = more l in omega arith);
        unnamed = λ k _ u. Stays-Unnamed b c rests rests' stays k u;
        left = serves.left;
      }

  -- The visitor of a request that fits leaves the two queues as the reference does, and puts its
  -- reports and then its answer into the queue of responses.
  pub visited :
      (r : NewRequest) (b : OrderBook) (rests frees : Levels) (q : Q)
      → IsServing b rests frees
      → Fits r
      → SignedRequest r
      → ((l : ℕ) → l < k_price_level_count → wants l r ≤ length (frees l))
      → ((k : ℕ) → takes_id k r ≡ true → Unnamed k b rests)
      → length (serve r (queues_of b rests)).reports ≤ k_fulfilled_orders_count
      → Visited r b rests frees q (serve r (queues_of b rests))
  visited (cancel msg) b rests frees q s fits sign room fresh few =
      visit-cancel msg b rests frees q s fits
  visited (new msg) b rests frees q s fits sign room fresh few =
      elim (Bool-cases (eqb_ℤ msg.order.quantity_lots (pos 0))) [
        | inl e ↦ visit-reject msg b rests frees q s e
        | inr e ↦
            let k = serve-order msg (queues_of b rests) e in
            let few' = rw k at few in
            rw k (
              visit-order msg b rests frees q s fits sign room
                (λ on. fresh msg.order.id (ground arith)) e few')
      ]
