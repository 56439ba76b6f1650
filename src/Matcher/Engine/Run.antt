-- ===== src/Matcher/Engine/Run.antt =====
-- The loop of matchAllOrders on requests that fit the book.
use espacekilly.Base.{
  ℕ, ◌+◌, ◌-◌, ◌%◌, ◌^◌, ◌≤◌, ◌<◌, ◌≡◌, ◌≢◌, refl, ◌∙◌, inl, inr, true, false, none, some, List, [],
  ◌∷◌, pos, eqb_ℤ, ltb, arith, update, length, Bool-cases,
}
use espacekilly.Types.{
  MessageResponse, rejected, instrument_count, NewOrderRequest, CancelOrderRequest, NewRequest, new,
  cancel, k_price_level_count,
}
use espacekilly.Matcher.Engine.{
  Duration, dispatch, pending, drain, on_new, on_cancel, visit, match_all,
}
use espacekilly.Matcher.Engine.Dispatch.{IsSound, Fits, wants, dispatch-Leads, cancel-Leads}
use espacekilly.Matcher.Engine.Drain.{caught_up, emplaced, drain_lem}
use espacekilly.Matcher.Handlers.{handle_cancellation}
use espacekilly.Matcher.OrderBook.{OrderBook, empty_book}
use espacekilly.Matcher.OrderBook.Empty.{empty_book-IsBook}
use espacekilly.Matcher.OrdersData.Init.{all_slots, none_rest}
use espacekilly.Matcher.OrdersData.Invariant.{Levels}

-- All the requests, and the nodes of level `l` that they may take.
abbrev pub AllFit : List NewRequest → Type 0
AllFit [] = Unit {0}
AllFit (r ∷ rs) = Fits r × AllFit rs

unfoldable pub wanted : ℕ → List NewRequest → ℕ
wanted l [] = 0
wanted l (r ∷ rs) = wants l r + wanted l rs

module _ {Q : Type 0} (try_emplace : Q → MessageResponse → Q) where
  abbrev Visits : NewRequest → OrderBook → Levels → Q → Type 0
  Visits r b frees q =
      (c : OrderBook) × (q' : Q) × (fills : ℕ) × (id : ℕ) × (rests' : Levels) × (frees' : Levels)
      × (visit try_emplace r b q ≡ some (c, q', fills, id))
      × IsSound c rests' frees'
      × ((l : ℕ) → length (frees l) ≤ length (frees' l) + wants l r)

  pub new_rejected :
      (msg : NewOrderRequest) (b : OrderBook) (q : Q)
      → eqb_ℤ msg.order.quantity_lots (pos 0) ≡ true
      → visit try_emplace (new msg) b q
        ≡ some (b, try_emplace q (record { order = none; result = rejected }), 0, 0)
  unfolding visit on_new
  new_rejected msg b q e = rw e

  pub new_dispatched :
      (msg : NewOrderRequest) (b c : OrderBook) (r : MessageResponse) (q : Q)
      → eqb_ℤ msg.order.quantity_lots (pos 0) ≡ false
      → msg.instrument_id < instrument_count
      → dispatch msg.order_type msg b ≡ some (c, r)
      → drain try_emplace (pending c) c q
        ≡ some (
          caught_up try_emplace c,
          emplaced try_emplace (pending c) c.filled_read_idx c.fulfilled q,
        )
      → visit try_emplace (new msg) b q
        ≡ some (
          caught_up try_emplace c,
          try_emplace (emplaced try_emplace (pending c) c.filled_read_idx c.fulfilled q) r,
          ((c.filled_write_idx + (2 ^ 64 - b.filled_write_idx)) % 2 ^ 64) % 2 ^ 32,
          msg.order.id,
        )
  unfolding visit on_new
  new_dispatched msg b c r q e h f g =
      let i : ltb msg.instrument_id instrument_count ≡ true = ground arith in rw (e, i, f, g)

  pub cancel_visited :
      (msg : CancelOrderRequest) (b c : OrderBook) (r : MessageResponse) (q : Q)
      → msg.instrument_id < instrument_count
      → handle_cancellation msg b ≡ some (c, r)
      → visit try_emplace (cancel msg) b q ≡ some (c, try_emplace q r, 0, 0)
  unfolding visit on_cancel
  cancel_visited msg b c r q h f =
      let i : ltb msg.instrument_id instrument_count ≡ true = ground arith in rw (i, f)

  visits :
      (r : NewRequest) (b : OrderBook) (rests frees : Levels) (q : Q)
      → IsSound b rests frees
      → Fits r
      → ((l : ℕ) → l < k_price_level_count → wants l r ≤ length (frees l))
      → Visits r b frees q
  visits (cancel msg) b rests frees q s (h, pos_id, hi) room =
      let (c, r, rests', frees', run, s', more) = cancel-Leads msg b rests frees s pos_id hi in
      (c, try_emplace q r, 0, 0, rests', frees', cancel_visited msg b c r q h run, s', more)
  visits (new msg) b rests frees q s (h, fits) room =
      elim (Bool-cases (eqb_ℤ msg.order.quantity_lots (pos 0))) [
        | inl e ↦
            let out : MessageResponse = record { order = none; result = rejected } in
            (b, try_emplace q out, 0, 0, rests, frees, new_rejected msg b q e, s, λ l. omega arith)
        | inr e ↦
            let nonzero : msg.order.quantity_lots ≢ pos 0 =
              λ z. (let k = rw z at e in ground arith) in
            let (c, r, rests', frees', run, s', less) =
              dispatch-Leads msg b rests frees s nonzero msg.order_type fits room in
            (
              caught_up try_emplace c,
              try_emplace (emplaced try_emplace (pending c) c.filled_read_idx c.fulfilled q) r,
              ((c.filled_write_idx + (2 ^ 64 - b.filled_write_idx)) % 2 ^ 64) % 2 ^ 32,
              msg.order.id,
              rests',
              frees',
              new_dispatched msg b c r q e h run
                  (drain_lem try_emplace (pending c) c q s'.cursors refl),
              record { book = s'.book; index = s'.index; cursors = (s'.cursors.1, s'.cursors.1) },
              less,
            )
      ]

  abbrev pub Matches : (ℕ → ℕ) → ℕ → List NewRequest → OrderBook → Q → (ℕ → Duration) → Type 0
  Matches cycles i rs b q durations =
      (c : OrderBook) × (q' : Q) × (durations' : ℕ → Duration) × (rests' : Levels)
      × (frees' : Levels) × (match_all try_emplace cycles i rs b q durations
          ≡ some (c, q', durations'))
      × IsSound c rests' frees'

  pub match_all-cons :
      (cycles : ℕ → ℕ) (i : ℕ) (r : NewRequest) (rs : List NewRequest) (b c : OrderBook) (q q' : Q)
      (fills id : ℕ) (durations : ℕ → Duration)
      → visit try_emplace r b q ≡ some (c, q', fills, id)
      → match_all try_emplace cycles i (r ∷ rs) b q durations
        ≡ match_all try_emplace cycles
            (i + 1)
            rs
            c
            q'
            (update durations i (record { time = cycles i; fills = fills; id = id % 2 ^ 32 }))
  unfolding match_all
  match_all-cons cycles i r rs b c q q' fills id durations e = rw e

  matches :
      (cycles : ℕ → ℕ) (i : ℕ) (rs : List NewRequest) (b : OrderBook) (rests frees : Levels) (q : Q)
      (durations : ℕ → Duration)
      → IsSound b rests frees
      → AllFit rs
      → ((l : ℕ) → l < k_price_level_count → wanted l rs ≤ length (frees l))
      → Matches cycles i rs b q durations
  unfolding match_all wanted
  matches cycles i [] b rests frees q durations s fits room =
      (b, q, durations, rests, frees, refl, s)
  matches cycles i (r ∷ rs) b rests frees q durations s (fit, fits) room =
      let (c, q', fills, id, rests', frees', run, s', less) =
        visits r b rests frees q s fit (λ l hl. let h = room l hl in omega arith) in
      let d : Duration = record { time = cycles i; fills = fills; id = id % 2 ^ 32 } in
      let (f, q'', ds, rests'', frees'', run', s'') =
        matches cycles (i + 1) rs c rests' frees' q' (update durations i d) s' fits
          (λ l hl. let h = room l hl in let k = less l in omega arith) in
      (
        f,
        q'',
        ds,
        rests'',
        frees'',
        match_all-cons cycles i r rs b c q q' fills id durations run ∙ run',
        s'',
      )

  -- From the book that the constructor makes, the loop over any sequence of requests that fit, of
  -- which at most 8192 are limit orders at the same price, returns, whatever the queue does with
  -- the responses: no null pointer is followed, no index is outside its array and no free list runs
  -- out. The invariants of the book hold at the end.
  pub match_all-IsSound :
      (cycles : ℕ → ℕ) (rs : List NewRequest) (q : Q) (durations : ℕ → Duration)
      → AllFit rs
      → ((l : ℕ) → l < k_price_level_count → wanted l rs ≤ 8192)
      → Matches cycles 0 rs empty_book q durations
  match_all-IsSound cycles rs q durations fits few =
      let (w, x) = empty_book-IsBook in
      matches cycles 0 rs empty_book none_rest all_slots q durations
        (record { book = w; index = x; cursors = (omega arith, omega arith) }) fits
        (λ l hl. let h = few l hl in let f = w.full l hl in omega arith)
