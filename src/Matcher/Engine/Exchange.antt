-- ===== src/Matcher/Engine/Exchange.antt =====
-- The loop of matchAllOrders refines the reference of Matcher.Priority.Exchange.
use espacekilly.Base.{
  ℕ, zero, suc, ◌+◌, ◌%◌, ◌^◌, ◌≤◌, ◌<◌, ◌≡◌, refl, sym, ap, ap₂, ◌∙◌, subst, inl, inr, Bool, true,
  false, ◌||◌, some, List, [], ◌∷◌, ◌++◌, arith, update, length, Bool-cases,
}
use espacekilly.Types.{MessageResponse, k_fulfilled_orders_count, NewRequest, k_price_level_count}
use espacekilly.Matcher.Engine.{Duration, match_all}
use espacekilly.Matcher.Engine.Ring.{deliver}
use espacekilly.Matcher.Engine.Run.{AllFit, wanted, match_all-cons}
use espacekilly.Matcher.Engine.Serve.{IsServing}
use espacekilly.Matcher.Engine.Visit.{takes_id, SignedRequest, measured_id, told, Visited, visited}
use espacekilly.Matcher.OrderBook.{OrderBook, empty_book}
use espacekilly.Matcher.OrderBook.Empty.{empty_book-IsBook}
use espacekilly.Matcher.OrderBook.Findable.{Unnamed}
use espacekilly.Matcher.OrderBook.View.{level_orders, ascending, descending}
use espacekilly.Matcher.OrderBook.View.Queues.{queues_of}
use espacekilly.Matcher.OrdersData.Init.{all_slots, none_rest}
use espacekilly.Matcher.OrdersData.Invariant.{Levels}
use espacekilly.Matcher.Priority.Exchange.{Queues, serve, serve_all}

-- Does one of the limit orders have this id?
unfoldable pub names : ℕ → List NewRequest → Bool
names k [] = false
names k (r ∷ rs) = takes_id k r || names k rs

-- No two limit orders have the same id.
abbrev pub AllApart : List NewRequest → Type 0
AllApart [] = Unit {0}
AllApart (r ∷ rs) = ((k : ℕ) → takes_id k r ≡ true → names k rs ≡ false) × AllApart rs

-- The types of market orders go with their signs.
abbrev pub AllSigned : List NewRequest → Type 0
AllSigned [] = Unit {0}
AllSigned (r ∷ rs) = SignedRequest r × AllSigned rs

-- In the reference, no order fills more orders than the ring of responses has elements.
abbrev pub RingSuffices : List NewRequest → Queues → Type 0
RingSuffices [] q = Unit {0}
RingSuffices (r ∷ rs) q =
    (length (serve r q).reports ≤ k_fulfilled_orders_count) × RingSuffices rs (serve r q).left

-- What is measured: for each request the cycles, the number of fills and the order's id.
unfoldable pub measured : (ℕ → ℕ) → ℕ → List NewRequest → Queues → (ℕ → Duration) → (ℕ → Duration)
measured cycles i [] q durations = durations
measured cycles i (r ∷ rs) q durations =
    let s = serve r q in
    let d : Duration = record {
      time = cycles i;
      fills = length s.reports;
      id = measured_id r % 2 ^ 32;
    } in
    measured cycles (i + 1) rs s.left (update durations i d)

other_name :
    (k : ℕ) (r : NewRequest) (rs : List NewRequest)
    → (takes_id k r ≡ true → names k rs ≡ false)
    → names k rs ≡ true
    → takes_id k r ≡ false
other_name k r rs far n = elim (Bool-cases (takes_id k r)) [
  | inr e ↦ e
  | inl e ↦ let h = far e in cc
]

abbrev pub no_queues : Queues
no_queues = record { bids = []; asks = [] }

none-descending : (k : ℕ) → descending (λ _. []) k ≡ []
unfolding descending
none-descending zero = refl
none-descending (suc k) = none-descending k

none-ascending : (a k : ℕ) → ascending (λ _. []) a k ≡ []
unfolding ascending
none-ascending a zero = refl
none-ascending a (suc k) = none-ascending (a + 1) k

empty_book-queues_of : queues_of empty_book none_rest ≡ no_queues
unfolding level_orders
empty_book-queues_of =
    ap₂ (λ b a. record { bids = b; asks = a }) (none-descending k_price_level_count)
      (none-ascending 0 k_price_level_count)

module _ {Q : Type 0} (try_emplace : Q → MessageResponse → Q) where
  deliver-append :
      (xs ys : List MessageResponse) (q : Q)
      → deliver try_emplace (xs ++ ys) q ≡ deliver try_emplace ys (deliver try_emplace xs q)
  unfolding deliver
  deliver-append [] ys q = refl
  deliver-append (x ∷ xs) ys q = deliver-append xs ys (try_emplace q x)

  -- Served one by one, the requests lead to what the reference makes of all of them.
  abbrev pub Exchanges :
      (ℕ → ℕ) → ℕ → List NewRequest → OrderBook → Queues → Q → (ℕ → Duration) → Type 0
  Exchanges cycles i rs b o q durations =
      (c : OrderBook) × (rests' : Levels) × (frees' : Levels) × (match_all try_emplace cycles i rs b
          q durations
        ≡ some (c, deliver try_emplace (serve_all rs o).1 q, measured cycles i rs o durations))
      × IsServing c rests' frees'
      × (queues_of c rests' ≡ (serve_all rs o).0)

  exchanges :
      (cycles : ℕ → ℕ) (i : ℕ) (rs : List NewRequest) (b : OrderBook) (rests frees : Levels)
      (o : Queues) (q : Q) (durations : ℕ → Duration)
      → IsServing b rests frees
      → queues_of b rests ≡ o
      → AllFit rs
      → AllSigned rs
      → AllApart rs
      → RingSuffices rs o
      → ((l : ℕ) → l < k_price_level_count → wanted l rs ≤ length (frees l))
      → ((k : ℕ) → names k rs ≡ true → Unnamed k b rests)
      → Exchanges cycles i rs b o q durations
  unfolding match_all wanted names serve_all measured deliver
  exchanges cycles i [] b rests frees o q durations s e fits signed apart ring room fresh =
      (b, rests, frees, refl, s, e)
  exchanges cycles i (r ∷ rs) b rests frees o q durations s e (fit, fits) (sign, signed)
        (far, apart) (few, ring) room fresh =
      let v =
        subst
          (λ o.
            length (serve r o).reports ≤ k_fulfilled_orders_count
            → Visited try_emplace r b rests frees q (serve r o))
          e
          (visited try_emplace r b rests frees q s fit sign
            (λ l hl. (let h = room l hl in omega arith)) (λ k t. fresh k (ground arith)))
          few in
      let served = serve r o in
      let d : Duration = record {
        time = cycles i;
        fills = length served.reports;
        id = measured_id r % 2 ^ 32;
      } in
      let (f, rests'', frees'', run, serving, left) =
        exchanges cycles (i + 1) rs v.c v.rests' v.frees' served.left (told try_emplace served q)
          (update durations i d) v.serving v.left fits signed apart ring
          (λ l hl. (let h = room l hl in let k = v.room l in omega arith))
          (λ k n. v.unnamed k (other_name k r rs (far k) n) (fresh k (ground arith))) in
      (
        f,
        rests'',
        frees'',
        match_all-cons try_emplace cycles i r rs b v.c q (told try_emplace served q)
              (length served.reports) (measured_id r) durations v.run
            ∙ run
            ∙ ap (λ x. some (f, x, measured cycles (i + 1) rs served.left (update durations i d)))
                (sym (
                  deliver-append served.reports (served.response ∷ (serve_all rs served.left).1)
                    q)),
        serving,
        left,
      )

  -- From the book that the constructor makes, on requests that fit, of which at most 8192 are limit
  -- orders at the same price and no two limit orders have the same id, where the type of each
  -- market order goes with its sign, and where in the reference no order fills more orders than
  -- the ring of responses has elements: the loop returns. The queue of responses gets, request
  -- by request, the reports of the reference in order and then its answer; the two queues of
  -- the book, best price first and oldest first, are those of the reference; and each measured
  -- duration has the number of fills of the reference, and the order's id.
  pub match_all-serve_all :
      (cycles : ℕ → ℕ) (rs : List NewRequest) (q : Q) (durations : ℕ → Duration)
      → AllFit rs
      → ((l : ℕ) → l < k_price_level_count → wanted l rs ≤ 8192)
      → AllApart rs
      → AllSigned rs
      → RingSuffices rs no_queues
      → Exchanges cycles 0 rs empty_book no_queues q durations
  match_all-serve_all cycles rs q durations fits few apart signed ring =
      let (w, x) = empty_book-IsBook in
      exchanges cycles 0 rs empty_book none_rest all_slots no_queues q durations
        (record {
          sound = record { book = w; index = x; cursors = (omega arith, omega arith) };
          findable = λ l p hl m. absurd (ground arith);
          met = refl;
        })
        empty_book-queues_of fits signed apart ring
        (λ l hl. (let h = few l hl in let f = w.full l hl in omega arith))
        (λ k n l p hl m. absurd (ground arith))
