-- ===== src/Matcher/Ladder/Sums.antt =====
-- The rung of a level: the orders in its list, counted and added up one after the other.
use espacekilly.Base.{
  ℕ, ◌+◌, ◌%◌, ◌^◌, ◌≤◌, ◌<◌, ◌≡◌, refl, ap, ap₂, ◌∙◌, Bool, true, false, some, List, [], ◌∷◌,
  arith, ℤ, pos, ◌+ℤ◌, is_pos, is_neg, pos_part, neg_part, +ℤ_parts, Bool-cases, inl, inr, Option,
  none, ◌>>=◌, ◌&&◌, if◌then◌else◌, length,
}
use espacekilly.Matcher.IntrusiveList.Ring.{has}
use espacekilly.Matcher.Ladder.{Rung, is_int64, add_order}
use espacekilly.Matcher.Memory.{Ptr}
use espacekilly.Matcher.OrderBook.Counting.{on_side, count_on}

-- The lots of the orders of side `s` among the nodes.
unfoldable pub lots_on : Bool → (Ptr → ℤ) → List Ptr → ℤ → ℤ
lots_on s lots [] sum = sum
lots_on s lots (p ∷ ps) sum = lots_on s lots ps (if on_side s (lots p) then sum +ℤ lots p else sum)

-- What the list of a level holds.
abbrev pub held : (Ptr → ℤ) → List Ptr → Rung
held lots ps = record {
  bids = count_on true lots ps;
  asks = count_on false lots ps;
  bid_lots = lots_on true lots ps (pos 0);
  ask_lots = lots_on false lots ps (pos 0);
}

abbrev pub Sided : (Ptr → ℤ) → List Ptr → Type 0
Sided lots ps = (p : Ptr) → has p ps ≡ true → (s : Bool) × (on_side s (lots p) ≡ true)

-- The rung `r` with the orders of more nodes.
abbrev pub more : (Ptr → ℤ) → List Ptr → Rung → Rung
more lots ps r = record {
  bids = r.bids + count_on true lots ps;
  asks = r.asks + count_on false lots ps;
  bid_lots = lots_on true lots ps r.bid_lots;
  ask_lots = lots_on false lots ps r.ask_lots;
}

module _ (lots : Ptr → ℤ) (p : Ptr) (ps : List Ptr) (r : Rung) where
  more_bid :
      on_side true (lots p) ≡ true
      → more lots ps (record r { bids = r.bids + 1; bid_lots = r.bid_lots +ℤ lots p })
        ≡ more lots (p ∷ ps) r
  unfolding count_on lots_on
  more_bid on =
      let off : on_side false (lots p) ≡ false = ground arith in
      rw (on, off)
        (ap₂
          (λ x y. record {
            bids = x;
            asks = y;
            bid_lots = lots_on true lots ps (r.bid_lots +ℤ lots p);
            ask_lots = lots_on false lots ps r.ask_lots;
          })
          (omega arith) (omega arith))

  more_ask :
      on_side false (lots p) ≡ true
      → more lots ps (record r { asks = r.asks + 1; ask_lots = r.ask_lots +ℤ lots p })
        ≡ more lots (p ∷ ps) r
  unfolding count_on lots_on
  more_ask on =
      let off : on_side true (lots p) ≡ false = ground arith in
      rw (on, off)
        (ap₂
          (λ x y. record {
            bids = x;
            asks = y;
            bid_lots = lots_on true lots ps r.bid_lots;
            ask_lots = lots_on false lots ps (r.ask_lots +ℤ lots p);
          })
          (omega arith) (omega arith))

pos_alone : (y : ℤ) → is_pos y ≡ true → neg_part y ≡ 0
pos_alone y e = ground arith

neg_alone : (y : ℤ) → is_neg y ≡ true → pos_part y ≡ 0
neg_alone y e = ground arith

bid_sum : (x y : ℤ) → neg_part x ≡ 0 → neg_part y ≡ 0 → neg_part (x +ℤ y) ≡ 0
unfolding ◌+ℤ◌
bid_sum x y h k = ground arith

ask_sum : (x y : ℤ) → pos_part x ≡ 0 → pos_part y ≡ 0 → pos_part (x +ℤ y) ≡ 0
unfolding ◌+ℤ◌
ask_sum x y h k = ground arith

-- Bids only add to their sum, asks only take from it.
bids_grow :
    (lots : Ptr → ℤ) (ps : List Ptr) (x : ℤ)
    → neg_part x ≡ 0
    → pos_part x ≤ pos_part (lots_on true lots ps x)
unfolding lots_on
bids_grow lots [] x h = omega arith
bids_grow lots (p ∷ ps) x h = elim (Bool-cases (is_pos (lots p))) [
  | inl e ↦
      let z = pos_alone (lots p) e in
      let none_left = bid_sum x (lots p) h z in
      let k = bids_grow lots ps (x +ℤ lots p) none_left in
      rw e (omega (arith, k, +ℤ_parts x (lots p), none_left, z))
  | inr e ↦ rw e (bids_grow lots ps x h)
]

asks_grow :
    (lots : Ptr → ℤ) (ps : List Ptr) (x : ℤ)
    → pos_part x ≡ 0
    → neg_part x ≤ neg_part (lots_on false lots ps x)
unfolding lots_on
asks_grow lots [] x h = omega arith
asks_grow lots (p ∷ ps) x h = elim (Bool-cases (is_neg (lots p))) [
  | inl e ↦
      let z = neg_alone (lots p) e in
      let none_left = ask_sum x (lots p) h z in
      let k = asks_grow lots ps (x +ℤ lots p) none_left in
      rw e (omega (arith, k, +ℤ_parts x (lots p), none_left, z))
  | inr e ↦ rw e (asks_grow lots ps x h)
]

-- A rung whose sums are in range.
abbrev pub in_range : Rung → Bool
in_range r = is_int64 r.bid_lots && is_int64 r.ask_lots

abbrev pub checked : Rung → Option Rung
checked r = if in_range r then some r else none

-- The orders of a list, added to a rung one after the other.
unfoldable pub gather : (Ptr → ℤ) → List Ptr → Rung → Option Rung
gather lots [] r = some r
gather lots (p ∷ ps) r = add_order (lots p) r >>= gather lots ps

-- One order of each side.
module _ (x : ℤ) (r : Rung) where
  add_bid :
      on_side true x ≡ true
      → r.bids + 1 < 2 ^ 64
      → add_order x r ≡ (
          if is_int64 (r.bid_lots +ℤ x)
          then some (record r { bids = r.bids + 1; bid_lots = r.bid_lots +ℤ x })
          else none)
  unfolding add_order
  add_bid on h =
      let n : (r.bids + 1) % 2 ^ 64 ≡ r.bids + 1 = omega arith in
      elim (Bool-cases (is_int64 (r.bid_lots +ℤ x))) [
        | inl e ↦ rw (on, e, n) refl
        | inr e ↦ rw (on, e) refl
      ]

  add_ask :
      on_side false x ≡ true
      → r.asks + 1 < 2 ^ 64
      → add_order x r ≡ (
          if is_int64 (r.ask_lots +ℤ x)
          then some (record r { asks = r.asks + 1; ask_lots = r.ask_lots +ℤ x })
          else none)
  unfolding add_order
  add_ask on h =
      let n : (r.asks + 1) % 2 ^ 64 ≡ r.asks + 1 = omega arith in
      let off : is_pos x ≡ false = ground arith in
      elim (Bool-cases (is_int64 (r.ask_lots +ℤ x))) [
        | inl e ↦ rw (off, e, n) refl
        | inr e ↦ rw (off, e) refl
      ]

-- A rung that adding starts from: the sums have their signs and fit.
pub record Starts (r : Rung) (k : ℕ) : Type 0 where
  pub bids_fit : r.bids + k < 2 ^ 64
  pub asks_fit : r.asks + k < 2 ^ 64
  pub bid_sign : neg_part r.bid_lots ≡ 0
  pub ask_sign : pos_part r.ask_lots ≡ 0
  pub bid_range : is_int64 r.bid_lots ≡ true
  pub ask_range : is_int64 r.ask_lots ≡ true

pub gather-more :
    (lots : Ptr → ℤ) (ps : List Ptr) (r : Rung)
    → Sided lots ps
    → Starts r (length ps)
    → gather lots ps r ≡ checked (more lots ps r)
unfolding gather count_on lots_on
gather-more lots [] r sides st =
    rw (st.bid_range, st.ask_range)
      (ap₂ (λ x y. some (record r { bids = x; asks = y })) (omega (arith, st.bids_fit))
        (omega (arith, st.asks_fit)))
gather-more lots (p ∷ ps) r sides st =
    let (t, on) = sides p (ground arith) in
    let later : Sided lots ps = λ q m. sides q (ground arith) in
    go t on (λ r' st'. gather-more lots ps r' later st')
  where
    go :
        (t : Bool)
        → on_side t (lots p) ≡ true
        → ((r' : Rung) → Starts r' (length ps) → gather lots ps r' ≡ checked (more lots ps r'))
        → gather lots (p ∷ ps) r ≡ checked (more lots (p ∷ ps) r)
    go true on ih =
        let x = r.bid_lots +ℤ lots p in
        let sign = bid_sum r.bid_lots (lots p) st.bid_sign (pos_alone (lots p) on) in
        let b = st.bids_fit in
        let a = st.asks_fit in
        let add = add_bid (lots p) r on (omega (arith, b)) in
        elim (Bool-cases (is_int64 x)) [
          | inl e ↦
              rw (add, e)
                (ih (record r { bids = r.bids + 1; bid_lots = x })
                    (record {
                      bids_fit = omega (arith, b);
                      asks_fit = omega (arith, a);
                      bid_sign = sign;
                      ask_sign = st.ask_sign;
                      bid_range = e;
                      ask_range = st.ask_range;
                    })
                  ∙ ap checked (more_bid lots p ps r on))
          | inr e ↦
              let grows = bids_grow lots ps x sign in
              let out : is_int64 (lots_on true lots ps x) ≡ false = ground arith in
              rw (add, e, on, out) refl
        ]
    go false on ih =
        let x = r.ask_lots +ℤ lots p in
        let sign = ask_sum r.ask_lots (lots p) st.ask_sign (neg_alone (lots p) on) in
        let b = st.bids_fit in
        let a = st.asks_fit in
        let add = add_ask (lots p) r on (omega (arith, a)) in
        elim (Bool-cases (is_int64 x)) [
          | inl e ↦
              rw (add, e)
                (ih (record r { asks = r.asks + 1; ask_lots = x })
                    (record {
                      bids_fit = omega (arith, b);
                      asks_fit = omega (arith, a);
                      bid_sign = st.bid_sign;
                      ask_sign = sign;
                      bid_range = st.bid_range;
                      ask_range = e;
                    })
                  ∙ ap checked (more_ask lots p ps r on))
          | inr e ↦
              let grows = asks_grow lots ps x sign in
              let out : is_int64 (lots_on false lots ps x) ≡ false = ground arith in
              rw (add, e, on, out) (ground arith)
        ]
