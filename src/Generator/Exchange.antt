-- ===== src/Generator/Exchange.antt =====
-- The requests of the generator, in the matching engine: its limit orders have ids of their own, and
-- the types of its market orders go with their signs.
use espacekilly.Base.{
  ℕ, zero, suc, ◌+◌, ◌%◌, ◌==◌, ◌≤◌, ◌<◌, ◌≡◌, refl, Bool, true, false, inl, inr, List, [], ◌∷◌,
  arith, pos, neg_ℤ, if◌then◌else◌, Bool-cases,
}
use espacekilly.Types.{
  buy, buy_limit, sell, sell_limit, MessageResponse, NewRequest, k_price_level_count, arr_size,
}
use espacekilly.Generator.{
  Draw, LiveOrder, Action, add_limit, cancel_one, market, Generator, start, lots_at, lot_sizes,
  emit_new, emit_cancel, emit_cancel_or_limit, emit, drift_midpoint, generate,
}
use espacekilly.Generator.Requests.{generated-AllFit}
use espacekilly.Matcher.Engine.{Duration}
use espacekilly.Matcher.Engine.Exchange.{
  names, AllApart, AllSigned, RingSuffices, no_queues, Exchanges, match_all-serve_all,
}
use espacekilly.Matcher.Engine.Run.{wanted}
use espacekilly.Matcher.Engine.Serve.{Signed}
use espacekilly.Matcher.Engine.Visit.{takes_id, SignedRequest}
use espacekilly.Matcher.OrderBook.{empty_book}

-- The request of slot `i` takes no id but `i + 1`, and the next message id is the one behind it.
abbrev Named : ℕ → NewRequest × Generator → Type 0
Named i r = ((k : ℕ) → takes_id k r.0 ≡ true → k ≡ i + 1) × (r.1.msg_id ≡ i + 2)

goes_with_sign :
    (is_buy is_limit : Bool) (n : ℕ)
    → Signed
        (if is_buy
          then (if is_limit then buy_limit else buy)
          else (if is_limit then sell_limit else sell))
        (if is_buy then pos n else neg_ℤ (pos n))
goes_with_sign true true n = tt
goes_with_sign true false n = refl
goes_with_sign false true n = tt
goes_with_sign false false n = ground arith

module _ (i : ℕ) (small : i < arr_size) (d : Draw) (g : Generator) (at : g.msg_id ≡ i + 1) where
  emit_new-Named : (is_limit : Bool) → Named i (emit_new d is_limit g)
  unfolding emit_new
  emit_new-Named is_limit = ((λ k e. ground (arith, at)), omega (arith, at))

  emit_new-Signed : (is_limit : Bool) → SignedRequest (emit_new d is_limit g).0
  unfolding emit_new
  emit_new-Signed is_limit = goes_with_sign d.is_buy is_limit (lots_at d.lots_index lot_sizes)

  emit_cancel-Named : (x : LiveOrder) (xs : List LiveOrder) → Named i (emit_cancel d x xs g)
  unfolding emit_cancel
  emit_cancel-Named x xs = ((λ k e. ground arith), omega (arith, at))

  emit-Named : (a : Action) → Named i (emit a d g) × SignedRequest (emit a d g).0
  unfolding emit emit_cancel_or_limit emit_cancel
  emit-Named add_limit = (emit_new-Named true, emit_new-Signed true)
  emit-Named market = (emit_new-Named false, emit_new-Signed false)
  emit-Named cancel_one = or_limit g.live
    where
      or_limit :
          (xs : List LiveOrder)
          → Named i (emit_cancel_or_limit d xs g) × SignedRequest (emit_cancel_or_limit d xs g).0
      or_limit [] = (emit_new-Named true, emit_new-Signed true)
      or_limit (x ∷ xs) = (emit_cancel-Named x xs, tt)

-- One request and those behind it, of which all ids are larger.
module _ (i k : ℕ) (r : NewRequest) (rs : List NewRequest) (own : takes_id k r ≡ true → k ≡ i + 1)
    (later : names k rs ≡ true → i + 1 < k) where
  names_behind : names k (r ∷ rs) ≡ true → i < k
  unfolding names
  names_behind e = elim (Bool-cases (takes_id k r)) [
    | inl t ↦ let h = own t in omega (arith, h)
    | inr t ↦ let h = later (rw t at e) in omega (arith, h)
  ]

  names_apart : takes_id k r ≡ true → names k rs ≡ false
  names_apart t = elim (Bool-cases (names k rs)) [
    | inl n ↦ let h = later n in let e = own t in absurd (omega (arith, h, e))
    | inr n ↦ n
  ]

-- From slot `i` on all ids are larger, none is taken twice, and the market orders are signed.
generate_from :
    (draws : ℕ → Draw) (n i : ℕ) (g : Generator)
    → i + n ≤ arr_size
    → g.msg_id ≡ i + 1
    → ((k : ℕ) → names k (generate draws n i g) ≡ true → i < k)
      × AllApart (generate draws n i g)
      × AllSigned (generate draws n i g)
unfolding generate names
generate_from draws zero i g few at = ((λ k e. absurd (ground arith)), tt, tt)
generate_from draws (suc n) i g few at =
    let g' : Generator = record g {
      mid = if i % 500 == 0 then drift_midpoint (draws i).drift g.mid else g.mid;
    } in
    let r = emit (draws i).action (draws i) g' in
    let ((own, next), sign) = emit-Named i (omega arith) (draws i) g' at (draws i).action in
    let at' : r.1.msg_id ≡ i + 1 + 1 = omega (arith, next) in
    let (later, apart, signed) = generate_from draws n (i + 1) r.1 (omega arith) at' in
    let rs = generate draws n (i + 1) r.1 in
    (
      (λ k e. names_behind i k r.0 rs (own k) (later k) e),
      ((λ k e. names_apart i k r.0 rs (own k) (later k) e), apart),
      (sign, signed),
    )

-- The first `n` requests of the generator, in the matching engine, whatever is drawn: where at most
-- 8192 of them are limit orders at the same price, and in the reference no order fills more orders
-- than the ring of responses has elements, matchAllOrders serves them from the empty book on as
-- the reference does: the same responses in the same order, the same two queues at the end,
-- and the same numbers of fills measured.
pub generate-serve_all :
    {Q : Type 0} (try_emplace : Q → MessageResponse → Q) (draws : ℕ → Draw) (n : ℕ) (cycles : ℕ → ℕ)
    (q : Q) (durations : ℕ → Duration)
    → n ≤ arr_size
    → ((l : ℕ) → l < k_price_level_count → wanted l (generate draws n 0 start) ≤ 8192)
    → RingSuffices (generate draws n 0 start) no_queues
    → Exchanges try_emplace cycles 0 (generate draws n 0 start) empty_book no_queues q durations
generate-serve_all try_emplace draws n cycles q durations small few ring =
    let (_, apart, signed) = generate_from draws n 0 start (omega arith) (omega arith) in
    match_all-serve_all try_emplace cycles (generate draws n 0 start) q durations
      (generated-AllFit draws n small) few apart signed ring
