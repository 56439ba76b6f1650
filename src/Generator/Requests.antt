-- ===== src/Generator/Requests.antt =====
-- The requests of the generator fit the matching engine.
use espacekilly.Base.{
  ℕ, zero, suc, ◌+◌, ◌≤◌, ◌<◌, ◌≡◌, refl, inl, inr, Bool, true, false, List, [], ◌∷◌, arith, ℤ, pos,
  negsuc, min, length, if◌then◌else◌,
}
use espacekilly.Types.{buy, buy_limit, sell, sell_limit, k_price_level_count, arr_size}
use espacekilly.Generator.{
  make_price, clamp_price, Draw, LiveOrder, Action, add_limit, cancel_one, market, Generator, start,
  victim, overwrite, swap_pop, emit_new, emit_cancel, emit_cancel_or_limit, emit, generate,
}
use espacekilly.Matcher.Engine.Dispatch.{Fits, is_limit}
use espacekilly.Matcher.Engine.Run.{AllFit}

-- The ids of the live orders are between 1 and `n`.
abbrev Live : ℕ → List LiveOrder → Type 0
Live n [] = Unit {0}
Live n (x ∷ xs) = (0 < x.id) × (x.id ≤ n) × Live n xs

Live-more : (n : ℕ) (xs : List LiveOrder) → Live n xs → Live (n + 1) xs
Live-more n [] l = tt
Live-more n (x ∷ xs) (a, b, l) = (a, omega arith, Live-more n xs l)

victim_lives :
    (n k : ℕ) (x : LiveOrder) (xs : List LiveOrder)
    → Live n (x ∷ xs)
    → (0 < (victim k x xs).id) × ((victim k x xs).id ≤ n)
unfolding victim
victim_lives n k x [] l = (l.0, l.1)
victim_lives n zero x (y ∷ ys) l = (l.0, l.1)
victim_lives n (suc k) x (y ∷ ys) l = victim_lives n k y ys l.2

overwrite-Live :
    (n k : ℕ) (x : LiveOrder) (xs : List LiveOrder) → Live n (x ∷ xs) → Live n (overwrite k x xs)
unfolding overwrite
overwrite-Live n k x [] l = tt
overwrite-Live n zero x (y ∷ ys) (a, b, (c, d, l)) = (a, b, l)
overwrite-Live n (suc k) x (y ∷ ys) (a, b, (c, d, l)) = (c, d, overwrite-Live n k x ys (a, b, l))

swap_pop-Live :
    (n k : ℕ) (x : LiveOrder) (xs : List LiveOrder) → Live n (x ∷ xs) → Live n (swap_pop k x xs)
swap_pop-Live n zero x xs l = l.2
swap_pop-Live n (suc k) x xs l = overwrite-Live n k x xs l

clamp_price-lt : (x : ℤ) → clamp_price x < k_price_level_count
clamp_price-lt (pos n) = omega arith
clamp_price-lt (negsuc n) = omega arith

pub make_price-lt :
    (mid depth : ℕ) (is_buy crossing : Bool)
    → make_price mid depth is_buy crossing < k_price_level_count
unfolding make_price
make_price-lt mid depth is_buy crossing = clamp_price-lt _

-- Before slot `i`.
abbrev Ready : ℕ → Generator → Type 0
Ready i g = (g.msg_id ≡ i + 1) × Live i g.live

module _ (i : ℕ) (small : i < arr_size) (d : Draw) (g : Generator) (ready : Ready i g) where
  emit_new-Fits :
      (is_limit : Bool) → Fits (emit_new d is_limit g).0 × Ready (i + 1) (emit_new d is_limit g).1
  unfolding emit_new
  emit_new-Fits true = (
    (omega arith, inr (make_price-lt g.mid d.depth d.is_buy d.crossing, omega (arith, ready.0))),
    (
      omega (arith, ready.0),
      (omega (arith, ready.0), omega (arith, ready.0), Live-more i g.live ready.1),
    ),
  )
  emit_new-Fits false = (
    (omega arith, inl (market_type d.is_buy)),
    (omega (arith, ready.0), Live-more i g.live ready.1),
  )
    where
      market_type :
          (is_buy : Bool)
          → is_limit (
              if is_buy
              then (if false then buy_limit else buy)
              else (if false then sell_limit else sell))
            ≡ false
      market_type true = refl
      market_type false = refl

  emit_cancel-Fits :
      (x : LiveOrder) (xs : List LiveOrder)
      → Live i (x ∷ xs)
      → Fits (emit_cancel d x xs g).0 × Ready (i + 1) (emit_cancel d x xs g).1
  unfolding emit_cancel
  emit_cancel-Fits x xs l =
      let k = min (length xs) d.cancel_age in
      let v = victim_lives i k x xs l in
      (
        (omega arith, v.0, omega (arith, v.1)),
        (omega (arith, ready.0), Live-more i (swap_pop k x xs) (swap_pop-Live i k x xs l)),
      )

  emit-Fits : (a : Action) → Fits (emit a d g).0 × Ready (i + 1) (emit a d g).1
  unfolding emit emit_cancel_or_limit
  emit-Fits add_limit = emit_new-Fits true
  emit-Fits market = emit_new-Fits false
  emit-Fits cancel_one = or_limit g.live ready.1
    where
      or_limit :
          (xs : List LiveOrder)
          → Live i xs
          → Fits (emit_cancel_or_limit d xs g).0 × Ready (i + 1) (emit_cancel_or_limit d xs g).1
      or_limit [] l = emit_new-Fits true
      or_limit (x ∷ xs) l = emit_cancel-Fits x xs l

generate_from :
    (draws : ℕ → Draw) (n i : ℕ) (g : Generator)
    → i + n ≤ arr_size
    → Ready i g
    → AllFit (generate draws n i g)
unfolding generate
generate_from draws zero i g few ready = tt
generate_from draws (suc n) i g few ready =
    let (fits, ready') =
      emit-Fits i (omega arith) (draws i) (record g { mid = _ }) ready (draws i).action in
    (fits, generate_from draws n (i + 1) _ (omega arith) ready')

-- The same for the first `n` requests.
pub generated-AllFit : (draws : ℕ → Draw) (n : ℕ) → n ≤ arr_size → AllFit (generate draws n 0 start)
generated-AllFit draws n few = generate_from draws n 0 start (omega arith) (omega arith, tt)

-- Whatever is drawn, all `arrSize` requests that the generator writes fit the matching engine:
-- prices of limit orders are levels, ids are within the index and not 0, cancelled ids too.
pub generate-AllFit : (draws : ℕ → Draw) → AllFit (generate draws arr_size 0 start)
generate-AllFit draws = generated-AllFit draws arr_size (omega arith)
