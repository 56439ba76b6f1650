-- ===== src/Matcher/OrderBook/Empty.antt =====
-- The order book as its constructor leaves it.
use espacekilly.Base.{
  ℕ, zero, suc, ◌+◌, ◌*◌, ◌≤◌, ◌⊎◌, sym, ◌∙◌, ◌<◌, ◌≡◌, refl, inl, inr, Bool, true, false, arith,
  length,
}
use espacekilly.Types.{k_price_level_count}
use espacekilly.Matcher.Memory.{Ptr, null, slot}
use espacekilly.Matcher.OrderBook.{empty_book, fresh_heap, side, invalid_best_idx}
use espacekilly.Matcher.OrderBook.Counting.{count_on, total}
use espacekilly.Matcher.OrderBook.Index.{IsIndexed}
use espacekilly.Matcher.OrderBook.Invariant.{IsBookOf}
use espacekilly.Matcher.OrdersData.Init.{slots, all_slots, none_rest, HasSentinels, init-IsPool}

pub fresh-HasSentinels : HasSentinels fresh_heap
fresh-HasSentinels l h = ground arith

pub fresh_blank : (q : Ptr) → slot 0 ≤ q → fresh_heap.next q ≡ null
fresh_blank q h = ground arith

length-slots : (n i : ℕ) → length (slots n i) ≡ n
unfolding slots
length-slots zero i = refl
length-slots (suc n) i = omega (arith, length-slots n (i + 1))

total-none : (k : ℕ) → total (λ _. 0) k ≡ 0
unfolding total
total-none zero = refl
total-none (suc k) = omega (arith, total-none k)

no_best :
    (s : Bool)
    → (side empty_book.best_idx s < k_price_level_count)
      ⊎ (side empty_book.best_idx s ≡ invalid_best_idx)
no_best true = inr refl
no_best false = inr refl

no_count : (s : Bool) → side empty_book.counts s ≡ 0
no_count true = refl
no_count false = refl

-- The constructor of OrderBook makes a book with the invariant: no order rests, each of the 8192
-- nodes of each level is free, and the index leads nowhere.
pub empty_book-IsBook : IsBookOf empty_book none_rest all_slots × IsIndexed empty_book none_rest
unfolding count_on
empty_book-IsBook = (
  record {
    pool = init-IsPool fresh_heap fresh-HasSentinels fresh_blank;
    full = λ l hl. omega (arith, length-slots 8192 (l * 8192));
    placed = λ l p hl m. absurd (ground arith);
    counted = λ s. no_count s ∙ sym (total-none k_price_level_count);
    best_ok = no_best;
    uncrossed = inl refl;
  },
  λ k. inl refl,
)
