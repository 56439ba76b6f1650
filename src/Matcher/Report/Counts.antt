-- ===== src/Matcher/Report/Counts.antt =====
-- The counters after a run are the numbers of the requests of each kind.
use espacekilly.Base.{ℕ, ◌≡◌, Option, none, some, List}
use espacekilly.Types.{MessageResponse, NewRequest}
use espacekilly.Matcher.Engine.{Duration, match_all}
use espacekilly.Matcher.OrderBook.{OrderBook, Counters, empty_book}
use espacekilly.Matcher.Report.{summary}
use espacekilly.Matcher.Report.Kinds.{Kinds, no_kinds, kinds, IsSummary}

-- Whatever comes out, the counters of the book in it are such.
pub data Counted {X : Type 0} (book : X → OrderBook) (P : Counters → Type 0)
    : Option X → Type 0 where
  nothing : Counted book P none
  just : (x : X) → P (book x).counters → Counted book P (some x)

module _ {Q : Type 0} (try_emplace : Q → MessageResponse → Q) where
  -- What a run leads to, and what is printed of it.
  abbrev pub Reports : (ℕ → ℕ) → List NewRequest → Q → (ℕ → Duration) → Type 0
  Reports cycles rs q durations =
      (c : OrderBook) × (q' : Q) × (durations' : ℕ → Duration) × (match_all try_emplace cycles 0 rs
          empty_book q durations
        ≡ some (c, q', durations'))
      × IsSummary (kinds try_emplace rs empty_book q no_kinds) (summary c.counters)
