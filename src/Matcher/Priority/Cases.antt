-- ===== src/Matcher/Priority/Cases.antt =====
-- The reference by its cases: what it makes of an order of which lots are left, and of one of which
-- none are.
use espacekilly.Base.{ℕ, ◌≡◌, refl, Bool, true, false, some, List, ℤ, pos, eqb_ℤ, if◌then◌else◌}
use espacekilly.Types.{Order, filled, partially_filled, rejected, resting}
use espacekilly.Matcher.Priority.{Entry, wants_more, match_orders, enqueue, answer, place}

-- The reference, by what is left of the order.
module _ (is_buy : Bool) (price : ℕ) (o : Order) (other own : List Entry) where
  pub place_rest :
      wants_more is_buy (match_orders is_buy price other o.quantity_lots).left ≡ true
      → let m = match_orders is_buy price other o.quantity_lots in
        place is_buy price o other own ≡ record {
          other = m.queue;
          own = enqueue is_buy price (record { id = o.id; quantity_lots = m.left }) own;
          reports = m.reports;
          response = record {
            order = some (record { id = o.id; quantity_lots = m.left });
            result = resting;
          };
        }
  unfolding place
  place_rest e = rw e refl

  pub place_done :
      wants_more is_buy (match_orders is_buy price other o.quantity_lots).left ≡ false
      → let m = match_orders is_buy price other o.quantity_lots in
        place is_buy price o other own ≡ record {
          other = m.queue;
          own = own;
          reports = m.reports;
          response = answer is_buy o m.left;
        }
  unfolding place
  place_done e = rw e refl

-- The answer to an order with lots left, and to one without.
module _ (is_buy : Bool) (o : Order) (left : ℤ) where
  pub answer_left :
      wants_more is_buy left ≡ true
      → answer is_buy o left ≡ record {
        order = some (record { id = o.id; quantity_lots = left });
        result = if eqb_ℤ left o.quantity_lots then rejected else partially_filled;
      }
  unfolding answer
  answer_left e = rw e refl

  pub answer_none :
      wants_more is_buy left ≡ false
      → answer is_buy o left
        ≡ record { order = some (record { id = o.id; quantity_lots = pos 0 }); result = filled }
  unfolding answer
  answer_none e = rw e refl
