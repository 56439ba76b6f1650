-- ===== src/Matcher/Priority/Conserve.antt =====
-- Matching conserves lots, and goes as far as it can.
use espacekilly.Base.{
  ℕ, ◌≡◌, sym, ap, ◌∙◌, inl, inr, Bool, true, false, not, List, [], ◌∷◌, arith, ℤ, pos, ◌+ℤ◌,
  +ℤ_parts, eq_of_parts, ◌||◌, if◌then◌else◌, Bool-cases,
}
use espacekilly.Matcher.Priority.{Entry, wants_more, worse, match_orders}

-- The signed lots of a queue.
unfoldable pub volume : List Entry → ℤ
volume [] = pos 0
volume ((price, o) ∷ es) = o.quantity_lots +ℤ volume es

add_assoc : (x y z : ℤ) → x +ℤ y +ℤ z ≡ x +ℤ (y +ℤ z)
add_assoc x y z =
    eq_of_parts (x +ℤ y +ℤ z) (x +ℤ (y +ℤ z))
      (omega (arith, +ℤ_parts x y, +ℤ_parts (x +ℤ y) z, +ℤ_parts y z, +ℤ_parts x (y +ℤ z)))

add_comm : (x y : ℤ) → x +ℤ y ≡ y +ℤ x
add_comm x y = eq_of_parts (x +ℤ y) (y +ℤ x) (omega (arith, +ℤ_parts x y, +ℤ_parts y x))

add-zero : (x : ℤ) → x +ℤ pos 0 ≡ x
add-zero x = eq_of_parts (x +ℤ pos 0) x (omega (arith, +ℤ_parts x (pos 0)))

-- What an order has left: lots on the other side are the last resting order's.
abbrev pub remaining : Bool → ℤ → ℤ
remaining is_buy left = if wants_more is_buy left then left else pos 0

kept :
    (is_buy : Bool) (lots v : ℤ)
    → wants_more (not is_buy) lots ≡ false
    → lots +ℤ v ≡ v +ℤ remaining is_buy lots
kept is_buy lots v h = add_comm lots v ∙ ap (λ x. v +ℤ x) (whole is_buy h)
  where
    whole : (is_buy : Bool) → wants_more (not is_buy) lots ≡ false → lots ≡ remaining is_buy lots
    whole true h = eq_of_parts lots (remaining true lots) (ground arith)
    whole false h = eq_of_parts lots (remaining false lots) (ground arith)

none_remains :
    (is_buy : Bool) (left : ℤ) → wants_more (not is_buy) left ≡ true → remaining is_buy left ≡ pos 0
none_remains true left h = ground arith
none_remains false left h = ground arith

-- The lots of the order and of the queue are those of the queue that is left and what the order has
-- left.
pub match_orders-volume :
    (is_buy : Bool) (limit : ℕ) (es : List Entry) (lots : ℤ)
    → wants_more (not is_buy) lots ≡ false
    → let m = match_orders is_buy limit es lots in
      lots +ℤ volume es ≡ volume m.queue +ℤ remaining is_buy m.left
unfolding match_orders volume
match_orders-volume is_buy limit [] lots h = kept is_buy lots (pos 0) h
match_orders-volume is_buy limit ((price, o) ∷ es) lots h =
    let new = lots +ℤ o.quantity_lots in
    elim (Bool-cases (not (wants_more is_buy lots) || worse is_buy limit price)) [
      | inl stop ↦ rw stop (kept is_buy lots (o.quantity_lots +ℤ volume es) h)
      | inr go ↦ elim (Bool-cases (wants_more (not is_buy) new)) [
        | inl over ↦
            rw (go, over)
              (sym (add_assoc lots o.quantity_lots (volume es))
                ∙ sym (add-zero (new +ℤ volume es))
                ∙ ap (λ x. new +ℤ volume es +ℤ x) (sym (none_remains is_buy new over)))
        | inr under ↦
            rw (go, under)
              (sym (add_assoc lots o.quantity_lots (volume es))
                ∙ match_orders-volume is_buy limit es new under)
      ]
    ]
