-- ===== src/Matcher/Engine/Drain.antt =====
-- The loop of matchAllOrders that puts the fulfilled responses into the queue.
use espacekilly.Base.{ℕ, zero, suc, ◌≡◌, ◌∙◌, ap, sym, ◌==◌, true, false, some, arith}
use espacekilly.Types.{MessageResponse}
use espacekilly.Matcher.Engine.{drain, pending}
use espacekilly.Matcher.OrderBook.{OrderBook, inc, fulfilled_slot}
use espacekilly.Matcher.OrderBook.Index.{Cursors}

module _ {Q : Type 0} (try_emplace : Q → MessageResponse → Q) where
  -- The queue after `k` responses of the ring, from index `i` on.
  unfoldable pub emplaced : ℕ → ℕ → (ℕ → MessageResponse) → Q → Q
  emplaced zero i ring q = q
  emplaced (suc k) i ring q = emplaced k (inc i) ring (try_emplace q (ring (fulfilled_slot i)))

  abbrev pub caught_up : OrderBook → OrderBook
  caught_up b = record b { filled_read_idx = b.filled_write_idx }

  drain-more :
      (k : ℕ) (b : OrderBook) (q : Q)
      → Cursors b
      → pending b ≡ suc k
      → drain try_emplace (suc k) b q
        ≡ drain try_emplace k
            (record b { filled_read_idx = inc b.filled_read_idx })
            (try_emplace q (b.fulfilled (fulfilled_slot b.filled_read_idx)))
  unfolding drain
  drain-more k b q c e =
      let n : (b.filled_write_idx == b.filled_read_idx) ≡ false = ground arith in rw n

  drain-done :
      (b : OrderBook) (q : Q)
      → Cursors b
      → pending b ≡ 0
      → drain try_emplace 0 b q ≡ some (caught_up b, q)
  unfolding drain
  drain-done b q c e =
      let n : b.filled_write_idx ≡ b.filled_read_idx = omega arith in
      let t : (b.filled_write_idx == b.filled_read_idx) ≡ true = ground arith in
      rw t (ap (λ i. some (record b { filled_read_idx = i }, q)) (sym n))

  abbrev pub Drains : ℕ → OrderBook → Q → Type 0
  Drains k b q =
      drain try_emplace k b q ≡ some (caught_up b, emplaced k b.filled_read_idx b.fulfilled q)

  -- Where the two indices are `size_t`, the loop ends after as many rounds as the indices are apart,
  -- modulo 2^64; it puts the elements of the ring from the read index on into the queue, one by
  -- one, and the indices meet.
  pub drain_lem : (k : ℕ) (b : OrderBook) (q : Q) → Cursors b → pending b ≡ k → Drains k b q
  unfolding emplaced
  drain_lem zero b q c e = drain-done b q c e
  drain_lem (suc k) b q c e =
      drain-more k b q c e
      ∙ drain_lem k (record b { filled_read_idx = inc b.filled_read_idx })
          (try_emplace q (b.fulfilled (fulfilled_slot b.filled_read_idx))) (omega arith, c.1)
          (omega arith)
