-- ===== src/Matcher/Engine/Ring.antt =====
-- The ring of responses between HandleMarketOrder, which writes the reports of an order, and the
-- loop that drains them.
use espacekilly.Base.{
  ℕ, suc, ◌+◌, ◌-◌, ◌%◌, ◌^◌, ◌≤◌, ◌<◌, ◌≡◌, ◌≢◌, refl, ap, ◌∙◌, List, [], ◌∷◌, arith, length,
  update, update_self, update_ne,
}
use espacekilly.Types.{MessageResponse, k_fulfilled_orders_count}
use espacekilly.Matcher.Engine.{pending}
use espacekilly.Matcher.Engine.Drain.{emplaced}
use espacekilly.Matcher.OrderBook.{OrderBook, inc, fulfilled_slot}
use espacekilly.Matcher.Priority.{logged}

-- The index behind the responses that were written.
logged-index :
    (rs : List MessageResponse) (ring : ℕ → MessageResponse) (i : ℕ)
    → i < 2 ^ 64
    → (logged rs ring i).1 ≡ (i + length rs) % 2 ^ 64
logged-index [] ring i h = omega arith
logged-index (r ∷ rs) ring i h =
    let e = logged-index rs (update ring (fulfilled_slot i) r) (inc i) (omega arith) in
    omega (arith, e)

-- Responses written ahead of an element of the ring leave it alone, as long as they do not go
-- around.
logged-ahead :
    (rs : List MessageResponse) (ring : ℕ → MessageResponse) (i d : ℕ)
    → 0 < d
    → d + length rs ≤ k_fulfilled_orders_count
    → (logged rs ring ((i + d) % 2 ^ 64)).0 (fulfilled_slot i) ≡ ring (fulfilled_slot i)
logged-ahead [] ring i d h k = refl
logged-ahead (r ∷ rs) ring i d h k =
    let j = (i + d) % 2 ^ 64 in
    let next : inc j ≡ (i + suc d) % 2 ^ 64 = omega arith in
    let apart : fulfilled_slot j ≢ fulfilled_slot i = omega arith in
    ap (λ n. (logged rs (update ring (fulfilled_slot j) r) n).0 (fulfilled_slot i)) next
    ∙ logged-ahead rs (update ring (fulfilled_slot j) r) i (suc d) (omega arith) (omega arith)
    ∙ update_ne ring r apart

-- The write index once an order is reported.
written :
    (b c : OrderBook) (rs : List MessageResponse)
    → b.filled_write_idx < 2 ^ 64
    → (c.fulfilled, c.filled_write_idx) ≡ logged rs b.fulfilled b.filled_write_idx
    → c.filled_write_idx ≡ (b.filled_write_idx + length rs) % 2 ^ 64
written b c rs h e =
    let last : c.filled_write_idx ≡ (logged rs b.fulfilled b.filled_write_idx).1 =
      ap (λ x. x.1) e in
    last ∙ logged-index rs b.fulfilled b.filled_write_idx h

-- The number of fills that is measured.
pub fills-length :
    (b c : OrderBook) (rs : List MessageResponse)
    → b.filled_write_idx < 2 ^ 64
    → (c.fulfilled, c.filled_write_idx) ≡ logged rs b.fulfilled b.filled_write_idx
    → length rs ≤ k_fulfilled_orders_count
    → ((c.filled_write_idx + (2 ^ 64 - b.filled_write_idx)) % 2 ^ 64) % 2 ^ 32 ≡ length rs
fills-length b c rs h e k = let w = written b c rs h e in omega (arith, w)

module _ {Q : Type 0} (try_emplace : Q → MessageResponse → Q) where
  -- The queue after these responses.
  unfoldable pub deliver : List MessageResponse → Q → Q
  deliver [] q = q
  deliver (r ∷ rs) q = deliver rs (try_emplace q r)

  emplaced-logged :
      (rs : List MessageResponse) (ring : ℕ → MessageResponse) (i : ℕ) (q : Q)
      → i < 2 ^ 64
      → length rs ≤ k_fulfilled_orders_count
      → emplaced try_emplace (length rs) i (logged rs ring i).0 q ≡ deliver rs q
  unfolding emplaced deliver
  emplaced-logged [] ring i q h k = refl
  emplaced-logged (r ∷ rs) ring i q h k =
      let after = update ring (fulfilled_slot i) r in
      let first =
        logged-ahead rs after i 1 (omega arith) (omega arith)
        ∙ update_self ring (fulfilled_slot i) r in
      ap
        (λ x.
          emplaced try_emplace (length rs) (inc i) (logged rs after (inc i)).0 (try_emplace q x))
        first
      ∙ emplaced-logged rs after (inc i) (try_emplace q r) (omega arith) (omega arith)

  -- Where the two indices met before the order, and it fills at most as many orders as the ring
  -- has elements, the loop puts its reports into the queue, in order, each once.
  pub drained :
      (b c : OrderBook) (rs : List MessageResponse) (q : Q)
      → b.filled_read_idx < 2 ^ 64
      → b.filled_write_idx ≡ b.filled_read_idx
      → c.filled_read_idx ≡ b.filled_read_idx
      → (c.fulfilled, c.filled_write_idx) ≡ logged rs b.fulfilled b.filled_write_idx
      → length rs ≤ k_fulfilled_orders_count
      → emplaced try_emplace (pending c) c.filled_read_idx c.fulfilled q ≡ deliver rs q
  drained b c rs q h met read e k =
      let last = written b c rs (omega arith) e in
      let count : pending c ≡ length rs = omega (arith, last) in
      let ring : c.fulfilled ≡ (logged rs b.fulfilled b.filled_read_idx).0 =
        ap (λ x. x.0) e ∙ ap (λ i. (logged rs b.fulfilled i).0) met in
      rw (count, read, ring) (emplaced-logged rs b.fulfilled b.filled_read_idx q h k)
