-- ===== src/Tests/Pool.antt =====
-- The pool of nodes as the constructor leaves it, then with one node that rests at level 5.
use espacekilly.Base.{update_self, ◌+◌, ◌≡◌, refl, List, [], ◌∷◌, ◌++◌, arith, update}
use espacekilly.Matcher.Memory.{Ptr, slot, Heap}
use espacekilly.Matcher.IntrusiveList.Append.{Appends, append-IsRing}
use espacekilly.Matcher.IntrusiveList.Ring.{IsRing}
use espacekilly.Matcher.IntrusiveList.Unlink.{Unlinks, unlink-IsRing}
use espacekilly.Matcher.OrderBook.{fresh_heap}
use espacekilly.Matcher.OrderBook.Empty.{fresh-HasSentinels, fresh_blank}
use espacekilly.Matcher.OrdersData.{OrdersData, init}
use espacekilly.Matcher.OrdersData.Drop.{Dropped, drop_node-IsPool}
use espacekilly.Matcher.OrdersData.Init.{slots, all_slots, none_rest, slots-pos, init-IsPool}
use espacekilly.Matcher.OrdersData.Insert.{Inserted, insert-IsPool}
use espacekilly.Matcher.OrdersData.Invariant.{IsPool, Levels}

init-IsPool_example : IsPool (init fresh_heap) none_rest all_slots
init-IsPool_example = init-IsPool fresh_heap fresh-HasSentinels fresh_blank

-- The first node of level 5.
abbrev node : Ptr
node = slot 40960

abbrev others : List Ptr
others = slots 8191 (40960 + 1)

level_five : all_slots 5 ≡ node ∷ others
level_five = slots-pos 8192 8191 40960 refl

insert-IsPool_example : Inserted (init fresh_heap) none_rest all_slots 5 node others
insert-IsPool_example =
    insert-IsPool (init-IsPool fresh_heap fresh-HasSentinels fresh_blank) 5 (omega arith) level_five

insertion : Inserted (init fresh_heap) none_rest all_slots 5 node others
insertion =
    insert-IsPool (init-IsPool fresh_heap fresh-HasSentinels fresh_blank) 5 (omega arith) level_five

abbrev inserted : OrdersData
inserted = record {
  heap = insertion.0;
  free_lists = update (init fresh_heap).free_lists 5 ((init fresh_heap).heap.next node);
}

abbrev rests : Levels
rests = update none_rest 5 ([] ++ node ∷ [])

abbrev frees : Levels
frees = update all_slots 5 others

drop_node-IsPool_example : Dropped inserted rests frees 5 [] node []
drop_node-IsPool_example =
    drop_node-IsPool insertion.3 5 (omega arith) [] node []
      (update_self none_rest 5 ([] ++ node ∷ []))

-- A ring of two nodes, 200 and 201, at level 0.
abbrev next : Ptr → Ptr
next = update (update (update fresh_heap.next 1 200) 200 201) 201 1

abbrev prev : Ptr → Ptr
prev = update (update (update fresh_heap.prev 1 201) 200 1) 201 200

abbrev two : Heap
two = record fresh_heap { next = next; prev = prev }

two-IsRing : IsRing two 1 (200 ∷ 201 ∷ [])
two-IsRing = record {
  forward = (refl, (refl, refl));
  backward = (refl, (refl, refl));
  distinct = (refl, (refl, (refl, tt)));
}

append-IsRing_example : Appends two 1 202 (200 ∷ 201 ∷ [])
append-IsRing_example =
    append-IsRing two 1 202 (omega arith) (omega arith) (200 ∷ 201 ∷ []) refl refl two-IsRing

unlink-IsRing_example : Unlinks two 1 201 (200 ∷ []) []
unlink-IsRing_example = unlink-IsRing two 1 201 (200 ∷ []) [] (omega arith) refl two-IsRing
