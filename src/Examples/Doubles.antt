-- ===== src/Examples/Doubles.antt =====
-- Tests of the doubly linked list: three linked nodes at 8, 16 and 24, and one at 32.
use winsock_multi_thread_ser.Base.{
  ℕ, ◌+◌, ◌≡◌, false, Ptr, count, ◌||◌, refl, [], ◌∷◌, arith, ◌==◌, if◌then◌else◌, null, Returns,
}
use winsock_multi_thread_ser.TmpDoublyList.{TmpDoublyList, unlink}
use winsock_multi_thread_ser.TmpDoublyList.Insert.{link_insert_order_with_number}
use winsock_multi_thread_ser.TmpDoublyList.Insert.Order.{
  Placed, Ascending, link_insert_order_with_number-Ascending,
}
use winsock_multi_thread_ser.DoublyList.{DoublyList, release}
use winsock_multi_thread_ser.DoublyList.Release.{IsHeap, release-Deleted}
use winsock_multi_thread_ser.TmpDoublyList.Invariant.{IsDouble}
use winsock_multi_thread_ser.TmpDoublyList.Unlink.{Unlinked, unlink-Unlinked}

abbrev queue : TmpDoublyList ℕ
queue = record {
  object_count_max = 4;
  buffer_list = 40;
  buffer_list_count = 0;
  head_node = 8;
  tail_node = 24;
  node_use_count = 4;
  node_link_count = 3;
  free_list = null;
  free_list_count = 0;
  live = λ a. a == 8 || (a == 16 || (a == 24 || a == 32));
  node_data = λ a. a + 1;
  node_number = λ a. if a == 32 then 20 else a;
  next = λ a. if a == 8 then 16 else if a == 16 then 24 else null;
  prev = λ a. if a == 24 then 16 else if a == 16 then 8 else null;
}

queue-IsDouble : IsDouble queue (8 ∷ 16 ∷ 24 ∷ [])
queue-IsDouble = record {
  chain = (refl, (refl, (refl, refl)));
  back = (refl, (refl, (refl, tt)));
  tail = refl;
  links = refl;
  once = λ a. ground arith;
  not_null = refl;
  all_live = λ a i. ground arith;
}

unlink-Unlinked_example : Returns (Unlinked queue (8 ∷ 24 ∷ [])) (unlink 16 queue)
unlink-Unlinked_example = unlink-Unlinked queue 16 (8 ∷ 16 ∷ 24 ∷ []) queue-IsDouble (omega arith)

-- Its number is 20, and the others have 8, 16 and 24.
link_insert_order_with_number-Ascending_example :
    Returns (Placed queue (8 ∷ 16 ∷ 32 ∷ 24 ∷ [])) (link_insert_order_with_number 32 queue)
    × Ascending queue.node_number (8 ∷ 16 ∷ 32 ∷ 24 ∷ [])
link_insert_order_with_number-Ascending_example =
    link_insert_order_with_number-Ascending queue 32 (λ e. omega (arith, e)) refl (8 ∷ 16 ∷ 24 ∷ [])
      queue-IsDouble refl (omega arith) (omega arith, (omega arith, tt))

-- Two linked nodes, a free one, and one at 32 that was unlinked and not given back.
abbrev heap : DoublyList
heap = record {
  head_node = 8;
  tail_node = 16;
  node_use_count = 3;
  node_link_count = 2;
  free_list = 24;
  free_list_count = 1;
  live = λ a. a == 8 || (a == 16 || (a == 24 || a == 32));
  node_number = λ a. a;
  data_of = λ a. 0;
  prev = λ a. if a == 16 then 8 else null;
  next = λ a. if a == 8 then 16 else null;
}

release-Deleted_example :
    Returns
      (λ l'.
        ((a : Ptr) → l'.live a ≡ (if count a (8 ∷ 16 ∷ 24 ∷ []) == 0 then heap.live a else false))
        × IsHeap l' [] [])
      (release heap)
release-Deleted_example = release-Deleted heap (8 ∷ 16 ∷ []) (24 ∷ []) (record {
  chain = (refl, (refl, refl));
  free_chain = (refl, refl);
  links = refl;
  frees = refl;
  once = λ a. ground arith;
  not_null = refl;
  all_live = λ a i. ground arith;
})
