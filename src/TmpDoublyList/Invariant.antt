-- ===== src/TmpDoublyList/Invariant.antt =====
-- When the pointers and the counter of a doubly linked list fit together.
use winsock_multi_thread_ser.Base.{
  ◌≤◌, ◌<◌, ◌≡◌, true, List, length, Ptr, null, count, last_or, Chain,
}
use winsock_multi_thread_ser.TmpDoublyList.{TmpDoublyList}
use winsock_multi_thread_ser.TmpDoublyList.Back.{Back}

-- `linked` are the nodes from head to tail, by `pNext` and, backwards, by `pPrev`.
pub record IsDouble {ℓ} {A : Type ℓ} (l : TmpDoublyList A) (linked : List Ptr) : Type ℓ where
  pub chain : Chain l.next l.head_node linked
  pub back : Back l.prev null linked
  pub tail : l.tail_node ≡ last_or null linked
  pub links : l.node_link_count ≡ length linked
  pub once : (a : Ptr) → count a linked ≤ 1
  pub not_null : count null linked ≡ 0
  pub all_live : (a : Ptr) → 0 < count a linked → l.live a ≡ true
