-- ===== src/LockList/Nodes.antt =====
-- A node that leaves a locked list for good.
use winsock_multi_thread_ser.Base.{
  ◌<◌, ◌≡◌, List, ◌∷◌, arith, ==-refl, Ptr, null, count, erase, Layout, Returns, Returns-bind,
}
use winsock_multi_thread_ser.TmpSinglyList.{TmpSinglyList}
use winsock_multi_thread_ser.TmpSinglyList.Invariant.{IsList}
use winsock_multi_thread_ser.TmpSinglyList.Unlink.{unlink-erase}
use winsock_multi_thread_ser.TmpSinglyList.Nodes.{free_node-IsList}
use winsock_multi_thread_ser.LockList.{lock_unlink_free_node}

module _ {ℓ} {A : Type ℓ} ⦃y : Layout A⦄ where
  -- `LockUnlinkFreeNode` of a linked node ends without undefined behaviour: the other nodes stay in
  -- their order, the node stands in front of the free list and nobody holds it, the caller's pointer
  -- is `NULL`, and the pointers and counters of the list fit together again.
  pub lock_unlink_free_node-IsList :
      (l : TmpSinglyList A) (t : Ptr) (xs hs fs : List Ptr)
      → IsList l xs hs fs
      → 0 < count t xs
      → Returns
          (λ r. IsList r.0 (erase t xs) hs (t ∷ fs) × (r.1 ≡ null))
          (lock_unlink_free_node t l)
  unfolding lock_unlink_free_node
  lock_unlink_free_node-IsList l t xs hs fs v inside =
      Returns-bind (unlink-erase l t xs hs fs v inside) (λ l' w.
        let freed = free_node-IsList l' t (erase t xs) (t ∷ hs) fs w.0 (ground arith) in
        rw (==-refl t) at freed)
