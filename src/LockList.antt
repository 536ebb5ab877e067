-- ===== src/LockList.antt =====
-- LockList.hpp: what the functions of the locked lists do between `Lock` and `Unlock`. The lock itself is
-- not modelled here.
pub mod Nodes
pub mod Doubly
use winsock_multi_thread_ser.Base.{
  ℕ, zero, suc, Bool, true, false, Option, none, some, List, [], ◌∷◌, ◌++◌, ◌==◌, if◌then◌else◌,
  Ptr, update, Run, ok, ◌>>=◌, Layout,
}
use winsock_multi_thread_ser.Memory.{MemoryPool}
use winsock_multi_thread_ser.TmpSinglyList
use winsock_multi_thread_ser.TmpSinglyList.{TmpSinglyList}

module _ {ℓ} {A : Type ℓ} where
  -- What the functions of `TMPSinglyLockList` do between `Lock` and `Unlock`.
  unfoldable pub lock_get_node :
      ⦃y : Layout A⦄
      → Ptr
      → Ptr
      → MemoryPool
      → TmpSinglyList A
      → Run (MemoryPool × TmpSinglyList A × Ptr)
  lock_get_node = TmpSinglyList.get_node

  unfoldable pub lock_link : Ptr → TmpSinglyList A → Run (TmpSinglyList A)
  lock_link = TmpSinglyList.link

  unfoldable pub lock_unlink : Ptr → TmpSinglyList A → Run (TmpSinglyList A)
  lock_unlink = TmpSinglyList.unlink

  unfoldable pub lock_free_node :
      ⦃y : Layout A⦄ → Ptr → TmpSinglyList A → Run (TmpSinglyList A × Ptr)
  lock_free_node = TmpSinglyList.free_node

  unfoldable pub lock_get_head_node : TmpSinglyList A → Ptr
  lock_get_head_node l = l.head_node

  unfoldable pub lock_unlink_free_node :
      ⦃y : Layout A⦄ → Ptr → TmpSinglyList A → Run (TmpSinglyList A × Ptr)
  lock_unlink_free_node node l = do l ← TmpSinglyList.unlink node l; TmpSinglyList.free_node node l
