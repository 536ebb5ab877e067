-- ===== src/LockList/Doubly.antt =====
-- LockList.hpp: what the functions of `TMPDoublyLockList` do between `Lock` and `Unlock`.
use winsock_multi_thread_ser.Base.{Ptr, Run, ◌>>=◌, Layout}
use winsock_multi_thread_ser.Memory.{MemoryPool}
use winsock_multi_thread_ser.TmpDoublyList
use winsock_multi_thread_ser.TmpDoublyList.{TmpDoublyList}

module _ {ℓ} {A : Type ℓ} where
  unfoldable pub lock_get_node :
      ⦃y : Layout A⦄
      → Ptr
      → Ptr
      → MemoryPool
      → TmpDoublyList A
      → Run (MemoryPool × TmpDoublyList A × Ptr)
  lock_get_node = TmpDoublyList.get_node

  unfoldable pub lock_link : Ptr → TmpDoublyList A → Run (TmpDoublyList A)
  lock_link = TmpDoublyList.link

  unfoldable pub lock_unlink : Ptr → TmpDoublyList A → Run (TmpDoublyList A)
  lock_unlink unlink_node l = do r ← TmpDoublyList.unlink unlink_node l; Run.ok r.0

  unfoldable pub lock_free_node :
      ⦃y : Layout A⦄ → Ptr → TmpDoublyList A → Run (TmpDoublyList A × Ptr)
  lock_free_node = TmpDoublyList.free_node

  unfoldable pub lock_get_head_node : TmpDoublyList A → Ptr
  lock_get_head_node l = l.head_node

  unfoldable pub lock_unlink_free_node :
      ⦃y : Layout A⦄ → Ptr → TmpDoublyList A → Run (TmpDoublyList A × Ptr)
  lock_unlink_free_node node l = do
    r ← TmpDoublyList.unlink node l
    TmpDoublyList.free_node node r.0
