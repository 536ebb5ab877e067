-- ===== src/Tool/Copy.antt =====
-- What `Tool::sMemcpy` writes.
use winsock_multi_thread_ser.Base.{
  Bytes, ℕ, ◌≤◌, ◌≡◌, some, ◌++◌, arith, length, take, drop, length-append, length-take,
  length-drop, ok,
}
use Prim.Native.Nat.{min}
use winsock_multi_thread_ser.Tool.{s_memcpy}

-- Where the stated length of the destination is no more than its real one, and the source holds
-- the bytes that are copied, the copy never leaves the destination: it replaces the first
-- `min dest_len src_len` bytes and keeps all the others.
pub s_memcpy-min :
    (dest src : Bytes) (dest_len src_len : ℕ)
    → dest_len ≤ length dest
    → min dest_len src_len ≤ length src
    → s_memcpy (some dest) dest_len (some src) src_len
      ≡ ok (some (take (min dest_len src_len) src ++ drop (min dest_len src_len) dest))
unfolding s_memcpy
s_memcpy-min dest src dest_len src_len h k = ground arith

-- So the destination keeps its length.
pub length-s_memcpy :
    (dest src : Bytes) (n : ℕ)
    → n ≤ length dest
    → n ≤ length src
    → length (take n src ++ drop n dest) ≡ length dest
length-s_memcpy dest src n h k =
    omega (arith, length-append (take n src) (drop n dest), length-take n src, length-drop n dest)
