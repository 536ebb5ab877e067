-- ===== src/CString.antt =====
-- What the code uses of C strings: MintServer/src/GameServer.cpp, MintServer/src/MTLibrary/TCPServer.cpp
-- and MintClient/src/main.cpp.
use winsock_multi_thread_ser.Base.{
  ℕ, zero, suc, ◌+◌, ◌≡◌, refl, Bool, false, ◌&&◌, [], ◌∷◌, ◌++◌, arith, ltb, ◌==◌, if◌then◌else◌,
  length, drop, Bytes, byte_at, count, Run, ok, fault, ◌>>=◌,
}

-- The characters of a C string. An array with no zero byte is none: reading on is undefined.
unfoldable pub c_string : Bytes → Run Bytes
c_string [] = fault
c_string (b ∷ bs) = if b == 0 then ok [] else do rest ← c_string bs; ok (b ∷ rest)

-- `strcmp(buffer, text) == 0` for a text with no zero byte: the buffer starts with the text and a 0.
unfoldable pub strcmp_equal : Bytes → Bytes → Bool
strcmp_equal buffer [] = byte_at buffer 0 == 0
strcmp_equal [] (t ∷ ts) = false
strcmp_equal (b ∷ bs) (t ∷ ts) = b == t && strcmp_equal bs ts

-- `strcpy_s(dest, size, src)`: the text with its zero byte; where it does not fit, the process is
-- ended. The bytes behind it stay.
unfoldable pub strcpy_s : Bytes → ℕ → Bytes → Run Bytes
unfolding c_string
strcpy_s dest size src = do
  text ← c_string src
  if ltb (length text) size then ok (text ++ 0 ∷ drop (length text + 1) dest) else fault

-- The text that is in an array up to its first zero byte.
pub c_string-append : (text junk : Bytes) → count 0 text ≡ 0 → c_string (text ++ 0 ∷ junk) ≡ ok text
unfolding c_string
c_string-append [] junk h = refl
c_string-append (zero ∷ bs) junk h = absurd (ground (arith, h))
c_string-append (suc b ∷ bs) junk h =
    rw (c_string-append bs junk (ground (arith, h))) (ground arith)
