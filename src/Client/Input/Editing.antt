-- ===== src/Client/Input/Editing.antt =====
-- The line that is typed.
use winsock_multi_thread_ser.Base.{
  ℕ, zero, suc, ◌+◌, ◌-◌, ◌%◌, ◌≤◌, ◌<◌, ◌≡◌, refl, sym, ap, ◌∙◌, inl, inr, true, false, List, [],
  ◌∷◌, ◌++◌, arith, ltb, ◌==◌, if◌then◌else◌, Bool-cases, length, length-append, length-take,
  length-replicate, take, drop, take-append, drop-append, drop-add, drop-replicate, append_assoc,
  replicate, Bytes, Run, ok, ◌>>=◌, Returns, returns, Returns-bind,
}
use winsock_multi_thread_ser.Receive.{write_at, packet_buffer_max}
use winsock_multi_thread_ser.Receive.Delivery.{write_at-ok}
use winsock_multi_thread_ser.Client.Input.{Chat, edit_key, backspace_key_code}

-- A line under an editor that knows no memory: a backspace takes the last character, and a line of
-- 511 characters is full.
abbrev pub edit_line : ℕ → Bytes → Bytes
edit_line ch text =
    if ch == backspace_key_code
    then take (length text - 1) text
    else if ltb (length text + 1) packet_buffer_max
    then text ++ ch % 256 ∷ []
    else text

abbrev pub edit_lines : List ℕ → Bytes → Bytes
edit_lines [] text = text
edit_lines (ch ∷ keys) text = edit_lines keys (edit_line ch text)

-- The keys one after the other.
unfoldable pub edit_keys : List ℕ → Chat → Run Chat
edit_keys [] k = ok k
edit_keys (ch ∷ keys) k = do k ← edit_key ch k; edit_keys keys k

-- The array holds the line, and zeros behind it: one at least.
pub record Holds (text : Bytes) (k : Chat) : Type 0 where
  pub buff : k.buff_message ≡ text ++ replicate (packet_buffer_max - length text) 0
  pub size : k.buff_message_length ≡ length text
  pub room : length text < packet_buffer_max

take-prefix : (n : ℕ) (xs ys : Bytes) → n ≤ length xs → take n (xs ++ ys) ≡ take n xs
take-prefix zero xs ys h = refl
take-prefix (suc n) [] ys h = absurd (omega (arith, h))
take-prefix (suc n) (x ∷ xs) ys h = ap (λ l. x ∷ l) (take-prefix n xs ys (omega (arith, h)))

drop-behind : (n : ℕ) (xs ys : Bytes) → drop (length xs + n) (xs ++ ys) ≡ drop n ys
drop-behind n xs ys = sym (drop-add (length xs) n (xs ++ ys)) ∙ ap (drop n) (drop-append xs ys)

length-Holds : (text : Bytes) (k : Chat) → Holds text k → length k.buff_message ≡ packet_buffer_max
length-Holds text k v = omega (
  arith,
  v.room,
  ap length v.buff,
  length-append text (replicate (packet_buffer_max - length text) 0),
  length-replicate {A = ℕ} (packet_buffer_max - length text) 0,
)

-- A character that is saved.
save-Holds :
    (ch : ℕ) (text : Bytes) (k : Chat)
    → Holds text k
    → length text + 1 < packet_buffer_max
    → Returns
        (λ b.
          Holds
            (text ++ ch ∷ [])
            (record { buff_message = b; buff_message_length = k.buff_message_length + 1 }))
        (write_at k.buff_message k.buff_message_length (ch ∷ []))
save-Holds ch text k v more =
    let n = packet_buffer_max - length text in
    let left : packet_buffer_max - length (text ++ ch ∷ []) ≡ n - 1 =
      omega (arith, length-append text (ch ∷ [])) in
    rw
      (
        write_at-ok k.buff_message (ch ∷ []) k.buff_message_length
            (omega (arith, v.size, more, length-Holds text k v)),
        v.size,
        v.buff,
        take-append text (replicate n 0),
        drop-behind 1 text (replicate n 0),
        drop-replicate {A = ℕ} 1 n 0 (omega (arith, more)),
      )
      (returns (record {
        buff =
            sym (append_assoc text (ch ∷ []) (replicate (n - 1) 0))
            ∙ ap (λ j. (text ++ ch ∷ []) ++ replicate j 0) (sym left);
        size = omega (arith, length-append text (ch ∷ []));
        room = omega (arith, more, length-append text (ch ∷ []));
      }))

-- A character that is taken.
take-Holds :
    (text : Bytes) (k : Chat)
    → Holds text k
    → 0 < length text
    → Returns
        (λ b.
          Holds
            (take (length text - 1) text)
            (record { buff_message = b; buff_message_length = k.buff_message_length - 1 }))
        (write_at k.buff_message (k.buff_message_length - 1) (0 ∷ []))
take-Holds text k v some =
    let n = packet_buffer_max - length text in
    let m = length text - 1 in
    let left : packet_buffer_max - length (take m text) ≡ suc n =
      omega (arith, some, v.room, length-take m text (omega arith)) in
    let behind : m + 1 ≡ length text + 0 = omega (arith, some) in
    rw
      (
        write_at-ok k.buff_message (0 ∷ []) (k.buff_message_length - 1)
            (omega (arith, v.size, v.room, some, length-Holds text k v)),
        v.size,
        v.buff,
        take-prefix m text (replicate n 0) (omega arith),
        behind,
        drop-behind 0 text (replicate n 0),
      )
      (returns (record {
        buff = ap (λ j. take m text ++ replicate j 0) (sym left);
        size = omega (arith, length-take m text (omega arith));
        room = omega (arith, v.room, length-take m text (omega arith));
      }))

none-left : (text : Bytes) → length text ≡ 0 → take (length text - 1) text ≡ text
none-left [] h = refl
none-left (x ∷ xs) h = absurd (omega (arith, h))

edit_key-Holds :
    (ch : ℕ) (text : Bytes) (k : Chat)
    → Holds text k
    → Returns (Holds (edit_line ch text)) (edit_key ch k)
unfolding edit_key
edit_key-Holds ch text k v = elim (Bool-cases (ch == backspace_key_code)) [
  | inl back ↦ elim (Bool-cases (k.buff_message_length == 0)) [
    | inl empty ↦
        let nothing : take (length text - 1) text ≡ text =
          none-left text (ground (arith, v.size, empty)) in
        rw (back, empty, nothing) (returns v)
    | inr some ↦
        rw (back, some)
          (Returns-bind (take-Holds text k v (ground (arith, v.size, some))) (λ b h. returns h))
  ]
  | inr char ↦ elim (Bool-cases (ltb (length text + 1) packet_buffer_max)) [
    | inl more ↦
        let same : ltb (k.buff_message_length + 1) packet_buffer_max ≡ true =
          ground (arith, v.size, more) in
        rw (char, more, same)
          (Returns-bind (save-Holds (ch % 256) text k v (ground (arith, more))) (λ b h. returns h))
    | inr full ↦
        let same : ltb (k.buff_message_length + 1) packet_buffer_max ≡ false =
          ground (arith, v.size, full) in
        rw (char, full, same) (returns v)
  ]
]

-- Whatever keys are hit, from an array that holds a line: no write is outside the array, and it holds
-- what the editor without memory makes of the line, at most 511 characters and a zero byte.
pub edit_keys-Holds :
    (keys : List ℕ) (text : Bytes) (k : Chat)
    → Holds text k
    → Returns (Holds (edit_lines keys text)) (edit_keys keys k)
unfolding edit_keys
edit_keys-Holds [] text k v = returns v
edit_keys-Holds (ch ∷ keys) text k v =
    Returns-bind (edit_key-Holds ch text k v)
      (λ k' v'. edit_keys-Holds keys (edit_line ch text) k' v')
