-- ===== src/CString.antt =====
-- string.c over the bytes of the memory. A region does not run over the end of the address space.
pub mod Moves
pub mod Strings
pub mod Names
mod Tests
use mit_xv.Prelude.{
  ℕ, zero, suc, ◌+◌, ◌*◌, ◌/◌, ◌%◌, not, ◌&&◌, Option, none, some, ltb, ◌==◌, if◌then◌else◌, update,
  sub32,
}

-- Bytes by their address.
abbrev pub Mem : Type 0
Mem = ℕ → ℕ

-- `rep stosb` and `rep stosl` of x86.h; a word is stored with its low byte first.
unfoldable pub stosb : ℕ → ℕ → ℕ → Mem → Mem
stosb zero dst value m = m
stosb (suc n) dst value m = stosb n (dst + 1) value (update m dst (value % 256))

abbrev pub store_word : ℕ → ℕ → Mem → Mem
store_word dst w m =
    update
      (update (update (update m dst (w % 256)) (dst + 1) (w / 256 % 256)) (dst + 2)
        (w / 65536 % 256))
      (dst + 3) (w / 16777216 % 256)

unfoldable pub stosl : ℕ → ℕ → ℕ → Mem → Mem
stosl zero dst value m = m
stosl (suc n) dst value m = stosl n (dst + 4) value (store_word dst value m)

-- `(c<<24)|(c<<16)|(c<<8)|c` of a byte
abbrev pub four_times : ℕ → ℕ
four_times c = c * 16777216 + c * 65536 + c * 256 + c

pub memset : ℕ → ℕ → ℕ → Mem → Mem
memset dst c n m =
    if (dst % 4 == 0) && (n % 4 == 0)
    then stosl (n / 4) dst (four_times (c % 256)) m
    else stosb n dst c m

-- The loops of `memmove`, with `n` bytes left.
unfoldable pub copy_up : ℕ → ℕ → ℕ → Mem → Mem
copy_up zero d s m = m
copy_up (suc n) d s m = copy_up n (d + 1) (s + 1) (update m d (m s))

unfoldable pub copy_down : ℕ → ℕ → ℕ → Mem → Mem
copy_down zero d s m = m
copy_down (suc n) d s m = copy_down n d s (update m (d + n) (m (s + n)))

pub memmove : ℕ → ℕ → ℕ → Mem → Mem
memmove dst src n m =
    if ltb src dst && ltb dst (src + n) then copy_down n dst src m else copy_up n dst src m

-- The result is an `int`, as the `uint` of the same bits.
unfoldable pub memcmp : ℕ → ℕ → ℕ → Mem → ℕ
memcmp v1 v2 zero m = 0
memcmp v1 v2 (suc n) m =
    let rest = memcmp (v1 + 1) (v2 + 1) n m in if m v1 == m v2 then rest else sub32 (m v1) (m v2)

unfoldable pub strncmp : ℕ → ℕ → ℕ → Mem → ℕ
strncmp p q zero m = 0
strncmp p q (suc n) m =
    let rest = strncmp (p + 1) (q + 1) n m in
    if not (m p == 0) && (m p == m q) then rest else sub32 (m p) (m q)

-- The second loop of `strncpy`.
unfoldable pub pad : ℕ → ℕ → Mem → Mem
pad zero s m = m
pad (suc n) s m = pad n (s + 1) (update m s 0)

-- `strncpy`, with `n` bytes left.
unfoldable pub strncpy : ℕ → ℕ → ℕ → Mem → Mem
strncpy s t zero m = m
strncpy s t (suc n) m =
    let copied = update m s (m t) in
    let rest = strncpy (s + 1) (t + 1) n copied in if m t == 0 then pad n (s + 1) copied else rest

-- The loop of `safestrcpy` and the store behind it, with `n` bytes left but for the last.
unfoldable pub copy_name : ℕ → ℕ → ℕ → Mem → Mem
copy_name s t zero m = update m s 0
copy_name s t (suc n) m =
    let copied = update m s (m t) in
    let rest = copy_name (s + 1) (t + 1) n copied in
    if m t == 0 then update copied (s + 1) 0 else rest

-- `safestrcpy`, whose `n` is not negative here.
pub safestrcpy : ℕ → ℕ → ℕ → Mem → Mem
safestrcpy s t zero m = m
safestrcpy s t (suc n) m = copy_name s t n m

-- The loop of `strlen` from index `n` on, with fuel for each byte up to the first 0.
unfoldable pub strlen_from : ℕ → ℕ → ℕ → Mem → Option ℕ
strlen_from zero s n m = none
strlen_from (suc k) s n m =
    let rest = strlen_from k s (n + 1) m in if m (s + n) == 0 then some n else rest
