-- ===== src/Heap.antt =====
-- kernel/heap.cc: the kernel's heap, an array of 32-bit ints cut into blocks. A block carries its
-- size at both ends, negated while it is taken, and an available block is linked into a list
-- through its second and third int. An int is the word of its two's complement; reading or writing
-- an index that is not one of the array's is an outcome of its own. An operation holds the heap's
-- lock, so it is one step. `safe` is false in the kernel, true in the copy for user programs.
pub mod Links
pub mod Tiles
pub mod Reads
pub mod Writes
pub mod Steps
pub mod Cuts
pub mod Untouched
pub mod Allocation
pub mod Search
pub mod Release
pub mod Freeing
pub mod Start
mod Tests
use kernel_development_with.Prelude.{
  ℕ, zero, suc, ◌+◌, ◌-◌, ◌*◌, ◌/◌, ◌%◌, ◌^◌, ◌≤◌, ◌<◌, ◌≡◌, ◌≢◌, refl, Bool, true, false,
  if◌then◌else◌, ltb, leb, ◌==◌, not, ◌&&◌, ◌||◌, add32, sub32, arith,
}
use kernel_development_with.Threads.{put}

-- What a computation on the array comes to: a result, an access outside the array, a panic, or a
-- loop cut off by its fuel.
pub data Access {ℓ} (A : Type ℓ) : Type ℓ where
  done : A → Access A
  outside : Access A
  panicked : Access A
  endless : Access A

infixl 5 ◌>>=◌ ◌>>◌
abbrev pub ◌>>=◌ {ℓ κ} : {A : Type ℓ} {B : Type κ} → Access A → (A → Access B) → Access B
done a >>= f = f a
outside >>= f = outside
panicked >>= f = panicked
endless >>= f = endless

abbrev pub ◌>>◌ {ℓ} : {B : Type ℓ} → Access (Unit {0}) → Access B → Access B
m >> k = m >>= λ _. k

-- array, len, safe and avail; `base` is the array's address.
pub record Heap : Type 0 where
  pub base : ℕ
  pub array : ℕ → ℕ
  pub len : ℕ
  pub safe : Bool
  pub avail : ℕ

-- array[i], read and written
abbrev pub read : Heap → ℕ → Access ℕ
read s i = if ltb i s.len then done (s.array i) else outside

abbrev pub write : Heap → ℕ → ℕ → Access Heap
write s i v = if ltb i s.len then done (record s { array = put s.array i v }) else outside

-- x < 0, -x and abs(x)
abbrev pub is_negative : ℕ → Bool
is_negative x = leb (2 ^ 31) x

abbrev pub negate : ℕ → ℕ
negate x = sub32 0 x

abbrev pub abs : ℕ → ℕ
abs x = if is_negative x then negate x else x

unfoldable pub size : Heap → ℕ → Access ℕ
size s i = read s i >>= λ x. done (abs x)

unfoldable pub header_from_footer : Heap → ℕ → Access ℕ
header_from_footer s i = size s i >>= λ n. done (add32 (sub32 i n) 1)

unfoldable pub footer_from_header : Heap → ℕ → Access ℕ
footer_from_header s i = size s i >>= λ n. done (sub32 (add32 i n) 1)

-- sanity: the test that a word at the header is repeated at the footer
unfoldable pub matched : Heap → ℕ → ℕ → Access ℕ
matched s i footer =
    if is_negative footer || leb s.len footer
    then panicked
    else read s i >>= λ hv. read s footer >>= λ fv. if not (hv == fv) then panicked else done i

unfoldable pub sanity : Heap → ℕ → Access ℕ
sanity s i =
    if not s.safe
    then done i
    else if i == 0
    then done 0
    else if is_negative i || leb s.len i
    then panicked
    else footer_from_header s i >>= λ footer. matched s i footer

unfoldable pub left : Heap → ℕ → Access ℕ
left s i = header_from_footer s (sub32 i 1) >>= λ j. sanity s j

unfoldable pub right : Heap → ℕ → Access ℕ
right s i = size s i >>= λ n. sanity s (add32 i n)

unfoldable pub next : Heap → ℕ → Access ℕ
next s i = read s (add32 i 1) >>= λ j. sanity s j

unfoldable pub prev : Heap → ℕ → Access ℕ
prev s i = read s (add32 i 2) >>= λ j. sanity s j

unfoldable pub set_next : Heap → ℕ → ℕ → Access Heap
set_next s i x = write s (add32 i 1) x

unfoldable pub set_prev : Heap → ℕ → ℕ → Access Heap
set_prev s i x = write s (add32 i 2) x

-- remove: the link into the block, then the link back into it
unfoldable pub bypass : Heap → ℕ → ℕ → Access Heap
bypass s p n = if p == 0 then done (record s { avail = n }) else set_next s p n

unfoldable pub remove : Heap → ℕ → Access Heap
remove s i = do
  p ← prev s i
  n ← next s i
  s' ← bypass s p n
  if not (n == 0) then set_prev s' n p else done s'

unfoldable pub make_avail : Heap → ℕ → ℕ → Access Heap
make_avail s i ints = do
  s1 ← write s i ints
  footer ← footer_from_header s1 i
  s2 ← write s1 footer ints
  s3 ← set_next s2 i s2.avail
  s4 ← set_prev s3 i 0
  s5 ← if not (s4.avail == 0) then set_prev s4 s4.avail i else done s4
  done (record s5 { avail = i })

unfoldable pub make_taken : Heap → ℕ → ℕ → Access Heap
make_taken s i ints = do
  s1 ← write s i (negate ints)
  footer ← footer_from_header s1 i
  write s1 footer (negate ints)

unfoldable pub is_avail : Heap → ℕ → Access Bool
is_avail s i = read s i >>= λ x. done (not (x == 0) && not (is_negative x))

unfoldable pub is_taken : Heap → ℕ → Access Bool
is_taken s i = read s i >>= λ x. done (is_negative x)

-- malloc: the number of ints to look for
unfoldable pub request : ℕ → ℕ
request bytes = let ints = add32 bytes 3 / 4 + 2 in if ltb ints 4 then 4 else ints

-- malloc: the smallest block among the first that are large enough. `best` is mx and it.
unfoldable pub better : ℕ → ℕ → ℕ → ℕ × ℕ → ℕ × ℕ
better ints p n best = if leb ints n && ltb n best.0 then (n, p) else best

unfoldable pub search : ℕ → Heap → ℕ → ℕ → ℕ × ℕ → ℕ → Access (ℕ × ℕ)
search zero s ints count best p = endless
search (suc fuel) s ints count best p =
    if p == 0
    then done best
    else is_avail s p >>= λ b.
        if not b
        then panicked
        else size s p >>= λ n.
            let best' = better ints p n best in
            let count' = if leb ints n then count - 1 else count in
            if leb ints n && (count' == 0)
            then done best'
            else next s p >>= λ q. search fuel s ints count' best' q

-- malloc: what is left of a block is a block when it is large enough
unfoldable pub split : Heap → ℕ → ℕ → ℕ → Access Heap
split s it mx ints =
    let extra = sub32 mx ints in
    if leb 4 extra && not (is_negative extra)
    then (make_taken s it ints >>= λ s'. make_avail s' (add32 it ints) extra)
    else make_taken s it mx

-- malloc: the block found is taken off the list and cut
unfoldable pub grant : Heap → ℕ → ℕ × ℕ → Access (ℕ × Heap)
grant s ints (mx, it) = do
  s1 ← remove s it
  s2 ← split s1 it mx ints
  done (add32 s.base (4 * it + 4), s2)

-- malloc(bytes)
unfoldable pub malloc : ℕ → Heap → ℕ → Access (ℕ × Heap)
malloc fuel s bytes =
    if bytes == 0
    then done (s.base, s)
    else let ints = request bytes in
      search fuel s ints 20 (2 ^ 31 - 1, 0) s.avail >>= λ best.
      if not (best.1 == 0) then grant s ints best else done (0, s)

-- operator new(size)
unfoldable pub new_object : ℕ → Heap → ℕ → Access (ℕ × Heap)
new_object fuel s size = malloc fuel s size >>= λ r. if r.0 == 0 then panicked else done r

-- heapInit: the three blocks
unfoldable pub first_blocks : Heap → ℕ → ℕ → Access Heap
first_blocks s base bytes = do
  let n = bytes / 4
  s1 ← make_taken (record s { base = base; len = n }) 0 2
  s2 ← make_avail s1 2 (sub32 n 4)
  make_taken s2 (sub32 n 2) 2

-- heapInit(base, bytes): the heap, and the address of its lock, which has `lock_size` bytes.
unfoldable pub heap_init : ℕ → ℕ → Heap → ℕ → ℕ → Access (ℕ × Heap)
heap_init fuel lock_size s base bytes =
    first_blocks s base bytes >>= λ s'. new_object fuel s' lock_size

-- free: an available neighbour is taken off the list and joined
unfoldable pub join : Heap → ℕ → ℕ → Access (Heap × ℕ)
join s j sz = do s' ← remove s j; n ← size s' j; done (s', add32 sz n)

unfoldable pub join_left : Heap → ℕ → ℕ → ℕ → Access (Heap × ℕ × ℕ)
join_left s l idx sz = is_avail s l >>= λ b.
    if b then (join s l sz >>= λ whole. done (whole.0, l, whole.1)) else done (s, idx, sz)

unfoldable pub join_right : Heap → ℕ → ℕ → Access (Heap × ℕ)
join_right s r sz = is_avail s r >>= λ b. if b then join s r sz else done (s, sz)

unfoldable pub release : Heap → ℕ → Access Heap
release s idx = do
  sz ← size s idx
  l ← left s idx
  r ← right s idx
  joined ← join_left s l idx sz
  whole ← join_right joined.0 r joined.2
  make_avail whole.0 joined.1 whole.1

-- free(p)
unfoldable pub free : Heap → ℕ → Access Heap
free s p =
    if p == 0
    then done s
    else if p == s.base
    then done s
    else let idx = sub32 (sub32 p s.base / 4) 1 in
      sanity s idx >>= λ idx'. is_taken s idx >>= λ b. if not b then panicked else release s idx
