-- ===== src/MemoryPool.antt =====
-- cpputilsm::MemoryPoolBase: src/cpputilsm/cpputilsm_memorypool.cpp and
-- src/include/cpputilsm/memorypool.hpp.
--
-- An `Item*` is the offset of its header in the buffer, `none` for the null pointer; a `void*` is
-- an address, 0 for the null pointer. `items` is what the buffer holds at an offset, read as a
-- header, and `bytes` what it holds as data of the client. `size_t` has 64 bits, so `sizeof(Item)`
-- is 32.
pub mod Layout
pub mod Blocks
pub mod Dealloc
pub mod Alloc
pub mod Realloc
pub mod Client
pub mod History
pub mod Overflow
use old_crash_investigator.Base.{
  ℕ, zero, suc, ◌+◌, ◌-◌, ◌*◌, ◌%◌, Bool, true, false, ◌&&◌, Option, none, some, ltb, leb, ◌==◌,
  if◌then◌else◌, update, Run, ok, stop, Stop, assertion_failed, out_of_fuel, ◌>>=◌, null, size_mod,
}

pub record Item : Type 0 where
  pub count : ℕ
  pub is_in_use : Bool
  pub prev : Option ℕ
  pub next : Option ℕ

pub record Pool : Type 0 where
  pub buffer : ℕ
  pub buffer_size : ℕ
  pub offset : ℕ
  pub first : Option ℕ
  pub last : Option ℕ
  pub items : ℕ → Item
  pub bytes : ℕ → ℕ

abbrev pub item_size : ℕ
item_size = 32

-- `MemoryPoolBase::Init`; the buffer's earlier contents are arbitrary.
unfoldable pub init : (buffer buffer_size : ℕ) → (ℕ → Item) → (ℕ → ℕ) → Pool
init buffer buffer_size items bytes = record {
  buffer = buffer;
  buffer_size = buffer_size;
  offset = 0;
  first = none;
  last = none;
  items = items;
  bytes = bytes;
}

-- `m_pLast->next = pItem`, or the first item.
unfoldable pub link_last : ℕ → Pool → Pool
link_last item p = elim p.last [
  | some l ↦ record p { items = update p.items l (record (p.items l) { next = some item }) }
  | none ↦ record p { first = some item }
]

-- The body of `Alloc` where there is room, up to the new offset.
unfoldable pub append_item : (count : ℕ) → Pool → Pool
unfolding link_last
append_item count p =
    let q = link_last p.offset p in
    record q {
      items =
          update q.items p.offset
            (record { count = count; is_in_use = true; prev = p.last; next = none });
      last = some p.offset;
    }

-- `MemoryPoolBase::Alloc`, its sums in `size_t`.
unfoldable pub alloc : (count : ℕ) → Pool → ℕ × Pool
unfolding append_item
alloc count p =
    let overall_size = (count + item_size) % size_mod in
    if ltb ((overall_size + p.offset) % size_mod) p.buffer_size
    then (
      p.buffer + p.offset + item_size,
      record (append_item count p) { offset = (p.offset + overall_size) % size_mod },
    )
    else (null, p)

-- `memset(pReturn, 0, cunCount)`, at the pointer's offset.
unfoldable pub clear : (offset count : ℕ) → (ℕ → ℕ) → ℕ → ℕ
clear offset count bytes a = if leb offset a && ltb a (offset + count) then 0 else bytes a

-- `MemoryPoolBase::Calloc`.
unfoldable pub calloc : (nmemb size : ℕ) → Pool → ℕ × Pool
calloc nmemb size p =
    let count = (nmemb * size) % size_mod in
    let (r, q) = alloc count p in
    if r == null then (r, q) else (r, record q { bytes = clear (r - q.buffer) count q.bytes })

unfoldable pub is_ptr : ℕ → Option ℕ → Bool
is_ptr a none = false
is_ptr a (some b) = a == b

-- `m_unOffset = 0; m_pFirst = m_pLast = CRASH_INVEST_NULL;`
unfoldable pub reset : Pool → Pool
reset p = record p { offset = 0; first = none; last = none }

-- The loop's way out at an item in use: it becomes the last one.
unfoldable pub cut_behind : (item real_ptr_offset : ℕ) → Pool → Pool
cut_behind a real_ptr_offset p = record p {
  items = update p.items a (record (p.items a) { next = none });
  last = some a;
  offset = real_ptr_offset;
}

-- The loop of `DeallocCheckedMemory` over the items before the last one.
unfoldable pub unwind : ℕ → (item : Option ℕ) → (real_ptr_offset : ℕ) → Pool → Run Pool
unfolding is_ptr reset cut_behind
unwind zero item real_ptr_offset p = stop out_of_fuel
unwind (suc fuel) none real_ptr_offset p = ok (record p { offset = real_ptr_offset })
unwind (suc fuel) (some a) real_ptr_offset p =
    let rest = unwind fuel (p.items a).prev a p in
    if (p.items a).is_in_use
    then ok (cut_behind a real_ptr_offset p)
    else if is_ptr a p.first
    then ok (reset p)
    else rest

-- `MemoryPoolBase::DeallocCheckedMemory`. The items lie at different offsets below `m_unOffset`,
-- so `m_unOffset + 1` rounds are enough.
unfoldable pub dealloc_checked_memory : (ptr_offset : ℕ) → Pool → Run Pool
unfolding unwind
dealloc_checked_memory ptr_offset p =
    let real_ptr_offset = ptr_offset - item_size in
    let item = p.items real_ptr_offset in
    let offset_after_alloc = (ptr_offset + item.count) % size_mod in
    if offset_after_alloc == p.offset
    then (if is_ptr real_ptr_offset p.first
        then ok (reset p)
        else unwind (suc p.offset) item.prev real_ptr_offset p)
    else (if ltb offset_after_alloc p.offset
        then ok (record p {
          items = update p.items real_ptr_offset (record item { is_in_use = false });
        })
        else stop assertion_failed)

-- `static_cast<uint8_t*>(a_ptr)-m_pBuffer`, as a `size_t`.
unfoldable pub ptr_offset_of : ℕ → Pool → ℕ
ptr_offset_of ptr p = (ptr + size_mod - p.buffer) % size_mod

-- `MemoryPoolBase::Dealloc`: whether the pointer was one of the pool's.
unfoldable pub dealloc : (ptr : ℕ) → Pool → Run (Bool × Pool)
unfolding ptr_offset_of dealloc_checked_memory
dealloc ptr p =
    let ptr_offset = ptr_offset_of ptr p in
    if ltb ptr_offset p.buffer_size
    then (if leb item_size ptr_offset
        then (do q ← dealloc_checked_memory ptr_offset p; ok (true, q))
        else stop assertion_failed)
    else ok (false, p)

-- `Realloc` of the last memory, which is extended or cut in place if there is space.
unfoldable pub resize_last : (ptr real_ptr_offset new_offset count : ℕ) → Pool → Bool × ℕ × Pool
resize_last ptr real_ptr_offset new_offset count p =
    if ltb new_offset p.buffer_size
    then (
      true,
      ptr,
      record p {
        offset = new_offset;
        items = update p.items real_ptr_offset (record (p.items real_ptr_offset) { count = count });
      },
    )
    else (true, null, p)

-- `Realloc` of a pointer of the pool to another count than 0.
unfoldable pub realloc_checked_memory : (ptr ptr_offset count : ℕ) → Pool → Run (Bool × ℕ × Pool)
realloc_checked_memory ptr ptr_offset count p =
    let item = p.items (ptr_offset - item_size) in
    let offset_after_alloc = (ptr_offset + item.count) % size_mod in
    if count == item.count
    then ok (true, ptr, p)
    else if offset_after_alloc == p.offset
    then ok (
        resize_last ptr (ptr_offset - item_size)
          ((offset_after_alloc + count + size_mod - item.count) % size_mod) count p)
    else if ltb offset_after_alloc p.offset
    then (do q ← dealloc_checked_memory ptr_offset p; let (r, q') = alloc count q; ok (true, r, q'))
    else stop assertion_failed

-- `MemoryPoolBase::Realloc`: whether the memory is correct, and `*a_ppRet`.
unfoldable pub realloc : (ptr count : ℕ) → Pool → Run (Bool × ℕ × Pool)
unfolding ptr_offset_of realloc_checked_memory
realloc ptr count p =
    let ptr_offset = ptr_offset_of ptr p in
    if ptr == null
    then (let (r, q) = alloc count p in ok (true, r, q))
    else if ltb ptr_offset p.buffer_size
    then (if leb item_size ptr_offset
        then (if count == 0
            then (do q ← dealloc_checked_memory ptr_offset p; ok (true, null, q))
            else realloc_checked_memory ptr ptr_offset count p)
        else stop assertion_failed)
    else ok (false, null, p)
