-- ===== src/Buffer.antt =====
-- src/lib/buffer.{h,cc}: a queue of chunks with the number of their bytes.
pub mod Content
pub mod Prefix
pub mod Merge
use ctornado.Base.{
  Bytes, List, Result, [], err, fault, if◌then◌else◌, is_nil, leb, length, ltb, max, min, no_fuel,
  none, ok, some, suc, take, zero, ℕ, ◌&&◌, ◌*◌, ◌++◌, ◌+◌, ◌-◌, ◌==◌, ◌∷◌, ◌>>=◌,
}
use ctornado.Str.{Str, bytes, len, substr, text}

pub record Buffer : Type 0 where
  pub chunk_dq : List Str
  pub size : ℕ

abbrev pub empty : Buffer
empty = record { chunk_dq = []; size = 0 }

unfoldable pub push : Buffer → Str → Buffer
push b chunk = record b { chunk_dq = b.chunk_dq ++ chunk ∷ []; size = b.size + len chunk }

-- the chunk in front and the others; reading it in an empty queue is undefined
unfoldable pub front : List Str → Result (Str × List Str)
front [] = err fault
front (c ∷ cs) = ok (c, cs)

pub pop : Buffer → Result (Str × Buffer)
unfolding front
pop b = do (c, cs) ← front b.chunk_dq; ok (c, record b { chunk_dq = cs; size = b.size - len c })

unfoldable pub top : Buffer → Result Str
unfolding front
top b = do (c, cs) ← front b.chunk_dq; ok c

pub clear : Buffer → Buffer
clear b = empty

-- The loop of `merge_prefix`: `remaining` bytes are still to be copied behind `copied`.
gather : List Str → ℕ → Bytes → Result (Bytes × List Str)
gather cs zero copied = ok (copied, cs)
gather [] (suc remaining) copied = err fault
gather (c ∷ cs) (suc remaining) copied =
    let whole = gather cs (suc remaining - len c) (copied ++ bytes c) in
    let part : Result (Bytes × List Str) = do
      rest ← substr c (suc remaining) none
      ok (copied ++ take (suc remaining) (bytes c), rest ∷ cs)
    in if ltb (suc remaining) (len c) then part else whole

-- the branches of `merge_prefix` at a queue that is not empty
merge_chunks : Str → List Str → ℕ → ℕ → Result (List Str)
unfolding gather
merge_chunks c cs size total =
    if is_nil cs && leb (len c) size
    then ok (c ∷ cs)
    else if size == 0
    then ok (c ∷ cs)
    else if len c == size
    then ok (c ∷ cs)
    else if ltb size (len c)
    then (do rest ← substr c size none; head ← substr c 0 (some size); ok (head ∷ rest ∷ cs))
    else do (prefix_buf, rest) ← gather (c ∷ cs) (min size total) []; ok (text prefix_buf ∷ rest)

merge_queue : List Str → ℕ → ℕ → Result (List Str)
unfolding merge_chunks
merge_queue [] size total = ok (text [] ∷ [])
merge_queue (c ∷ cs) size total = merge_chunks c cs size total

pub merge_prefix : Buffer → ℕ → Result Buffer
unfolding merge_queue
merge_prefix b size = do cs ← merge_queue b.chunk_dq size b.size; ok (record b { chunk_dq = cs })

double_queue : List Str → Buffer → Result Buffer
double_queue [] b = ok b
double_queue (c ∷ []) b = ok b
double_queue (c ∷ d ∷ cs) b = merge_prefix b (max (len c * 2) (len c + len d))

pub double_prefix : Buffer → Result Buffer
unfolding double_queue
double_prefix b = double_queue b.chunk_dq b

-- The loop of `remove_prefix`, over the queue and `size_`.
remove_chunks : List Str → ℕ → ℕ → Result (List Str × ℕ)
remove_chunks [] remaining size = ok ([], size)
remove_chunks (c ∷ cs) zero size = ok (c ∷ cs, size)
remove_chunks (c ∷ cs) (suc remaining) size =
    let whole = remove_chunks cs (suc remaining - len c) (size - len c) in
    let part : Result (List Str × ℕ) = do
      rest ← substr c (suc remaining) none
      ok (rest ∷ cs, size - suc remaining)
    in if ltb (suc remaining) (len c) then part else whole

pub remove_prefix : Buffer → ℕ → Result Buffer
unfolding remove_chunks
remove_prefix b size = do
  (cs, left) ← remove_chunks b.chunk_dq size b.size
  ok (record { chunk_dq = cs; size = left })

-- `merge(buffer)`: moves chunks as long as the source has bytes. Both buffers are returned.
-- A round takes one chunk away, so one more than the number of chunks is enough fuel.
merge_loop : ℕ → Buffer → Buffer → Result (Buffer × Buffer)
merge_loop zero b source = err no_fuel
merge_loop (suc fuel) b source =
    let round : Result (Buffer × Buffer) = do
      (c, source') ← pop source
      merge_loop fuel (push b c) source'
    in if ltb 0 source.size then round else ok (b, source)

pub merge : Buffer → Buffer → Result (Buffer × Buffer)
unfolding merge_loop
merge b source = merge_loop (length source.chunk_dq + 1) b source

-- `BufferIO::get_value`
pub get_value : Buffer → Result (Str × Buffer)
get_value b = do b' ← merge_prefix b b.size; c ← top b'; ok (c, b')
