-- ===== src/LinkedBuffer/Queue.antt =====
-- A linked buffer is a queue of bytes: the list that its operations act on in the specification.
use modemstuff.Base.{
  ℕ, ◌+◌, ◌^◌, ◌≤◌, ◌<◌, ◌≡◌, refl, ap, ◌∙◌, List, [], ◌∷◌, ◌++◌, Option, some, arith, All, length,
  take, drop, ◌>>=◌,
}
use modemstuff.LinkedBuffer.{
  Node, LinkedBuffer, linked_buffer_init, linked_buffer_push, linked_buffer_pop,
}
use modemstuff.LinkedBuffer.Contents.{contents, IsValid, IsMemory, linked_buffer_init-IsValid}
use modemstuff.LinkedBuffer.Push.{linked_buffer_push-contents}
use modemstuff.LinkedBuffer.Pop.{linked_buffer_pop-contents, init-contents}

pub data Operation : Type 0 where
  push : (data' : List ℕ) (size : ℕ) → Operation
  pop : (size : ℕ) → Operation

-- What the operations pop, one after another.
unfoldable pub run : (ℕ → Node) → LinkedBuffer → List Operation → Option (List (List ℕ))
run malloc b [] = some []
run malloc b (push data' size ∷ operations) = do
  b' ← linked_buffer_push malloc b data' size
  run malloc b' operations
run malloc b (pop size ∷ operations) = do
  (b', copied) ← linked_buffer_pop malloc b size
  rest ← run malloc b' operations
  some (copied ∷ rest)

-- The queue.
abbrev pub queue : List ℕ → List Operation → List (List ℕ)
queue held [] = []
queue held (push data' size ∷ operations) = queue (held ++ take size data') operations
queue held (pop size ∷ operations) = take size held ∷ queue (drop size held) operations

-- Every push has its data, and all of them leave room for the count of nodes.
abbrev pub HasData : Operation → Type 0
HasData (push data' size) = size ≤ length data'
HasData (pop size) = Unit

abbrev pub pushed : List Operation → ℕ
pushed [] = 0
pushed (push data' size ∷ operations) = size + pushed operations
pushed (pop size ∷ operations) = pushed operations

run_lem :
    (operations : List Operation) (malloc : ℕ → Node) (b : LinkedBuffer) (bound : ℕ)
    → IsMemory malloc
    → IsValid b
    → All HasData operations
    → length b.chain ≤ bound
    → bound + pushed operations < 2 ^ 32
    → run malloc b operations ≡ some (queue (contents b.chain) operations)
unfolding run
run_lem [] malloc b bound m v h l few = refl
run_lem (push data' size ∷ operations) malloc b bound m v h l few =
    let (b', e, v', held, short) =
      linked_buffer_push-contents malloc b data' size m v h.0 (omega arith) in
    rw e (
      run_lem operations malloc b' (bound + size) m v' h.1 (omega arith) (omega arith)
      ∙ ap (λ u. some (queue u operations)) held)
run_lem (pop size ∷ operations) malloc b bound m v h l few =
    let (b', e, v', held, short) = linked_buffer_pop-contents malloc b size m v in
    rw (e, run_lem operations malloc b' bound m v' h.1 (omega arith) few)
      (ap (λ u. some (take size (contents b.chain) ∷ queue u operations)) held)

-- Any operations on a buffer from its initialisation, each push with its data and fewer than 2^32 - 1
-- bytes pushed in all, take no fault and pop what the queue pops, whatever the memory held that the
-- allocations gave.
pub run-queue :
    (malloc : ℕ → Node) (operations : List Operation)
    → IsMemory malloc
    → All HasData operations
    → 1 + pushed operations < 2 ^ 32
    → run malloc (linked_buffer_init malloc) operations ≡ some (queue [] operations)
run-queue malloc operations m h few =
    run_lem operations malloc (linked_buffer_init malloc) 1 m (linked_buffer_init-IsValid malloc m)
      h (unfold linked_buffer_init in omega arith) few
    ∙ ap (λ u. some (queue u operations)) (init-contents malloc)
