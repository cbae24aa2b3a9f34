-- ===== src/LinkedBuffer/Examples.antt =====
-- A buffer in memory that holds an offset beyond the array.
use modemstuff.Base.{ℕ, ◌≡◌, [], ◌∷◌, some, arith, length-replicate, replicate}
use modemstuff.LinkedBuffer.{Node, linked_buffer_init}
use modemstuff.LinkedBuffer.Contents.{IsMemory}
use modemstuff.LinkedBuffer.Queue.{push, pop, run, queue, run-queue}

abbrev memory : ℕ → Node
memory i = record { bytes = replicate 1024 7; size = 3; offset = 60000 }

memory-IsMemory : IsMemory memory
memory-IsMemory i = length-replicate {A = ℕ} 1024 7

run-queue_example :
    run memory
      (linked_buffer_init memory)
      (push (replicate 1500 5) 1500 ∷ pop 1200 ∷ push (8 ∷ []) 1 ∷ pop 400 ∷ [])
    ≡ some (queue [] (push (replicate 1500 5) 1500 ∷ pop 1200 ∷ push (8 ∷ []) 1 ∷ pop 400 ∷ []))
run-queue_example =
    run-queue memory (push (replicate 1500 5) 1500 ∷ pop 1200 ∷ push (8 ∷ []) 1 ∷ pop 400 ∷ [])
      memory-IsMemory
      (omega (arith, length-replicate {A = ℕ} 1500 5), (tt, (omega arith, (tt, tt)))) (omega arith)
