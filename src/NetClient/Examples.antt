-- ===== src/NetClient/Examples.antt =====
-- Samples whose numbers are written with the lowest byte first.
use modemstuff.Base.{
  ℕ, ◌+◌, ◌*◌, ◌<◌, ◌≡◌, refl, List, [], ◌∷◌, ◌++◌, map, concat, length, some, true, arith,
}
use modemstuff.NetServer.{data_chunk}
use modemstuff.NetServer.Thread.{failed, received}
use modemstuff.NetClient.{Client, client_thread}
use modemstuff.NetClient.Stream.{
  samples_of, data_callback, client_thread-samples, data_callback-cut,
}

abbrev little_endian : ℕ → ℕ → ℕ → ℕ → ℕ
little_endian a b c d = a + 256 * (b + 256 * (c + 256 * d))

abbrev running : Client
running = record { socket = some 4; run = true; data_callback = true }

abbrev two_chunks : List (List ℕ)
two_chunks = (1 ∷ 0 ∷ 0 ∷ 0 ∷ []) ∷ (2 ∷ 0 ∷ 0 ∷ 0 ∷ 3 ∷ 0 ∷ 0 ∷ 0 ∷ []) ∷ []

client_thread-samples_example :
    (data_callback little_endian
        (client_thread running (map received two_chunks ++ (failed ∷ []))).0
      ≡ samples_of little_endian (concat two_chunks))
    × ((client_thread running (map received two_chunks ++ (failed ∷ []))).1 ≡ true)
client_thread-samples_example =
    client_thread-samples little_endian running two_chunks [] refl refl
      ((omega arith, refl), ((omega arith, refl), tt))

data_callback-cut_example :
    length (data_callback little_endian (data_chunk (1 ∷ []) ∷ data_chunk (0 ∷ 0 ∷ 0 ∷ []) ∷ []))
    < length (samples_of little_endian ((1 ∷ []) ++ (0 ∷ 0 ∷ 0 ∷ [])))
data_callback-cut_example =
    data_callback-cut little_endian (1 ∷ []) (0 ∷ 0 ∷ 0 ∷ []) (λ e. absurd (omega arith)) refl
