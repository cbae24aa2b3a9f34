-- ===== src/NetClient/Stream.antt =====
-- The samples that apps/ax25tnc/ax25tnc.c makes of what its client receives.
use modemstuff.Base.{
  ℕ, ◌/◌, ◌%◌, ◌<◌, ◌≢◌, ◌≡◌, refl, sym, ap, ◌∙◌, List, [], ◌∷◌, ◌++◌, map, concat, length,
  length-append, All, true, arith,
}
use modemstuff.NetServer.{
  Event, lock, unlock, opened, closed, sent, data_start, data_chunk, data_end,
}
use modemstuff.NetServer.Thread.{Recv, failed, received}
use modemstuff.NetClient.{Client, client_loop, client_thread}

module _ {F : Type 0} (float_of : ℕ → ℕ → ℕ → ℕ → F) where
  -- `length / sizeof(ms_float)` samples; bytes that are left over make none.
  unfoldable pub samples_of : List ℕ → List F
  samples_of (a ∷ b ∷ c ∷ d ∷ bytes) = float_of a b c d ∷ samples_of bytes
  samples_of _ = []

  -- What `data_callback` passes to the demodulator, call after call.
  unfoldable pub data_callback : List Event → List F
  data_callback [] = []
  data_callback (data_chunk bytes ∷ events) = samples_of bytes ++ data_callback events
  data_callback (lock ∷ events) = data_callback events
  data_callback (unlock ∷ events) = data_callback events
  data_callback (opened socket ∷ events) = data_callback events
  data_callback (closed socket ∷ events) = data_callback events
  data_callback (sent socket bytes ∷ events) = data_callback events
  data_callback (data_start ∷ events) = data_callback events
  data_callback (data_end ∷ events) = data_callback events

  -- A chunk that `recv` gives, of whole samples.
  abbrev pub IsWhole : List ℕ → Type 0
  IsWhole bytes = (0 < length bytes) × (length bytes % 4 ≡ 0)

  samples_of-append :
      (xs ys : List ℕ) → length xs % 4 ≡ 0 → samples_of (xs ++ ys) ≡ samples_of xs ++ samples_of ys
  unfolding samples_of
  samples_of-append [] ys h = refl
  samples_of-append (a ∷ []) ys h = absurd (omega arith)
  samples_of-append (a ∷ b ∷ []) ys h = absurd (omega arith)
  samples_of-append (a ∷ b ∷ c ∷ []) ys h = absurd (omega arith)
  samples_of-append (a ∷ b ∷ c ∷ d ∷ xs) ys h =
      ap (λ t. float_of a b c d ∷ t) (samples_of-append xs ys (omega arith))

  -- A running client with its callback set, that receives chunks of whole samples and then an error:
  -- the samples that go to the demodulator are those of all the bytes, in order, and the thread ends,
  -- whatever `recv` would return then.
  pub client_thread-samples :
      (client : Client) (chunks : List (List ℕ)) (results : List Recv)
      → client.run ≡ true
      → client.data_callback ≡ true
      → All IsWhole chunks
      → (data_callback (client_thread client (map received chunks ++ (failed ∷ results))).0
          ≡ samples_of (concat chunks))
        × ((client_thread client (map received chunks ++ (failed ∷ results))).1 ≡ true)
  unfolding client_thread client_loop data_callback
  client_thread-samples client [] results runs set w = simp runs (unfold samples_of in refl, refl)
  client_thread-samples client ([] ∷ chunks) results runs set w = absurd (omega (arith, w.0.0))
  client_thread-samples client ((byte ∷ bytes) ∷ chunks) results runs set w =
      let (samples, ends) = client_thread-samples client chunks results runs set w.1 in
      simp (runs, set)
        (
          ap (λ t. samples_of (byte ∷ bytes) ++ t) (simp runs at samples)
              ∙ sym (samples_of-append (byte ∷ bytes) (concat chunks) w.0.1),
          simp runs at ends,
        )

  length-samples_of : (xs : List ℕ) → length (samples_of xs) ≡ length xs / 4
  unfolding samples_of
  length-samples_of [] = omega arith
  length-samples_of (a ∷ []) = omega arith
  length-samples_of (a ∷ b ∷ []) = omega arith
  length-samples_of (a ∷ b ∷ c ∷ []) = omega arith
  length-samples_of (a ∷ b ∷ c ∷ d ∷ xs) = omega (arith, length-samples_of xs)

  -- If bytes of whole samples arrive in two chunks that are cut within a sample, fewer samples go to
  -- the demodulator than the bytes hold.
  pub data_callback-cut :
      (xs ys : List ℕ)
      → length xs % 4 ≢ 0
      → length (xs ++ ys) % 4 ≡ 0
      → length (data_callback (data_chunk xs ∷ data_chunk ys ∷ [])) < length (samples_of (xs ++ ys))
  unfolding data_callback
  data_callback-cut xs ys cut whole = omega (
    arith,
    length-append (samples_of xs) (samples_of ys ++ []),
    length-append (samples_of ys) [],
    length-append xs ys,
    length-samples_of xs,
    length-samples_of ys,
    length-samples_of (xs ++ ys),
  )
