-- ===== src/Native/Link/Chunks.antt =====
-- The chunks of a message, as an independent description of how it is cut.
use lobbylink.Base.{
  ℕ, zero, suc, ◌+◌, ◌*◌, ◌≤◌, ◌<◌, ◌≡◌, refl, sym, ap, ◌∙◌, min, List, [], ◌∷◌, ◌++◌, some, length,
  take, drop, length-take, get_elem?, arith,
}
use lobbylink.Reassembly.Slots.{concat}

module _ {ℓ} {A : Type ℓ} where
  pub take_all : (n : ℕ) (xs : List A) → length xs ≤ n → take n xs ≡ xs
  take_all zero [] h = refl
  take_all zero (x ∷ xs) h = absurd (omega arith)
  take_all (suc n) [] h = refl
  take_all (suc n) (x ∷ xs) h = ap (◌∷◌ x) (take_all n xs (omega arith))

  pub take_eq : (m n : ℕ) (xs : List A) → m ≡ n → take m xs ≡ take n xs
  take_eq m n xs e = ap (λ k. take k xs) e

  pub drop_eq : (m n : ℕ) (xs : List A) → m ≡ n → drop m xs ≡ drop n xs
  drop_eq m n xs e = ap (λ k. drop k xs) e

  pub take-min : (n k : ℕ) (xs : List A) → length xs ≤ k → take (min n k) xs ≡ take n xs
  take-min zero k xs h = take_eq (min 0 k) 0 xs (omega arith)
  take-min (suc n) zero [] h = take_eq (min (suc n) 0) 0 [] (omega arith)
  take-min (suc n) zero (x ∷ xs) h = absurd (omega arith)
  take-min (suc n) (suc k) [] h = take_eq (min (suc n) (suc k)) (suc (min n k)) [] (omega arith)
  take-min (suc n) (suc k) (x ∷ xs) h =
      take_eq (min (suc n) (suc k)) (suc (min n k)) (x ∷ xs) (omega arith)
      ∙ ap (◌∷◌ x) (take-min n k xs (omega arith))

  drop_none : (n : ℕ) → drop {A = A} n [] ≡ []
  drop_none zero = refl
  drop_none (suc n) = refl

  take_none : (n : ℕ) → take {A = A} n [] ≡ []
  take_none zero = refl
  take_none (suc n) = refl

  pub drop-drop : (m n : ℕ) (xs : List A) → drop n (drop m xs) ≡ drop (m + n) xs
  drop-drop zero n xs = drop_eq n (0 + n) xs (omega arith)
  drop-drop (suc m) n [] = drop_none n ∙ sym (drop_none (suc m + n))
  drop-drop (suc m) n (x ∷ xs) =
      drop-drop m n xs ∙ drop_eq (suc (m + n)) (suc m + n) (x ∷ xs) (omega arith)

  pub take-add : (m n : ℕ) (xs : List A) → take (m + n) xs ≡ take m xs ++ take n (drop m xs)
  take-add zero n xs = take_eq (0 + n) n xs (omega arith)
  take-add (suc m) n [] = take_none (suc m + n) ∙ sym (take_none n)
  take-add (suc m) n (x ∷ xs) =
      take_eq (suc m + n) (suc (m + n)) (x ∷ xs) (omega arith) ∙ ap (◌∷◌ x) (take-add m n xs)

module _ (size : ℕ) (bytes : List ℕ) where
  -- The chunk number `seq`.
  unfoldable pub chunk : ℕ → List ℕ
  chunk seq = take size (drop (seq * size) bytes)

  unfoldable pub chunks_from : ℕ → ℕ → List (List ℕ)
  chunks_from zero seq = []
  chunks_from (suc rounds) seq = chunk seq ∷ chunks_from rounds (suc seq)

  pub length-chunks_from : (rounds seq : ℕ) → length (chunks_from rounds seq) ≡ rounds
  unfolding chunks_from
  length-chunks_from zero seq = refl
  length-chunks_from (suc rounds) seq = ap suc (length-chunks_from rounds (suc seq))

  pub get_elem?-chunks_from :
      (rounds seq i : ℕ)
      → i < rounds
      → get_elem? (chunks_from rounds seq) i ≡ some (chunk (seq + i))
  unfolding chunks_from
  get_elem?-chunks_from zero seq i h = absurd (omega arith)
  get_elem?-chunks_from (suc rounds) seq zero h = ap (λ s. some (chunk s)) (omega arith)
  get_elem?-chunks_from (suc rounds) seq (suc i) h =
      get_elem?-chunks_from rounds (suc seq) i (omega arith)
      ∙ ap (λ s. some (chunk s)) (omega arith)

  pub length-chunk : (seq : ℕ) → length (chunk seq) ≤ size
  unfolding chunk
  length-chunk seq = omega (arith, length-take size (drop (seq * size) bytes))

  pub concat-chunks_from :
      (rounds seq : ℕ)
      → concat (chunks_from rounds seq) ≡ take (rounds * size) (drop (seq * size) bytes)
  unfolding chunks_from chunk concat
  concat-chunks_from zero seq = take_eq 0 (0 * size) (drop (seq * size) bytes) (omega arith)
  concat-chunks_from (suc rounds) seq =
      ap (◌++◌ (take size rest)) (
        concat-chunks_from rounds (suc seq)
        ∙ ap (take (rounds * size)) (
            drop_eq (suc seq * size) (seq * size + size) bytes (grind arith)
            ∙ sym (drop-drop (seq * size) size bytes)))
      ∙ sym (take-add size (rounds * size) rest)
      ∙ take_eq (size + rounds * size) (suc rounds * size) rest (grind arith)
    where
      rest : List ℕ
      rest = drop (seq * size) bytes

  -- Enough chunks hold the message, cut nowhere else.
  pub concat_all :
      (rounds : ℕ) → length bytes ≤ rounds * size → concat (chunks_from rounds 0) ≡ bytes
  concat_all rounds h =
      concat-chunks_from rounds 0
      ∙ ap (take (rounds * size)) (drop_eq (0 * size) 0 bytes (omega arith))
      ∙ take_all (rounds * size) bytes h
