-- ===== src/Remote/Chunking/Split.antt =====
-- What `Chunker::split` makes: numbered pieces that joined are the payload.
use atomr.Base.{
  ℕ, zero, suc, ◌+◌, ◌-◌, ◌/◌, ◌%◌, ◌<◌, ◌≤◌, ◌≡◌, refl, ap, sym, subst, ◌∙◌, some, List, [], ◌∷◌,
  ◌++◌, arith, length, drop, get_elem?, leb, leb→le, Bool-cases, inl, inr, append-take-drop,
  length-drop, u32_mod,
}
use native.Mathlib.Nat.{add-div_right, div-eq_of_lt, div-eq_of_lt-le}
use atomr.Remote.Chunking.{Chunk, pieces, label, div_ceil, split}

unfoldable pub joined : List (List ℕ) → List ℕ
joined [] = []
joined (p ∷ ps) = p ++ joined ps

unfoldable pub parts : ℕ → List ℕ → List (List ℕ)
parts size [] = [] ∷ []
parts size (b ∷ l) = pieces (length (b ∷ l)) size (b ∷ l)

joined-pieces :
    (fuel size : ℕ) (l : List ℕ) → 1 ≤ size → length l ≤ fuel → joined (pieces fuel size l) ≡ l
unfolding joined pieces
joined-pieces fuel size [] h f = refl
joined-pieces zero size (b ∷ l) h f = absurd (omega (arith, f))
joined-pieces (suc fuel) size (b ∷ l) h f =
    rw
      (
        joined-pieces fuel size (drop size (b ∷ l)) h
            (omega (arith, f, h, length-drop size (b ∷ l))),
        append-take-drop size (b ∷ l),
      )
      refl

div_ceil_none : (size : ℕ) → 1 ≤ size → div_ceil 0 size ≡ 0
div_ceil_none size h = div-eq_of_lt (omega (arith, h))

div_ceil_more : (n size : ℕ) → 1 ≤ size → 1 ≤ n → div_ceil n size ≡ suc (div_ceil (n - size) size)
div_ceil_more n size h p = elim (Bool-cases (leb size n)) [
  | inl q ↦
      ap (λ k. k / size) (omega (arith, leb→le size n q, h))
      ∙ add-div_right (n - size + size - 1) h
      ∙ omega arith
  | inr q ↦
      div-eq_of_lt-le size (omega (arith, p)) (ground arith)
      ∙ ap suc (sym (div_ceil_none size h))
      ∙ ap (λ k. suc (div_ceil k size)) (ground arith)
]

length-pieces :
    (fuel size : ℕ) (l : List ℕ)
    → 1 ≤ size
    → length l ≤ fuel
    → length (pieces fuel size l) ≡ div_ceil (length l) size
unfolding pieces
length-pieces fuel size [] h f = sym (div_ceil_none size h)
length-pieces zero size (b ∷ l) h f = absurd (omega (arith, f))
length-pieces (suc fuel) size (b ∷ l) h f =
    let e = length-drop size (b ∷ l) in
    ap suc (length-pieces fuel size (drop size (b ∷ l)) h (omega (arith, e, f, h)))
    ∙ ap (λ k. suc (div_ceil k size)) e
    ∙ sym (div_ceil_more (length (b ∷ l)) size h (omega arith))

pub joined-parts : (size : ℕ) (payload : List ℕ) → 1 ≤ size → joined (parts size payload) ≡ payload
unfolding joined parts
joined-parts size [] h = refl
joined-parts size (b ∷ l) h = joined-pieces (length (b ∷ l)) size (b ∷ l) h (omega arith)

pub parts_nonempty : (size : ℕ) (payload : List ℕ) → 1 ≤ length (parts size payload)
unfolding parts pieces
parts_nonempty size [] = omega arith
parts_nonempty size (b ∷ l) = omega arith

-- Every chunk of a split has the total in it, and its place.
pub split-parts :
    (size message_id : ℕ) (payload : List ℕ)
    → 1 ≤ size
    → split size message_id payload
      ≡ label message_id (length (parts size payload)) 0 (parts size payload)
unfolding parts split label
split-parts size message_id [] h = refl
split-parts size message_id (b ∷ l) h =
    rw (length-pieces (length (b ∷ l)) size (b ∷ l) h (omega arith)) refl

pub length-label :
    (message_id total i : ℕ) (ps : List (List ℕ)) → length (label message_id total i ps) ≡ length ps
unfolding label
length-label message_id total i [] = refl
length-label message_id total i (p ∷ ps) = ap suc (length-label message_id total (suc i) ps)

pub get_elem?-label :
    (message_id total i k j : ℕ) (ps : List (List ℕ)) (c : Chunk)
    → i + k ≡ j
    → get_elem? (label message_id total i ps) k ≡ some c
    → (c.message_id ≡ message_id)
      × (c.chunk_idx ≡ j % u32_mod)
      × (c.total_chunks ≡ total % u32_mod)
      × (get_elem? ps k ≡ some c.payload)
      × (k < length ps)
unfolding label
get_elem?-label message_id total i k j [] c s e = absurd (cc e)
get_elem?-label message_id total i zero j (p ∷ ps) c s e =
    let same : (i ≡ j) = omega (arith, s) in subst (λ n. Stands n) same (head (cc e))
  where
    Stands : ℕ → Type 0
    Stands n =
        (c.message_id ≡ message_id)
        × (c.chunk_idx ≡ n % u32_mod)
        × (c.total_chunks ≡ total % u32_mod)
        × (get_elem? (p ∷ ps) 0 ≡ some c.payload)
        × (0 < length (p ∷ ps))

    head :
        record {
          message_id = message_id;
          chunk_idx = i % u32_mod;
          total_chunks = total % u32_mod;
          payload = p;
        }
          ≡ c
        → Stands i
    head q = (cc q, cc q, cc q, cc q, omega arith)
get_elem?-label message_id total i (suc k) j (p ∷ ps) c s e =
    ground (arith, get_elem?-label message_id total (suc i) k j ps c (omega (arith, s)) e)
