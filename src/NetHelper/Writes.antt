-- ===== src/NetHelper/Writes.antt =====
-- Writes into a buffer whose parts are known.
use mathlib.Core.List.{append_assoc}
use schc_work.Common.{
  ◌≡◌, refl, ap, ◌∙◌, ℕ, zero, suc, ◌+◌, ◌<◌, true, none, some, [], ◌∷◌, ◌++◌, Bytes, length, set,
  get_elem?, take, drop, store, overwrite, leb, arith, length-append, Bool-cases, inl, inr,
}
use schc_work.Common.Slices.{take-append, take-append_more, drop-append_more, drop-append_past}
use schc_work.Common.Access.{overwrite_front}

-- A write of as many bytes as it replaces.
pub overwrite_inside :
    (front old back bs : Bytes) (i : ℕ)
    → i ≡ length front
    → length bs ≡ length old
    → overwrite (front ++ (old ++ back)) i bs ≡ some (front ++ (bs ++ back))
overwrite_inside front old back bs i e same =
    let total : length (front ++ (old ++ back)) ≡ length front + (length old + length back) =
      omega (arith, length-append front (old ++ back), length-append old back) in
    let fits : leb (i + length bs) (length (front ++ (old ++ back))) ≡ true =
      ground (arith, total, e, same) in
    let before : take i (front ++ (old ++ back)) ≡ front =
      ap (λ k. take k (front ++ (old ++ back))) e ∙ take-append front (old ++ back) in
    let behind : drop (i + length bs) (front ++ (old ++ back)) ≡ back =
      drop-append_more front (old ++ back) (i + length bs) (length bs) (omega (arith, e))
      ∙ drop-append_past old back (length bs) same in
    rw (fits, before, behind) refl

pub set-append :
    (front p : Bytes) (i j v : ℕ) → i ≡ length front + j → set (front ++ p) i v ≡ front ++ set p j v
set-append [] p i j v e = let same : i ≡ j = omega arith in ap (λ k. set p k v) same
set-append (a ∷ front) p zero j v e = absurd (omega arith)
set-append (a ∷ front) p (suc i) j v e = ap (◌∷◌ a) (set-append front p i j v (omega arith))

pub store-set : (p : Bytes) (i v : ℕ) → i < length p → store p i v ≡ some (set p i v)
store-set p i v h = ground arith

pub store_behind :
    (front p : Bytes) (i j v : ℕ)
    → i ≡ length front + j
    → j < length p
    → store (front ++ p) i v ≡ some (front ++ set p j v)
store_behind front p i j v e fits =
    store-set (front ++ p) i v (omega (arith, length-append front p))
    ∙ ap some (set-append front p i j v e)

pub get_elem?_behind :
    (front p : Bytes) (i j : ℕ) → i ≡ length front + j → get_elem? (front ++ p) i ≡ get_elem? p j
get_elem?_behind [] p i j e = let same : i ≡ j = omega arith in ap (λ k. get_elem? p k) same
get_elem?_behind (a ∷ front) p zero j e = absurd (omega arith)
get_elem?_behind (a ∷ front) p (suc i) j e = get_elem?_behind front p i j (omega arith)

-- A write behind a front part.
pub overwrite_lift :
    (front p q bs : Bytes) (i j : ℕ)
    → i ≡ length front + j
    → overwrite p j bs ≡ some q
    → overwrite (front ++ p) i bs ≡ some (front ++ q)
overwrite_lift front p q bs i j e written = elim (Bool-cases (leb (j + length bs) (length p))) [
  | inr a ↦ let empty : none ≡ some q = rw a at written in absurd (cc)
  | inl a ↦
      let whole : some (take j p ++ (bs ++ drop (j + length bs) p)) ≡ some q = rw a at written in
      let q_is : take j p ++ (bs ++ drop (j + length bs) p) ≡ q = cc in
      let fits : leb (i + length bs) (length (front ++ p)) ≡ true =
        ground (arith, length-append front p) in
      let before : take i (front ++ p) ≡ front ++ take j p = take-append_more front p i j e in
      let behind : drop (i + length bs) (front ++ p) ≡ drop (j + length bs) p =
        drop-append_more front p (i + length bs) (j + length bs) (omega (arith, e)) in
      rw (fits, before, behind)
        (ap some (append_assoc front (take j p) _ ∙ ap (λ t. front ++ t) q_is))
]

-- A write of as many bytes as stand at the front.
pub overwrite_here :
    (old back bs : Bytes)
    → length bs ≡ length old
    → overwrite (old ++ back) 0 bs ≡ some (bs ++ back)
overwrite_here old back bs e =
    overwrite_front (old ++ back) bs (omega (arith, e, length-append old back))
    ∙ ap (λ t. some (bs ++ t)) (drop-append_past old back (length bs) e)
