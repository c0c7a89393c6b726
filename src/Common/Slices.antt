-- ===== src/Common/Slices.antt =====
-- Parts of a buffer cut out by `take` and `drop`, read index by index.
use Prim.Native.Nat.add
use mathlib.Core.List.{append_assoc}
use schc_work.Common.{
  ℕ, zero, suc, ◌+◌, ◌≤◌, ◌<◌, ◌≡◌, refl, sym, ap, ◌∙◌, none, some, List, [], ◌∷◌, ◌++◌, arith,
  length, replicate, get_elem?, take, drop, All, length-append, Bytes, IsBytes, IsByte, All-drop,
  overwrite, true, leb, view, length-take, length-drop,
}

module _ {ℓ} {A : Type ℓ} where
  -- Arrays that answer alike at every index are equal.
  pub get_elem?_ext : (xs ys : List A) → ((i : ℕ) → get_elem? xs i ≡ get_elem? ys i) → xs ≡ ys
  get_elem?_ext [] [] h = refl
  get_elem?_ext [] (y ∷ ys) h = absurd (cc (h 0))
  get_elem?_ext (x ∷ xs) [] h = absurd (cc (h 0))
  get_elem?_ext (x ∷ xs) (y ∷ ys) h =
      let heads : x ≡ y = cc (h 0) in rw heads (ap (◌∷◌ y) (get_elem?_ext xs ys (λ i. h (suc i))))

  pub get_elem?-drop :
      (n : ℕ) (xs : List A) (i : ℕ) → get_elem? (drop n xs) i ≡ get_elem? xs (n + i)
  get_elem?-drop zero xs i = rw add.zero
  get_elem?-drop (suc n) [] i = refl
  get_elem?-drop (suc n) (x ∷ xs) i = rw add.suc (get_elem?-drop n xs i)

  pub get_elem?-take :
      (n : ℕ) (xs : List A) (i : ℕ) → i < n → get_elem? (take n xs) i ≡ get_elem? xs i
  get_elem?-take zero xs i h = absurd (omega arith)
  get_elem?-take (suc n) [] i h = refl
  get_elem?-take (suc n) (x ∷ xs) zero h = refl
  get_elem?-take (suc n) (x ∷ xs) (suc i) h = get_elem?-take n xs i (omega arith)

  pub take-take : (n m : ℕ) (xs : List A) → n ≤ m → take n (take m xs) ≡ take n xs
  take-take zero m xs h = refl
  take-take (suc n) zero xs h = absurd (omega arith)
  take-take (suc n) (suc m) [] h = refl
  take-take (suc n) (suc m) (x ∷ xs) h = ap (◌∷◌ x) (take-take n m xs (omega arith))

  -- A part of a part is a part.
  pub take-drop-take :
      (n k m : ℕ) (xs : List A) → k + n ≤ m → take n (drop k (take m xs)) ≡ take n (drop k xs)
  take-drop-take n zero m xs h = take-take n m xs (omega arith)
  take-drop-take n (suc k) zero xs h = absurd (omega arith)
  take-drop-take n (suc k) (suc m) [] h = refl
  take-drop-take n (suc k) (suc m) (x ∷ xs) h = take-drop-take n k m xs (omega arith)

  pub drop-take : (n m : ℕ) (xs : List A) → drop n (take (n + m) xs) ≡ take m (drop n xs)
  drop-take zero m xs = rw add.zero
  drop-take (suc n) zero [] = rw add.suc
  drop-take (suc n) (suc m) [] = rw add.suc
  drop-take (suc n) m (x ∷ xs) = rw add.suc (drop-take n m xs)

  pub take_whole : (xs : List A) (n : ℕ) → n ≡ length xs → take n xs ≡ xs
  take_whole [] zero e = refl
  take_whole [] (suc n) e = refl
  take_whole (x ∷ xs) zero e = absurd (omega arith)
  take_whole (x ∷ xs) (suc n) e = ap (◌∷◌ x) (take_whole xs n (omega (arith, e)))

  pub take-append : (xs ys : List A) → take (length xs) (xs ++ ys) ≡ xs
  take-append [] ys = refl
  take-append (x ∷ xs) ys = ap (◌∷◌ x) (take-append xs ys)

  pub drop-append_past : (xs ys : List A) (n : ℕ) → n ≡ length xs → drop n (xs ++ ys) ≡ ys
  drop-append_past [] ys zero e = refl
  drop-append_past [] ys (suc n) e = absurd (omega arith)
  drop-append_past (x ∷ xs) ys zero e = absurd (omega arith)
  drop-append_past (x ∷ xs) ys (suc n) e = drop-append_past xs ys n (omega arith)

  pub replicate-add : (m n : ℕ) (a : A) → replicate (m + n) a ≡ replicate m a ++ replicate n a
  replicate-add zero n a = rw add.zero refl
  replicate-add (suc m) n a = rw add.suc (ap (◌∷◌ a) (replicate-add m n a))

  pub get_elem?-append_left :
      (xs ys : List A) (i : ℕ) → i < length xs → get_elem? (xs ++ ys) i ≡ get_elem? xs i
  get_elem?-append_left [] ys i h = absurd (omega arith)
  get_elem?-append_left (x ∷ xs) ys zero h = refl
  get_elem?-append_left (x ∷ xs) ys (suc i) h = get_elem?-append_left xs ys i (omega arith)

  pub drop-append_more :
      (xs ys : List A) (n m : ℕ) → n ≡ length xs + m → drop n (xs ++ ys) ≡ drop m ys
  drop-append_more [] ys n m e = let same : n ≡ m = omega arith in ap (λ k. drop k ys) same
  drop-append_more (x ∷ xs) ys zero m e = absurd (omega arith)
  drop-append_more (x ∷ xs) ys (suc n) m e = drop-append_more xs ys n m (omega arith)

  pub drop-drop : (n m : ℕ) (xs : List A) → drop n (drop m xs) ≡ drop (m + n) xs
  drop-drop n zero xs = rw add.zero refl
  drop-drop zero (suc m) [] = rw add.suc refl
  drop-drop (suc n) (suc m) [] = rw add.suc refl
  drop-drop n (suc m) (x ∷ xs) = rw add.suc (drop-drop n m xs)

  pub take-append_more :
      (xs ys : List A) (n m : ℕ) → n ≡ length xs + m → take n (xs ++ ys) ≡ xs ++ take m ys
  take-append_more [] ys n m e = let same : n ≡ m = omega arith in ap (λ k. take k ys) same
  take-append_more (x ∷ xs) ys zero m e = absurd (omega arith)
  take-append_more (x ∷ xs) ys (suc n) m e = ap (◌∷◌ x) (take-append_more xs ys n m (omega arith))

module _ {ℓ κ} {A : Type ℓ} (P : A → Type κ) where
  pub All-take : (n : ℕ) (xs : List A) → All P xs → All P (take n xs)
  All-take zero xs h = tt
  All-take (suc n) [] h = tt
  All-take (suc n) (x ∷ xs) h = (h.0, All-take n xs h.1)

  pub All-append : (xs ys : List A) → All P xs → All P ys → All P (xs ++ ys)
  All-append [] ys h k = k
  All-append (x ∷ xs) ys h k = (h.0, All-append xs ys h.1 k)

-- The buffer after `bs` is written at offset `i`, where it fits.
abbrev pub splice : Bytes → ℕ → Bytes → Bytes
splice p i bs = take i p ++ (bs ++ drop (i + length bs) p)

pub record IsSpliced (p : Bytes) (i : ℕ) (bs p' : Bytes) : Type 0 where
  pub written : overwrite p i bs ≡ some p'
  pub same_length : length p' ≡ length p
  pub bytes : IsBytes p → IsBytes bs → IsBytes p'
  pub content : take (length bs) (drop i p') ≡ bs
  pub before : (j : ℕ) → j < i → get_elem? p' j ≡ get_elem? p j

pub splice-IsSpliced :
    (p : Bytes) (i : ℕ) (bs : Bytes) → i + length bs ≤ length p → IsSpliced p i bs (splice p i bs)
splice-IsSpliced p i bs fits =
    let front = take i p in
    let back = drop (i + length bs) p in
    let lf : length front ≡ i = length-take i p (omega arith) in
    record {
      written = ground arith;
      same_length = omega (
        arith,
        lf,
        length-append front (bs ++ back),
        length-append bs back,
        length-drop (i + length bs) p,
      );
      bytes = λ hp hb.
          All-append IsByte front (bs ++ back) (All-take IsByte i p hp)
            (All-append IsByte bs back hb (All-drop IsByte (i + length bs) p hp));
      content = rw (drop-append_past front (bs ++ back) i (sym lf)) (take-append bs back);
      before = λ j h.
          get_elem?-append_left front (bs ++ back) j (omega (arith, lf)) ∙ get_elem?-take i p j h;
    }

overwrite_fits :
    (p : Bytes) (i : ℕ) (bs : Bytes) {p' : Bytes}
    → overwrite p i bs ≡ some p'
    → i + length bs ≤ length p
overwrite_fits p i bs h = ground arith

-- A write that succeeds stays inside.
pub overwrite_inside :
    (p : Bytes) (i : ℕ) (bs : Bytes) {p' : Bytes}
    → overwrite p i bs ≡ some p'
    → (i + length bs ≤ length p) × (splice p i bs ≡ p')
overwrite_inside p i bs h =
    let fits = overwrite_fits p i bs h in
    let written = (splice-IsSpliced p i bs fits).written in (fits, cc)

pub view_past : (p : Bytes) (n : ℕ) → length p < n → view p n ≡ none
view_past p n h = ground arith

pub view_fits : (p : Bytes) (n : ℕ) → n ≤ length p → view p n ≡ some (take n p)
view_fits p n h = ground arith

-- A write behind a front part that leaves what it does not reach.
pub overwrite_behind :
    (front bs old : Bytes) (i : ℕ)
    → i ≡ length front
    → i + length bs ≤ length old
    → overwrite (front ++ drop i old) i bs ≡ some ((front ++ bs) ++ drop (i + length bs) old)
overwrite_behind front bs old i e fits =
    let len : length (front ++ drop i old) ≡ length old =
      omega (arith, length-append front (drop i old), length-drop i old) in
    let inside : leb (i + length bs) (length (front ++ drop i old)) ≡ true = ground (arith, len) in
    let before : take i (front ++ drop i old) ≡ front =
      rw e (take-append front (drop (length front) old)) in
    let behind : drop (i + length bs) (front ++ drop i old) ≡ drop (i + length bs) old =
      drop-append_more front (drop i old) (i + length bs) (length bs) (omega arith)
      ∙ drop-drop (length bs) i old in
    rw (inside, before, behind) (ap some (sym (append_assoc front bs _)))
