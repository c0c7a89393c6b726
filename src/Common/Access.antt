-- ===== src/Common/Access.antt =====
-- Reads and writes that stay inside their object.
use mathlib.Core.List.{append-nil}
use schc_work.Common.{
  ℕ, ◌+◌, ◌≤◌, ◌≡◌, refl, sym, ap, ◌∙◌, true, some, [], ◌∷◌, ◌++◌, arith, length, take, drop, Bytes,
  view, overwrite, leb,
}
use schc_work.Common.Slices.{take_whole}

leb-true : (n m : ℕ) → n ≤ m → leb n m ≡ true
leb-true n m h = ground arith

pub view-take : (p : Bytes) (n : ℕ) → n ≤ length p → view p n ≡ some (take n p)
view-take p n h = rw (leb-true n (length p) h) refl

pub view_whole : (p : Bytes) (n : ℕ) → n ≡ length p → view p n ≡ some p
view_whole p n e = view-take p n (omega (arith, e)) ∙ ap (λ q. some q) (take_whole p n e)

pub overwrite_front :
    (p bs : Bytes) → length bs ≤ length p → overwrite p 0 bs ≡ some (bs ++ drop (length bs) p)
overwrite_front p bs h =
    let start : 0 + length bs ≡ length bs = omega arith in
    rw (leb-true (0 + length bs) (length p) (omega (arith, h)))
      (ap (λ n. some (bs ++ drop n p)) start)

none_left : (p bs : Bytes) → bs ++ drop (length p) p ≡ bs
none_left [] bs = append-nil bs
none_left (x ∷ p) bs = none_left p bs

pub overwrite_whole : (p bs : Bytes) → length p ≡ length bs → overwrite p 0 bs ≡ some bs
overwrite_whole p bs e =
    overwrite_front p bs (omega (arith, e))
    ∙ (ap (λ n. some (bs ++ drop n p)) (sym e) ∙ ap (λ q. some q) (none_left p bs))
