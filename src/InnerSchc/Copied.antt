-- ===== src/InnerSchc/Copied.antt =====
-- What a callback writes over the plaintext.
use schc_work.Common.{
  ℕ, ◌≤◌, ◌≡◌, refl, ap, ◌∙◌, true, some, ◌++◌, arith, length, drop, replicate, Bytes, view,
  length-append,
}
use schc_work.Common.Access.{view-take, overwrite_front}
use schc_work.Common.Slices.{take-append}
use schc_work.InnerSchc.{mgt_success, oscore_inner_max_size, copy_back}

abbrev pub behind : Bytes → Bytes → Bytes
behind bs p = bs ++ drop (length bs) p

abbrev pub buffer : Bytes
buffer = replicate oscore_inner_max_size 0

view-behind : (bs p : Bytes) → view (behind bs p) (length bs) ≡ some bs
view-behind bs p =
    view-take (behind bs p) (length bs) (omega (arith, length-append bs (drop (length bs) p)))
    ∙ ap (λ q. some q) (take-append bs (drop (length bs) p))

-- A callback writes the SDK's result over the plaintext.
pub copied :
    (bs plaintext : Bytes) (size : ℕ)
    → length bs ≤ length plaintext
    → copy_back (mgt_success, behind bs buffer, length bs) plaintext size
      ≡ some (true, behind bs plaintext, length bs)
unfolding copy_back
copied bs plaintext size h = rw (view-behind bs buffer, overwrite_front plaintext bs h) refl
