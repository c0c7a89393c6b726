-- ===== src/NetHelper/Sum.antt =====
-- The checksum of libs/commons/src/net_helper.c against that of libs/net/src/udp.c.
use Prim.Native.Nat.add
use schc_work.Common.{
  ◌≡◌, refl, sym, ap, ◌∙◌, ℕ, ◌+◌, ◌-◌, ◌*◌, ◌/◌, ◌%◌, ◌^◌, ◌≤◌, ◌<◌, some, [], ◌∷◌, ◌++◌, Bytes,
  IsBytes, IsByte, length, replicate, store, overwrite, u16, u32, u64, arith, length-append,
  length-replicate, ◌==◌, if◌then◌else◌,
}
use schc_work.Common.Slices.{replicate-add, take_whole, All-append}
use schc_work.Common.Access.{view_whole, overwrite_whole}
use schc_work.Udp.{fold_carries, udp_checksum}
use schc_work.Udp.Checksum.{
  word_sum, Completes, udp_checksum-Completes, IsFolded, fold_carries-IsFolded, datagram_sum,
}
use schc_work.NetHelper.Writes.{overwrite_lift, overwrite_here, set-append, store_behind}
use schc_work.NetHelper.{words_add, checksum, pseudo_checksum, htonl}

-- The words in the order of the machine, and what their exchanged bytes lose.
abbrev machine_sum : Bytes → ℕ
machine_sum [] = 0
machine_sum (a ∷ []) = a
machine_sum (a ∷ b ∷ p) = a + b * 256 + machine_sum p

abbrev carried : Bytes → ℕ
carried [] = 0
carried (a ∷ []) = a
carried (a ∷ b ∷ p) = a + carried p

words_add_lem :
    (sum : ℕ) (p : Bytes)
    → IsBytes p
    → sum + 0xFFFF * length p < 2 ^ 64
    → words_add sum p ≡ sum + machine_sum p
unfolding words_add
words_add_lem sum [] bs room = omega arith
words_add_lem sum (a ∷ []) bs room = omega arith
words_add_lem sum (a ∷ b ∷ p) bs room =
    let added : u64 (sum + (a + b * 256)) ≡ sum + (a + b * 256) = omega arith in
    rw added (words_add_lem (sum + (a + b * 256)) p bs.1.1 (omega arith) ∙ omega arith)

machine-word_sum : (p : Bytes) → 256 * word_sum p ≡ machine_sum p + 0xFFFF * carried p
machine-word_sum [] = omega arith
machine-word_sum (a ∷ []) = omega arith
machine-word_sum (a ∷ b ∷ p) = omega (arith, machine-word_sum p)

machine_sum_bound : (p : Bytes) → IsBytes p → machine_sum p ≤ 0xFFFF * length p
machine_sum_bound [] bs = omega arith
machine_sum_bound (a ∷ []) bs = omega arith
machine_sum_bound (a ∷ b ∷ p) bs = omega (arith, machine_sum_bound p bs.1.1)

carried-le-machine_sum : (p : Bytes) → carried p ≤ machine_sum p
carried-le-machine_sum [] = omega arith
carried-le-machine_sum (a ∷ []) = omega arith
carried-le-machine_sum (a ∷ b ∷ p) = omega (arith, carried-le-machine_sum p)

-- The bytes of a word exchanged: what `htons` makes of it.
abbrev pub swapped : ℕ → ℕ
swapped v = v % 256 * 256 + v / 256

-- Two folded sums that differ by the order of the bytes.
folded-swapped :
    (sum sum' k f f' : ℕ)
    → IsFolded sum f
    → IsFolded sum' f'
    → 256 * sum ≡ sum' + 0xFFFF * k
    → (0 < sum → 0 < sum')
    → swapped f' ≡ f
folded-swapped sum sum' k f f' a b e pos =
    let equation : f / 256 + f % 256 * 256 + 0xFFFF * (f / 256 + 256 * a.removed)
        ≡ f' + 0xFFFF * (b.removed + k) =
      omega (arith, a.congruent, b.congruent) in
    ground (arith, a.small, b.small, a.kept, b.kept, equation)

-- The result of `checksum` has the bytes of the ones'-complement sum over the words in network
-- order.
checksum-swapped :
    (p : Bytes)
    → IsBytes p
    → 0xFFFF * length p < 2 ^ 64
    → swapped (checksum p) ≡ u16 (2 ^ 64 - 1 - fold_carries (word_sum p))
unfolding checksum
checksum-swapped p bs room =
    let total : words_add 0 p ≡ machine_sum p =
      words_add_lem 0 p bs (omega arith) ∙ add.zero (machine_sum p) in
    let f = fold_carries-IsFolded (word_sum p) in
    let f' = fold_carries-IsFolded (machine_sum p) in
    let same : swapped (fold_carries (machine_sum p)) ≡ fold_carries (word_sum p) =
      folded-swapped (word_sum p) (machine_sum p) (carried p) _ _ f f' (machine-word_sum p)
        (λ h. omega (arith, machine-word_sum p, carried-le-machine_sum p)) in
    rw total (omega (arith, f.small, f'.small, same))

word_sum-append :
    (xs ys : Bytes) → length xs % 2 ≡ 0 → word_sum (xs ++ ys) ≡ word_sum xs + word_sum ys
word_sum-append [] ys e = omega arith
word_sum-append (a ∷ []) ys e = absurd (omega arith)
word_sum-append (a ∷ b ∷ xs) ys e = omega (arith, word_sum-append xs ys (omega arith))

-- The buffer that `udp_checksum` adds up.
abbrev pseudo : Bytes → Bytes → Bytes → Bytes → ℕ → Bytes
pseudo src dst udp payload n =
    src ++ (dst ++ (htonl (u32 (8 + n)) ++ (0 ∷ 0 ∷ 0 ∷ 17 ∷ (udp ++ payload))))

module _ (src dst udp payload : Bytes) (n : ℕ) (src_len : length src ≡ 16)
    (dst_len : length dst ≡ 16) (udp_len : length udp ≡ 8) (payload_len : length payload ≡ n) where
  abbrev z : ℕ → Bytes
  z k = replicate k 0

  pseudo_checksum-pseudo :
      pseudo_checksum src dst udp payload n ≡ some (checksum (pseudo src dst udp payload n))
  unfolding pseudo_checksum
  pseudo_checksum-pseudo =
      let len = htonl (u32 (8 + n)) in
      let tail = z 8 ++ z n in
      let marked = len ++ (0 ∷ 0 ∷ 0 ∷ 17 ∷ []) in
      let with_dst : overwrite (src ++ (z 16 ++ (z 4 ++ (z 4 ++ tail)))) 16 dst
          ≡ some (src ++ (dst ++ (z 4 ++ (z 4 ++ tail)))) =
        overwrite_lift src _ _ dst 16 0 (omega (arith, src_len))
          (overwrite_here (z 16) (z 4 ++ (z 4 ++ tail)) dst dst_len) in
      let with_len : overwrite (src ++ (dst ++ (z 4 ++ (z 4 ++ tail)))) 32 len
          ≡ some (src ++ (dst ++ (len ++ (z 4 ++ tail)))) =
        overwrite_lift src _ _ len 32 16 (omega (arith, src_len)) (
          overwrite_lift dst _ _ len 16 0 (omega (arith, dst_len))
            (overwrite_here (z 4) (z 4 ++ tail) len refl)) in
      let with_next : store (src ++ (dst ++ (len ++ (z 4 ++ tail)))) 39 17
          ≡ some (src ++ (dst ++ (marked ++ tail))) =
        store_behind src (dst ++ (len ++ (z 4 ++ tail))) 39 23 17 (omega (arith, src_len))
          (omega (arith, length-append dst (len ++ (z 4 ++ tail)), dst_len))
        ∙ ap (λ t. some (src ++ t))
            (set-append dst (len ++ (z 4 ++ tail)) 23 7 17 (omega (arith, dst_len))) in
      let with_udp : overwrite (src ++ (dst ++ (marked ++ tail))) 40 udp
          ≡ some (src ++ (dst ++ (marked ++ (udp ++ z n)))) =
        overwrite_lift src _ _ udp 40 24 (omega (arith, src_len)) (
          overwrite_lift dst _ _ udp 24 8 (omega (arith, dst_len))
            (overwrite_lift marked tail _ udp 8 0 refl (overwrite_here (z 8) (z n) udp udp_len))) in
      let whole : overwrite (src ++ (dst ++ (marked ++ (udp ++ z n)))) 48 payload
          ≡ some (pseudo src dst udp payload n) =
        overwrite_lift src _ _ payload 48 32 (omega (arith, src_len)) (
          overwrite_lift dst _ _ payload 32 16 (omega (arith, dst_len)) (
            overwrite_lift marked _ _ payload 16 8 refl (
              overwrite_lift udp _ _ payload 8 0 (omega (arith, udp_len)) (
                overwrite_whole (z n) payload
                  (omega (arith, payload_len, length-replicate {A = ℕ} n 0)))))) in
      rw
        (
          replicate-add {A = ℕ} 48 n 0,
          view_whole src 16 (sym src_len),
          overwrite_here (z 16) (z 16 ++ (z 4 ++ (z 4 ++ tail))) src src_len,
          view_whole dst 16 (sym dst_len),
          with_dst,
          with_len,
          with_next,
          view_whole udp 8 (sym udp_len),
          with_udp,
          view_whole payload n (sym payload_len),
          whole,
        )
        refl

  length-pseudo : length (pseudo src dst udp payload n) ≡ 48 + n
  length-pseudo =
      let rest = htonl (u32 (8 + n)) ++ (0 ∷ 0 ∷ 0 ∷ 17 ∷ (udp ++ payload)) in
      omega (
        arith,
        length-append src (dst ++ rest),
        length-append dst rest,
        length-append udp payload,
        src_len,
        dst_len,
        udp_len,
        payload_len,
      )

  pseudo-sum :
      8 + n < 2 ^ 16
      → word_sum (pseudo src dst udp payload n) ≡ datagram_sum (udp ++ payload) (8 + n) src dst
  pseudo-sum small =
      let len = htonl (u32 (8 + n)) in
      let rest = len ++ (0 ∷ 0 ∷ 0 ∷ 17 ∷ (udp ++ payload)) in
      let a = word_sum-append src (dst ++ rest) (omega (arith, src_len)) in
      let b = word_sum-append dst rest (omega (arith, dst_len)) in
      let all_src = take_whole src 16 (sym src_len) in
      let all_dst = take_whole dst 16 (sym dst_len) in
      let all =
        take_whole (udp ++ payload) (8 + n)
          (omega (arith, length-append udp payload, udp_len, payload_len)) in
      rw (all_src, all_dst, all, a, b) (omega arith)

  pseudo-IsBytes :
      IsBytes src
      → IsBytes dst
      → IsBytes udp
      → IsBytes payload
      → IsBytes (pseudo src dst udp payload n)
  pseudo-IsBytes bs bd bu bp =
      let behind : IsBytes (udp ++ payload) = All-append IsByte udp payload bu bp in
      All-append IsByte src _ bs (
        All-append IsByte dst _ bd (
          omega arith,
          (
            omega arith,
            (
              omega arith,
              (omega arith, (omega arith, (omega arith, (omega arith, (omega arith, behind))))),
            ),
          ),
        ))

-- The number that completes a sum, against its folded complement.
Completes-folded :
    (sum s c : ℕ)
    → s ≡ u16 (2 ^ 64 - 1 - fold_carries sum)
    → Completes sum c
    → c ≡ (if s == 0 then 0xFFFF else s)
Completes-folded sum s c e done =
    let f = fold_carries-IsFolded sum in
    let plain : s + fold_carries sum ≡ 0xFFFF = omega (arith, f.small, e) in
    ground (arith, f.small, f.congruent, done.total, done.nonzero, done.word, plain)

-- On addresses of 16 bytes, a UDP header of 8 bytes and a payload that a datagram can hold, both
-- implementations return a checksum, and they agree: that of libs/net is the one of libs/commons
-- with its bytes exchanged, which is how `htons` stores it, except where that is 0; libs/net then
-- returns 0xFFFF instead.
pub pseudo_checksum-udp_checksum :
    (src dst udp payload : Bytes) (n : ℕ)
    → length src ≡ 16
    → length dst ≡ 16
    → length udp ≡ 8
    → length payload ≡ n
    → 8 + n < 2 ^ 16
    → IsBytes src
    → IsBytes dst
    → IsBytes udp
    → IsBytes payload
    → (c : ℕ) × (c' : ℕ) × (pseudo_checksum src dst udp payload n ≡ some c)
      × (udp_checksum (udp ++ payload) (8 + n) src dst ≡ some c')
      × (c' ≡ (if swapped c == 0 then 0xFFFF else swapped c))
pseudo_checksum-udp_checksum src dst udp payload n ls ld lu lp small bs bd bu bp =
    let w = pseudo src dst udp payload n in
    let size : length w ≡ 48 + n = length-pseudo src dst udp payload n ls ld lu lp in
    let c = checksum w in
    let swap =
      checksum-swapped w (pseudo-IsBytes src dst udp payload n ls ld lu lp bs bd bu bp)
        (omega (arith, size)) in
    let sum = pseudo-sum src dst udp payload n ls ld lu lp small in
    let (c', e, done) =
      udp_checksum-Completes (udp ++ payload) (8 + n) src dst (All-append IsByte udp payload bu bp)
        bs bd (omega (arith, length-append udp payload, lu, lp)) (omega (arith, ls))
        (omega (arith, ld)) small in
    (
      c,
      c',
      pseudo_checksum-pseudo src dst udp payload n ls ld lu lp,
      e,
      Completes-folded (datagram_sum (udp ++ payload) (8 + n) src dst) (swapped c) c'
          (swap ∙ ap (λ t. u16 (2 ^ 64 - 1 - fold_carries t)) sum) done,
    )
