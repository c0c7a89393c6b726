-- ===== src/Ascon/Expand.antt =====
-- The loop of `hkdf_expand`, block by block.
use mathlib.Core.List.{append-nil}
use schc_work.Common.{
  ℕ, zero, suc, ◌+◌, ◌-◌, ◌*◌, ◌≤◌, ◌<◌, ◌≡◌, refl, sym, ap, ap₂, ◌∙◌, true, false, some, [], ◌∷◌,
  ◌++◌, arith, length, take, drop, replicate, Bytes, overwrite, u8, ltb, leb, ◌==◌, length-append,
  length-take,
}
use schc_work.Common.Slices.{take-append, take-append_more, overwrite_behind}
use schc_work.Ascon.{
  ok, AsconHash, hmac_bytes, hmac_ascon, keyed_hash, copy_len, after_mac, message, expand_loop,
}

module _ (mac : Bytes → Bytes → Bytes) (prk info : Bytes) where
  -- T(n) of the RFC.
  pub t_block : ℕ → Bytes
  t_block zero = []
  t_block (suc n) = mac prk (t_block n ++ (info ++ suc n ∷ []))

  -- T(1) || ... || T(n)
  pub okm : ℕ → Bytes
  unfolding t_block
  okm zero = []
  okm (suc n) = okm n ++ t_block (suc n)

-- The library squeezes ASCON_HASH_SIZE bytes.
abbrev pub HasBlocks : AsconHash → Type 0
HasBlocks h = (s : h.AsconState) → length (h.squeeze s) ≡ 32

length-hmac_bytes :
    (h : AsconHash) → HasBlocks h → (key msg : Bytes) → length (hmac_bytes h key msg) ≡ 32
unfolding hmac_bytes keyed_hash
length-hmac_bytes h size key msg = size _

pub hmac_ascon_lem :
    (h : AsconHash) (key msg : Bytes) → hmac_ascon h key msg ≡ some (hmac_bytes h key msg)
unfolding hmac_ascon
hmac_ascon_lem h key msg = refl

module _ (h : AsconHash) (prk info : Bytes) (size : HasBlocks h) where
  length-t_block : (k : ℕ) → length (t_block (hmac_bytes h) prk info (suc k)) ≡ 32
  unfolding t_block
  length-t_block k = length-hmac_bytes h size prk _

  length-okm : (k : ℕ) → length (okm (hmac_bytes h) prk info k) ≡ k * 32
  unfolding okm
  length-okm zero = refl
  length-okm (suc k) = omega (
    arith,
    length-okm k,
    length-t_block k,
    length-append (okm (hmac_bytes h) prk info k) (t_block (hmac_bytes h) prk info (suc k)),
  )

  -- The message of iteration `suc k` is the one that T(suc k) is the MAC of.
  abbrev IsNext : ℕ → Bytes → Type 0
  IsNext k t = message (suc k) t info ≡ t_block (hmac_bytes h) prk info k ++ (info ++ suc k ∷ [])

  t_block-IsNext : (k : ℕ) → IsNext (suc k) (t_block (hmac_bytes h) prk info (suc k))
  unfolding message
  t_block-IsNext k = let later : ltb 1 (suc (suc k)) ≡ true = ground arith in rw later refl

  mac_next :
      (k : ℕ) (t : Bytes)
      → IsNext k t
      → hmac_ascon h prk (message (suc k) t info) ≡ some (t_block (hmac_bytes h) prk info (suc k))
  unfolding t_block
  mac_next k t next = rw next (hmac_ascon_lem h prk _)

  -- One iteration writes the first `c` bytes of its block behind those of the earlier ones.
  iteration :
      (len iterations fuel k c : ℕ) (t old : Bytes)
      → suc k ≤ iterations
      → IsNext k t
      → copy_len len (suc k) ≡ c
      → c ≤ 32
      → k * 32 + c ≤ length old
      → expand_loop h prk info len iterations
          (suc fuel)
          (suc k)
          t
          (okm (hmac_bytes h) prk info k ++ drop (k * 32) old)
        ≡ expand_loop h prk info len iterations fuel
            (u8 (suc k + 1))
            (t_block (hmac_bytes h) prk info (suc k))
            ((okm (hmac_bytes h) prk info k ++ take c (t_block (hmac_bytes h) prk info (suc k)))
              ++ drop (k * 32 + c) old)
  unfolding expand_loop after_mac
  iteration len iterations fuel k c t old more next copied small room =
      let block = t_block (hmac_bytes h) prk info (suc k) in
      let front = okm (hmac_bytes h) prk info k in
      let cut : length (take c block) ≡ c = length-take c block (omega (arith, length-t_block k)) in
      let wrote : overwrite (front ++ drop (k * 32) old) (k * 32) (take c block)
          ≡ some ((front ++ take c block) ++ drop (k * 32 + c) old) =
        overwrite_behind front (take c block) old (k * 32) (sym (length-okm k)) (omega (arith, cut))
        ∙ ap (λ m. some ((front ++ take c block) ++ drop (k * 32 + m) old)) cut in
      let go : leb (suc k) iterations ≡ true = ground arith in
      let first : suc k - 1 ≡ k = omega arith in
      let positive : (suc k == 0) ≡ false = ground arith in
      rw (go, mac_next k t next, positive, first, copied, wrote) refl

  take-t_block :
      (k : ℕ)
      → take 32 (t_block (hmac_bytes h) prk info (suc k)) ≡ t_block (hmac_bytes h) prk info (suc k)
  take-t_block k =
      let block = t_block (hmac_bytes h) prk info (suc k) in
      ap (λ n. take n block) (sym (length-t_block k))
      ∙ ap (take (length block)) (sym (append-nil block))
      ∙ take-append block []

  -- The length of the copy: a whole block, or what is left.
  copy_len_whole : (len k : ℕ) → suc k * 32 ≤ len → copy_len len (suc k) ≡ 32
  unfolding copy_len
  copy_len_whole len k h =
      let first : suc k - 1 ≡ k = omega arith in
      let whole : ltb (len - k * 32) 32 ≡ false = ground arith in rw (first, whole) refl

  copy_len_last :
      (len k : ℕ) → k * 32 < len → len ≤ suc k * 32 → copy_len len (suc k) ≡ len - k * 32
  unfolding copy_len
  copy_len_last len k h h' = let first : suc k - 1 ≡ k = omega arith in rw first (ground arith)

  last_filled :
      (k len : ℕ) (old : Bytes)
      → k * 32 < len
      → (okm (hmac_bytes h) prk info k
            ++ take (len - k * 32) (t_block (hmac_bytes h) prk info (suc k)))
          ++ drop (k * 32 + (len - k * 32)) old
        ≡ take len (okm (hmac_bytes h) prk info (suc k)) ++ drop len old
  unfolding okm
  last_filled k len old more =
      let front = okm (hmac_bytes h) prk info k in
      let block = t_block (hmac_bytes h) prk info (suc k) in
      let there : k * 32 + (len - k * 32) ≡ len = omega arith in
      ap₂ (λ a m. a ++ drop m old)
        (sym (take-append_more front block len (len - k * 32) (omega (arith, length-okm k)))) there

  whole_filled :
      (k : ℕ) (old : Bytes)
      → (okm (hmac_bytes h) prk info k ++ take 32 (t_block (hmac_bytes h) prk info (suc k)))
          ++ drop (k * 32 + 32) old
        ≡ okm (hmac_bytes h) prk info (suc k) ++ drop (suc k * 32) old
  unfolding okm
  whole_filled k old =
      let there : k * 32 + 32 ≡ suc k * 32 = omega arith in
      ap₂ (λ a m. (okm (hmac_bytes h) prk info k ++ a) ++ drop m old) (take-t_block k) there

  loop_stops :
      (len iterations fuel i : ℕ) (t out : Bytes)
      → iterations < i
      → expand_loop h prk info len iterations (suc fuel) i t out ≡ some (ok, out)
  unfolding expand_loop
  loop_stops len iterations fuel i t out h =
      let over : leb i iterations ≡ false = ground arith in rw over refl

  -- From iteration `suc k` on, `suc r` iterations lead behind the last one.
  run-okm :
      (r f len iterations fuel k : ℕ) (t old : Bytes)
      → k + suc r ≡ iterations
      → iterations ≤ 255
      → fuel ≡ suc r + f
      → len ≤ iterations * 32
      → iterations * 32 < len + 32
      → len ≤ length old
      → IsNext k t
      → expand_loop h prk info len iterations fuel
          (suc k)
          t
          (okm (hmac_bytes h) prk info k ++ drop (k * 32) old)
        ≡ expand_loop h prk info len iterations f
            (u8 (iterations + 1))
            (t_block (hmac_bytes h) prk info iterations)
            (take len (okm (hmac_bytes h) prk info iterations) ++ drop len old)
  run-okm r f len iterations zero k t old at most enough hi lo room next = absurd (omega arith)
  run-okm zero f len iterations (suc fuel) k t old at most enough hi lo room next =
      let left : fuel ≡ f = omega arith in
      let last : suc k ≡ iterations = omega arith in
      let out = take len (okm (hmac_bytes h) prk info (suc k)) ++ drop len old in
      iteration len iterations fuel k (len - k * 32) t old (omega arith) next
        (copy_len_last len k (omega arith) (omega arith)) (omega arith) (omega arith)
      ∙ ap₂
          (λ (n : ℕ) (b : Bytes).
            expand_loop h prk info len iterations n (u8 (suc k + 1))
              (t_block (hmac_bytes h) prk info (suc k)) b)
          left (last_filled k len old (omega arith))
      ∙ ap
          (λ (n : ℕ).
            expand_loop h prk info len iterations f (u8 (n + 1)) (t_block (hmac_bytes h) prk info n)
              (take len (okm (hmac_bytes h) prk info n) ++ drop len old))
          last
  run-okm (suc r) f len iterations (suc fuel) k t old at most enough hi lo room next =
      let small : u8 (suc k + 1) ≡ suc (suc k) = omega arith in
      let block = t_block (hmac_bytes h) prk info (suc k) in
      iteration len iterations fuel k 32 t old (omega arith) next
        (copy_len_whole len k (omega arith)) (omega arith) (omega arith)
      ∙ ap₂ (λ i out. expand_loop h prk info len iterations fuel i block out) small
          (whole_filled k old)
      ∙ run-okm r f len iterations fuel (suc k) block old (omega arith) most (omega arith) hi lo
          room (t_block-IsNext k)

  -- All iterations, from the zeros that `t` starts with.
  pub expand_loop-okm :
      (n len : ℕ) (out : Bytes)
      → n ≤ 254
      → len ≤ n * 32
      → n * 32 < len + 32
      → len ≤ length out
      → expand_loop h prk info len n 256 1 (replicate 32 0) out
        ≡ some (ok, take len (okm (hmac_bytes h) prk info n) ++ drop len out)
  unfolding okm t_block message
  expand_loop-okm zero len out most hi lo room =
      let nothing : 0 ≡ len = omega arith in
      loop_stops len 0 255 1 (replicate 32 0) out (omega arith)
      ∙ ap (λ l. some (ok, take l [] ++ drop l out)) nothing
  expand_loop-okm (suc r) len out most hi lo room =
      let f = 254 - r in
      run-okm r (suc f) len (suc r) 256 0 (replicate 32 0) out (omega arith) (omega arith)
        (omega arith) hi lo room refl
      ∙ loop_stops len (suc r) f (u8 (suc r + 1)) _ _ (omega arith)
