-- ===== src/Sm4/Rounds.antt =====
-- The loops of `cryptBlock` are the standard's rounds over the keys, taken forwards or backwards.
use gmsm.Common.{
  ℕ, zero, suc, ◌+◌, ◌-◌, ◌*◌, ◌<◌, bit_xor, xor-lt, xor_cancel, ◌≡◌, refl, sym, ap, ◌∙◌, List, [],
  ◌∷◌, ◌++◌, foldl, length, get_or, get_elem?-get_or, take, drop, drop_all, All, All-get_or, IsWord,
  arith,
}
use gmsm.Common.{ok, index, or_panic, var, ◌⊕◌, parity, xor_solve}
use mathlib.Core.List.{reverse, reverse-cons, reverse-append, foldl-append}
use gmsm.Sm4.Cipher.{Block, Sm4Error, four_rounds, encrypt_loop, decrypt_loop}
use gmsm.Sm4.Spec.{reversed, spread, round, cipher, IsBlock}
use gmsm.Sm4.Linear.{mix-spread, linear-IsWord, p-IsWord}

pub spread-IsWord : (x : ℕ) → IsWord x → IsWord (spread x)
unfolding spread
spread-IsWord x h = linear-IsWord _ (p-IsWord x h)

abbrev window : ℕ → ℕ → ℕ → ℕ → ℕ
window a b c k = bit_xor (bit_xor (bit_xor a b) c) k

window-IsWord : (a b c k : ℕ) → IsWord a → IsWord b → IsWord c → IsWord k → IsWord (window a b c k)
window-IsWord a b c k ha hb hc hk = xor-lt 32 _ _ (xor-lt 32 _ _ (xor-lt 32 _ _ ha hb) hc) hk

pub round-IsBlock : (b : Block) (k : ℕ) → IsBlock b → IsWord k → IsBlock (round b k)
unfolding round
round-IsBlock b k h hk =
    (h.1, h.2, h.3, xor-lt 32 _ _ h.0 (spread-IsWord _ (window-IsWord _ _ _ _ h.1 h.2 h.3 hk)))

pub foldl-round-IsBlock :
    (keys : List ℕ) (b : Block) → All IsWord keys → IsBlock b → IsBlock (foldl round b keys)
foldl-round-IsBlock [] b hk h = h
foldl-round-IsBlock (k ∷ keys) b hk h =
    foldl-round-IsBlock keys (round b k) hk.1 (round-IsBlock b k h hk.0)

-- The orders in which the code adds up the windows of its later rounds.
turn_left : (a b c k : ℕ) → window a b c k ≡ window b c a k
unfolding parity
turn_left a b c k =
    xor_solve (a ∷ b ∷ c ∷ k ∷ []) (var 0 ⊕ var 1 ⊕ var 2 ⊕ var 3) (var 1 ⊕ var 2 ⊕ var 0 ⊕ var 3)
      refl

-- One turn of the loop body is four rounds of the standard.
pub four_rounds-round :
    (k0 k1 k2 k3 : ℕ) (b : Block)
    → IsWord k0
    → IsWord k1
    → IsWord k2
    → IsWord k3
    → IsBlock b
    → four_rounds k0 k1 k2 k3 b ≡ round (round (round (round b k0) k1) k2) k3
unfolding four_rounds round
four_rounds-round k0 k1 k2 k3 b h0 h1 h2 h3 h =
    let r1 = round b k0 in
    let r2 = round r1 k1 in
    let r3 = round r2 k2 in
    let i1 : IsBlock r1 = round-IsBlock b k0 h h0 in
    let i2 : IsBlock r2 = round-IsBlock r1 k1 i1 h1 in
    let i3 : IsBlock r3 = round-IsBlock r2 k2 i2 h2 in
    cc (
      mix-spread b.w0 (window b.w1 b.w2 b.w3 k0) (window-IsWord _ _ _ _ h.1 h.2 h.3 h0),
      mix-spread b.w1 (window b.w2 b.w3 r1.w3 k1) (window-IsWord _ _ _ _ i1.1 i1.2 i1.3 h1),
      mix-spread b.w2 (window b.w3 r1.w3 r2.w3 k2) (window-IsWord _ _ _ _ i2.1 i2.2 i2.3 h2),
      mix-spread b.w3 (window r1.w3 r2.w3 r3.w3 k3) (window-IsWord _ _ _ _ i3.1 i3.2 i3.3 h3),
      turn_left r1.w3 b.w2 b.w3 k1,
      turn_left r1.w3 r2.w3 b.w3 k2,
      turn_left r2.w3 b.w3 r1.w3 k2,
      turn_left r1.w3 r2.w3 r3.w3 k3,
    )

-- A round undoes itself on the reversed window.
round-swap : (b : Block) (k : ℕ) → round (reversed (round b k)) k ≡ reversed b
unfolding round reversed parity
round-swap b k =
    let t = spread (window b.w1 b.w2 b.w3 k) in
    cc (
      xor_solve (b.w1 ∷ b.w2 ∷ b.w3 ∷ k ∷ []) (var 2 ⊕ var 1 ⊕ var 0 ⊕ var 3)
          (var 0 ⊕ var 1 ⊕ var 2 ⊕ var 3) refl,
      xor_cancel b.w0 t,
    )

-- The rounds with the keys backwards undo the cipher.
pub cipher-reverse : (keys : List ℕ) (b : Block) → cipher (reverse keys) (cipher keys b) ≡ b
unfolding cipher
cipher-reverse keys b = ap reversed (undo keys b) ∙ unfold reversed in refl
  where
    undo :
        (ks : List ℕ) (c : Block)
        → foldl round (reversed (foldl round c ks)) (reverse ks) ≡ reversed c
    undo [] c = refl
    undo (k ∷ ks) c =
        ap (foldl round (reversed (foldl round c (k ∷ ks)))) (reverse-cons k ks)
        ∙ foldl-append round _ (reverse ks) (k ∷ [])
        ∙ ap (λ d. round d k) (undo ks (round c k))
        ∙ round-swap c k

-- The keys that the loops of the code still read, the next one first.
drop_key :
    (ks : List ℕ) (i j : ℕ) → j ≡ i + 1 → i < length ks → drop i ks ≡ get_or ks i 0 ∷ drop j ks
drop_key [] i j e h = absurd (omega arith)
drop_key (k ∷ ks) zero zero e h = absurd (omega arith)
drop_key (k ∷ ks) (suc i) zero e h = absurd (omega arith)
drop_key (k ∷ ks) zero (suc j) e h = ap (λ (n : ℕ). k ∷ drop n ks) {x = 0} {y = j} (omega arith)
drop_key (k ∷ ks) (suc i) (suc j) e h = drop_key ks i j (omega arith) (omega arith)

take_key :
    (ks : List ℕ) (i : ℕ) → i < length ks → take (suc i) ks ≡ take i ks ++ (get_or ks i 0 ∷ [])
take_key [] i h = absurd (omega arith)
take_key (k ∷ ks) zero h = refl
take_key (k ∷ ks) (suc i) h = ap (λ t. k ∷ t) (take_key ks i (omega arith))

reverse_key :
    (ks : List ℕ) (i j : ℕ)
    → j ≡ i + 1
    → i < length ks
    → reverse (take j ks) ≡ get_or ks i 0 ∷ reverse (take i ks)
reverse_key ks i j e h =
    ap (λ (n : ℕ). reverse (take n ks)) {y = suc i} (omega arith)
    ∙ ap reverse (take_key ks i h)
    ∙ reverse-append (take i ks) (get_or ks i 0 ∷ [])

read_key : (ks : List ℕ) (i : ℕ) → i < length ks → index {E = Sm4Error} ks i ≡ ok (get_or ks i 0)
read_key ks i h = ap or_panic (get_elem?-get_or ks i 0 h)

key-IsWord : (ks : List ℕ) (i : ℕ) → All IsWord ks → IsWord (get_or ks i 0)
key-IsWord ks i h = All-get_or IsWord ks i 0 h (omega arith)

-- Four rounds with the keys at four places, and their result is a block again.
four_at :
    (ks : List ℕ) (i0 i1 i2 i3 : ℕ) (b : Block)
    → All IsWord ks
    → IsBlock b
    → let k0 = get_or ks i0 0 in
      let k1 = get_or ks i1 0 in
      let k2 = get_or ks i2 0 in
      let k3 = get_or ks i3 0 in
      let b' = four_rounds k0 k1 k2 k3 b in
      (b' ≡ round (round (round (round b k0) k1) k2) k3) × IsBlock b'
four_at ks i0 i1 i2 i3 b hk hb =
    let w0 = key-IsWord ks i0 hk in
    let w1 = key-IsWord ks i1 hk in
    let w2 = key-IsWord ks i2 hk in
    let w3 = key-IsWord ks i3 hk in
    let e = four_rounds-round _ _ _ _ b w0 w1 w2 w3 hb in
    (
      e,
      rw e (
          round-IsBlock _ _ (round-IsBlock _ _ (round-IsBlock _ _ (round-IsBlock b _ hb w0) w1) w2)
            w3),
    )

foldl_four :
    (k0 k1 k2 k3 : ℕ) (l0 l1 l2 l3 l4 : List ℕ) (b : Block)
    → l0 ≡ k0 ∷ l1
    → l1 ≡ k1 ∷ l2
    → l2 ≡ k2 ∷ l3
    → l3 ≡ k3 ∷ l4
    → foldl round (round (round (round (round b k0) k1) k2) k3) l4 ≡ foldl round b l0
foldl_four k0 k1 k2 k3 l0 l1 l2 l3 l4 b e0 e1 e2 e3 =
    let e : l0 ≡ k0 ∷ k1 ∷ k2 ∷ k3 ∷ l4 = cc in sym (ap (foldl round b) e)

-- The loop of the encryption is the standard's rounds, with the keys in order.
pub encrypt_loop-foldl :
    (left i : ℕ) (ks : List ℕ) (b : Block)
    → 4 * (left + i) ≡ length ks
    → All IsWord ks
    → IsBlock b
    → encrypt_loop left i ks b ≡ ok (foldl round b (drop (4 * i) ks))
unfolding encrypt_loop
encrypt_loop-foldl zero i ks b e hk hb = rw (drop_all (4 * i) ks (omega arith))
encrypt_loop-foldl (suc left) i ks b e hk hb =
    let (four, hb') = four_at ks (4 * i) (4 * i + 1) (4 * i + 2) (4 * i + 3) b hk hb in
    rw
      (
        read_key ks (4 * i) (omega arith),
        read_key ks (4 * i + 1) (omega arith),
        read_key ks (4 * i + 2) (omega arith),
        read_key ks (4 * i + 3) (omega arith),
        encrypt_loop-foldl left (i + 1) ks _ (omega arith) hk hb',
        four,
      )
      (ap ok (
        foldl_four _ _ _ _ _ _ _ _ _ b (drop_key ks (4 * i) (4 * i + 1) refl (omega arith))
          (drop_key ks (4 * i + 1) (4 * i + 2) (omega arith) (omega arith))
          (drop_key ks (4 * i + 2) (4 * i + 3) (omega arith) (omega arith))
          (drop_key ks (4 * i + 3) (4 * (i + 1)) (omega arith) (omega arith))))

-- The loop of the decryption is the standard's rounds, with the keys backwards.
pub decrypt_loop-foldl :
    (left i : ℕ) (ks : List ℕ) (b : Block)
    → left + i ≡ 8
    → length ks ≡ 32
    → All IsWord ks
    → IsBlock b
    → decrypt_loop left i ks b ≡ ok (foldl round b (reverse (take (32 - 4 * i) ks)))
unfolding decrypt_loop
decrypt_loop-foldl zero i ks b e n hk hb = rw (none_left (32 - 4 * i) (omega arith))
  where
    none_left : (n : ℕ) → n ≡ 0 → take n ks ≡ []
    none_left zero h = refl
    none_left (suc n) h = absurd (omega arith)
decrypt_loop-foldl (suc left) i ks b e n hk hb =
    let j = 31 - 4 * i in
    let (four, hb') = four_at ks j (j - 1) (j - 2) (j - 3) b hk hb in
    rw
      (
        read_key ks j (omega arith),
        read_key ks (j - 1) (omega arith),
        read_key ks (j - 2) (omega arith),
        read_key ks (j - 3) (omega arith),
        decrypt_loop-foldl left (i + 1) ks _ (omega arith) n hk hb',
        four,
      )
      (ap ok (
        foldl_four _ _ _ _ _ _ _ _ _ b (reverse_key ks j (32 - 4 * i) (omega arith) (omega arith))
          (reverse_key ks (j - 1) j (omega arith) (omega arith))
          (reverse_key ks (j - 2) (j - 1) (omega arith) (omega arith))
          (last_key (j - 3) (j - 2) (32 - 4 * (i + 1)) (omega arith) (omega arith) (omega arith))))
  where
    last_key :
        (m n o : ℕ)
        → n ≡ m + 1
        → m ≡ o
        → m < length ks
        → reverse (take n ks) ≡ get_or ks m 0 ∷ reverse (take o ks)
    last_key m n o p q r =
        reverse_key ks m n p r ∙ ap (λ (t : ℕ). get_or ks m 0 ∷ reverse (take t ks)) q
