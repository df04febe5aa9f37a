-- ===== src/Sm2/EncryptLoop.antt =====
-- The loop of `Encrypt` in sm2/sm2.go: what it returns, and the call with empty data.
use gmsm.Common.{
  ℕ, zero, suc, ◌+◌, ◌-◌, ◌/◌, ◌%◌, from_bytes, take, drop, ◌<◌, ltb, ◌==◌, false, Bool-cases,
  arith, length, ◌⊎◌, ◌≡◌, refl, ap, ◌∙◌, List, [], ◌++◌, to_bytes, Option-cases, none, some, inl,
  inr,
}
use gmsm.Common.{Outcome, ok, err, ◌>>=◌, Outcome-cases}
use gmsm.Sm3.Refinement.{sm3_sum-hash}
use gmsm.Sm2.Curve.{Sm2Error, external, Point, Curve, rand_field_element, read_full, field_element}
use gmsm.Sm2.Encryption.{xor_bytes, Padded, pad_points, encrypt_round, encrypt_loop, encrypt}
use gmsm.Sm2.KeyStream.{stream, nonzero, kdf-stream}

-- A round of the loop with its draw: the array it starts from and the number drawn.
unfoldable pub IsRound : Curve → Point → List ℕ → List ℕ → Type 0
IsRound c pub_key data_bytes out =
    (store : List ℕ) × (k : ℕ) × (encrypt_round
        (pad_points store (c.scalar_base_mult (to_bytes k)) (c.scalar_mult pub_key (to_bytes k)))
        data_bytes
      ≡ ok (some out))

-- A ciphertext that the loop of `Encrypt` returns some round has made, of a number `k` and of what
-- the array behind `zeroByteSlice` held then.
pub encrypt_loop-IsRound :
    (fuel : ℕ) (store : List ℕ) (c : Curve) (pub_key : Point) (data_bytes rand out left : List ℕ)
    → (encrypt_loop fuel store c pub_key data_bytes rand).1 ≡ ok (out, left)
    → IsRound c pub_key data_bytes out
unfolding encrypt_loop IsRound
encrypt_loop-IsRound zero store c pub_key data_bytes rand out left h = cc
encrypt_loop-IsRound (suc fuel) store c pub_key data_bytes rand out left h =
    elim (Outcome-cases (rand_field_element c rand)) [
      | inl ((k, rest), drawn) ↦
          let p =
            pad_points store (c.scalar_base_mult (to_bytes k))
              (c.scalar_mult pub_key (to_bytes k)) in
          let h' = rw (encrypt_loop, drawn) at h in
          elim (Outcome-cases (encrypt_round p data_bytes)) [
            | inl (result, made) ↦
                let h2 = rw made at h' in
                elim (Option-cases result) [
                  | inl missing ↦
                      encrypt_loop-IsRound fuel p.store c pub_key data_bytes rest out left
                        (rw missing at h2)
                  | inr (found, there) ↦
                      let h3 = rw there at h2 in
                      let same : found ≡ out = cc in (store, k, made ∙ ap ok (there ∙ ap some same))
                ]
            | inr (inl (x, failed)) ↦ let clash = rw failed at h' in absurd (cc)
            | inr (inr failed) ↦ let clash = rw failed at h' in absurd (cc)
          ]
      | inr (inl (x, failed)) ↦ let clash = rw (encrypt_loop, failed) at h in absurd (cc)
      | inr (inr failed) ↦ let clash = rw (encrypt_loop, failed) at h in absurd (cc)
    ]

-- A round of empty data goes on with the next draw, since no byte of its key stream is set.
round_empty : (p : Padded) → encrypt_round p [] ≡ ok none
unfolding encrypt_round stream nonzero xor_bytes
round_empty p = rw (sm3_sum-hash {E = Sm2Error} (p.x2 ++ p.y2), kdf-stream p.x2 p.y2 0) refl

-- The draws of the loop without the rounds, until one of them fails.
unfoldable pub draw_on : ℕ → Curve → List ℕ → Outcome Sm2Error (List ℕ × List ℕ)
draw_on zero c rand = err external
draw_on (suc fuel) c rand = rand_field_element c rand >>= λ drawn. draw_on fuel c drawn.1

encrypt_loop-draw_on :
    (fuel : ℕ) (store : List ℕ) (c : Curve) (pub_key : Point) (rand : List ℕ)
    → (encrypt_loop fuel store c pub_key [] rand).1 ≡ draw_on fuel c rand
unfolding encrypt_loop draw_on
encrypt_loop-draw_on zero store c pub_key rand = refl
encrypt_loop-draw_on (suc fuel) store c pub_key rand =
    elim (Outcome-cases (rand_field_element c rand)) [
      | inl ((k, rest), drawn) ↦
          let p =
            pad_points store (c.scalar_base_mult (to_bytes k))
              (c.scalar_mult pub_key (to_bytes k)) in
          rw (encrypt_loop, drawn, round_empty p) (encrypt_loop-draw_on fuel p.store c pub_key rest)
      | inr (inl (x, failed)) ↦ rw (encrypt_loop, failed) refl
      | inr (inr failed) ↦ rw (encrypt_loop, failed) refl
    ]

-- With an order above one a draw only fails where the source has ended.
draw_fails :
    (c : Curve) (rand : List ℕ)
    → 1 < c.order
    → ((k : ℕ × List ℕ) × (rand_field_element c rand ≡ ok k))
      ⊎ (rand_field_element c rand ≡ err external)
unfolding rand_field_element read_full field_element
draw_fails c rand h = elim (Bool-cases (ltb (length rand) (c.bit_size / 8 + 8))) [
  | inl short ↦ inr (rw short refl)
  | inr enough ↦
      let above : (c.order == 1) ≡ false = ground arith in
      let some_order : (c.order == 0) ≡ false = ground arith in
      let n = c.bit_size / 8 + 8 in
      inl (
        (from_bytes (take n rand) % (c.order - 1) + 1, drop n rand),
        rw (enough, above, some_order) refl,
      )
]

draw_on_ends :
    (fuel : ℕ) (c : Curve) (rand : List ℕ) → 1 < c.order → draw_on fuel c rand ≡ err external
unfolding draw_on
draw_on_ends zero c rand h = refl
draw_on_ends (suc fuel) c rand h = elim (draw_fails c rand h) [
  | inl ((k, rest), drawn) ↦ rw drawn (draw_on_ends fuel c rest h)
  | inr failed ↦ rw failed refl
]

-- Of empty data every round of `Encrypt` goes on with the next, without an error or a panic and
-- whatever is drawn, so that with an order above one the call ends only where the source of random
-- bytes does, with the source's error.
pub encrypt_empty :
    (store : List ℕ) (c : Curve) (pub_key : Point) (rand : List ℕ)
    → 1 < c.order
    → ((p : Padded) → encrypt_round p [] ≡ ok none)
      × ((encrypt store c pub_key [] rand).1 ≡ err external)
unfolding encrypt
encrypt_empty store c pub_key rand h = (
  round_empty,
  encrypt_loop-draw_on (length rand) store c pub_key rand ∙ draw_on_ends (length rand) c rand h,
)
