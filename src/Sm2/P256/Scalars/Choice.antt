-- ===== src/Sm2/P256/Scalars/Choice.antt =====
-- How the loops of sm2/p256.go take up a point without a branch.
use gmsm.Common.{
  ℕ, zero, suc, ◌-◌, ◌<◌, ◌≡◌, refl, sym, ap, ap₂, ◌∙◌, bit_and, ◌==◌, ◌&&◌, if◌then◌else◌, arith,
  Bool, true, false, and_zero, zero_and,
}
use gmsm.Sm2.Field.{sub32}
use gmsm.Sm2.Field.Degree.{non_zero_to_all_ones}
use gmsm.Sm2.P256.Points.{Jacobian}
use gmsm.Sm2.P256.Select.Masks.{copy_conditional_choice}
use gmsm.Sm2.P256.Select.Lookup.{IsEntry}
use gmsm.Sm2.P256.Scalars.{Sum, copy_point, accept}

-- A mask with every bit set, or none.
abbrev pub mask_of : Bool → ℕ
mask_of b = if b then 0xffffffff else 0

copy_taken : (out p : Jacobian) → IsEntry out → IsEntry p → copy_point out p 0xffffffff ≡ p
unfolding copy_point
copy_taken out p (ox, oy, oz) (px, py, pz) = λ i. record {
  x = copy_conditional_choice out.x p.x true ox px i;
  y = copy_conditional_choice out.y p.y true oy py i;
  z = copy_conditional_choice out.z p.z true oz pz i;
}

copy_left : (out p : Jacobian) → IsEntry out → IsEntry p → copy_point out p 0 ≡ out
unfolding copy_point
copy_left out p (ox, oy, oz) (px, py, pz) = λ i. record {
  x = copy_conditional_choice out.x p.x false ox px i;
  y = copy_conditional_choice out.y p.y false oy py i;
  z = copy_conditional_choice out.z p.z false oz pz i;
}

zero_mask : non_zero_to_all_ones 0 ≡ 0
unfolding non_zero_to_all_ones sub32
zero_mask = refl

suc_mask : (k : ℕ) → suc k < 16 → non_zero_to_all_ones (suc k) ≡ 0xffffffff
unfolding non_zero_to_all_ones sub32
suc_mask k low = omega arith

suc_test : (k : ℕ) → (suc k == 0) ≡ false
suc_test k = ground arith

-- What `accept` makes, by the masks of its two copies and the one that it leaves.
abbrev taken_up : Jacobian → Jacobian → Jacobian → ℕ → ℕ → ℕ → Sum
taken_up out p t m1 m2 m3 = record {
  out = copy_point (copy_point out p m1) t m2;
  n_is_infinity_mask = m3;
}

-- For points of nine words each and an index below sixteen: where nothing is summed up so far, the
-- point that was looked up is taken; else the sum is taken, but at the index zero, where what was
-- there is kept. Nothing is summed up after that only if nothing was before and the index is zero.
pub accept_choice :
    (infinite : Bool) (out p t : Jacobian) (index : ℕ)
    → IsEntry out
    → IsEntry p
    → IsEntry t
    → index < 16
    → accept out (mask_of infinite) p t index ≡ record {
      out = if infinite then p else if index == 0 then out else t;
      n_is_infinity_mask = mask_of (infinite && (index == 0));
    }
unfolding accept
accept_choice true out p t zero ho hp ht low =
    ap₂ (taken_up out p t 0xffffffff) (and_zero (non_zero_to_all_ones 0))
      (ap (λ (m : ℕ). bit_and 0xffffffff (0xffffffff - m)) zero_mask)
    ∙ λ i. record {
      out =
          (ap (λ (q : Jacobian). copy_point q t 0) (copy_taken out p ho hp) ∙ copy_left p t hp ht)
            i;
      n_is_infinity_mask = 0xffffffff;
    }
accept_choice true out p t (suc k) ho hp ht low =
    ap₂ (taken_up out p t 0xffffffff) (and_zero (non_zero_to_all_ones (suc k)))
      (ap (λ (m : ℕ). bit_and 0xffffffff (0xffffffff - m)) (suc_mask k low))
    ∙ (λ i. record {
      out =
          (ap (λ (q : Jacobian). copy_point q t 0) (copy_taken out p ho hp) ∙ copy_left p t hp ht)
            i;
      n_is_infinity_mask = 0;
    })
    ∙ ap (λ (b : Bool). record { out = p; n_is_infinity_mask = mask_of b }) (sym (suc_test k))
accept_choice false out p t zero ho hp ht low =
    ap₂ (taken_up out p t 0) (ap (λ (m : ℕ). bit_and m 0xffffffff) zero_mask)
      (zero_and (0xffffffff - non_zero_to_all_ones 0))
    ∙ λ i. record {
      out =
          (ap (λ (q : Jacobian). copy_point q t 0) (copy_left out p ho hp) ∙ copy_left out t ho ht)
            i;
      n_is_infinity_mask = 0;
    }
accept_choice false out p t (suc k) ho hp ht low =
    ap₂ (taken_up out p t 0) (ap (λ (m : ℕ). bit_and m 0xffffffff) (suc_mask k low))
      (zero_and (0xffffffff - non_zero_to_all_ones (suc k)))
    ∙ (λ i. record {
      out =
          (ap (λ (q : Jacobian). copy_point q t 0xffffffff) (copy_left out p ho hp)
              ∙ copy_taken out t ho ht)
            i;
      n_is_infinity_mask = 0;
    })
    ∙ ap (λ (b : Bool). record { out = if b then out else t; n_is_infinity_mask = 0 })
        (sym (suc_test k))

pub accept_skip :
    (infinite : Bool) (out p t : Jacobian)
    → IsEntry out
    → IsEntry p
    → IsEntry t
    → accept out (mask_of infinite) p t 0
      ≡ record { out = if infinite then p else out; n_is_infinity_mask = mask_of infinite }
accept_skip true out p t ho hp ht = accept_choice true out p t 0 ho hp ht (omega arith)
accept_skip false out p t ho hp ht = accept_choice false out p t 0 ho hp ht (omega arith)

pub accept_take :
    (infinite : Bool) (out p t : Jacobian) (k : ℕ)
    → IsEntry out
    → IsEntry p
    → IsEntry t
    → suc k < 16
    → accept out (mask_of infinite) p t (suc k)
      ≡ record { out = if infinite then p else t; n_is_infinity_mask = 0 }
accept_take true out p t k ho hp ht low =
    accept_choice true out p t (suc k) ho hp ht low
    ∙ ap (λ (b : Bool). record { out = p; n_is_infinity_mask = mask_of b }) (suc_test k)
accept_take false out p t k ho hp ht low =
    accept_choice false out p t (suc k) ho hp ht low
    ∙ ap (λ (b : Bool). record { out = if b then out else t; n_is_infinity_mask = 0 }) (suc_test k)
