-- ===== src/Sm2/P256/Scalars/Mult.antt =====
-- `sm2P256ScalarMult`, whose loop never branches, adds and doubles as a loop with branches does.
use gmsm.Common.{
  ℕ, zero, suc, ◌+◌, ◌*◌, ◌/◌, ◌<◌, ◌≡◌, refl, sym, ◌∙◌, subst, ◌==◌, if◌then◌else◌, List, [], ◌∷◌,
  ◌++◌, arith, Bool, true, false, Option, none, some, All, All-append, length-append, All-get_or,
  IsByte, length, get_or, drop, All-drop,
}
use gmsm.Sm2.Field.Arrays.{IsArray}
use gmsm.Sm2.Field.Convert.{to_big, to_big_loop}
use gmsm.Sm2.P256.Points.{Jacobian, factor, point_double, point_add, point_add_mixed}
use gmsm.Sm2.P256.Select.{zeros, select_jacobian_point}
use gmsm.Sm2.P256.Select.Lookup.{IsEntry, select_jacobian_point_entry}
use gmsm.Sm2.P256.Entries.{
  point_double-IsEntry, point_add_mixed-IsEntry, point_add-IsEntry, factor-one,
}
use gmsm.Sm2.P256.Scalars.{
  Sum, accept, infinity, precompute, multiples, window, mult_loop, scalar_mult,
}
use gmsm.Sm2.P256.Scalars.Digits.{window-lt}
use gmsm.Sm2.P256.Scalars.Refinement.{
  add_to, doubled, Keeps, IsSum, IsSum-Keeps, skip-IsSum, take-IsSum, double-Keeps, zeros-IsArray,
  Keeps-IsEntry, Stands, IsSum-Stands, infinity-IsSum,
}

precompute-IsEntry :
    (n : ℕ) (x y : List ℕ) (precomp : List Jacobian)
    → IsArray x
    → IsArray y
    → All IsEntry precomp
    → All IsEntry (precompute n x y precomp)
unfolding precompute infinity
precompute-IsEntry zero x y precomp hx hy h = h
precompute-IsEntry (suc n) x y precomp hx hy h =
    let half = get_or precomp (length precomp / 2) infinity in
    let even = point_double half in
    let h_half =
      All-get_or IsEntry precomp (length precomp / 2) infinity h
        (zeros-IsArray, zeros-IsArray, zeros-IsArray) in
    let h_even = point_double-IsEntry half h_half in
    let odd = point_add_mixed even x y in
    let more = precomp ++ (even ∷ odd ∷ []) in
    precompute-IsEntry n x y more hx hy (
      All-append IsEntry precomp (even ∷ odd ∷ []) h
        (h_even, (point_add_mixed-IsEntry even x y h_even hx hy, tt)))

-- The multiples that are looked up, without the first, which is none.
unfoldable pub entries : List ℕ → List ℕ → List Jacobian
entries x y = drop 1 (multiples x y)

-- The entry at an index that is not zero is added; the addition is `sm2P256PointAdd`.
unfoldable pub add_window : List Jacobian → ℕ → Option Jacobian → Option Jacobian
add_window table zero sum = sum
add_window table (suc k) sum =
    let p = get_or table k infinity in some (add_to (λ q. (point_add q p).1) p sum)

-- Four doublings and an addition for each four bits from the highest on.
unfoldable pub add_windows : List Jacobian → List ℕ → ℕ → ℕ → Option Jacobian → Option Jacobian
add_windows table scalar zero i sum = sum
add_windows table scalar (suc n) i sum =
    let start = if i == 0 then sum else doubled (doubled (doubled (doubled sum))) in
    add_windows table scalar n (suc i) (add_window table (window scalar i) start)

length-precompute :
    (n : ℕ) (x y : List ℕ) (precomp : List Jacobian)
    → length (precompute n x y precomp) ≡ length precomp + 2 * n
unfolding precompute
length-precompute zero x y precomp = omega arith
length-precompute (suc n) x y precomp =
    let even = point_double (get_or precomp (length precomp / 2) infinity) in
    let pair = even ∷ point_add_mixed even x y ∷ [] in
    omega (arith, length-precompute n x y (precomp ++ pair), length-append precomp pair)

-- There are sixteen multiples, and all of them are points of nine words each.
multiples-AreEntries :
    (x y : List ℕ)
    → IsArray x
    → IsArray y
    → (length (multiples x y) ≡ 16) × All IsEntry (multiples x y)
unfolding multiples infinity
multiples-AreEntries x y hx hy =
    let start : List Jacobian = infinity ∷ record { x = x; y = y; z = factor 1 } ∷ [] in
    (
      length-precompute 7 x y start ∙ omega arith,
      precompute-IsEntry 7 x y start hx hy
          ((zeros-IsArray, zeros-IsArray, zeros-IsArray), ((hx, hy, factor-one), tt)),
    )

-- The look-up in a table of sixteen points: at zero nothing, else the entry behind the first.
select_sixteen :
    (table : List Jacobian) (index : ℕ)
    → length table ≡ 16
    → All IsEntry table
    → index < 16
    → select_jacobian_point table index ≡ get_or (infinity ∷ drop 1 table) index infinity
unfolding infinity
select_sixteen [] index size h low = absurd (omega arith)
select_sixteen (t ∷ table) index size (_, h) low =
    select_jacobian_point_entry t table index (omega arith) h low

-- A turn with the entry that was looked up, after the doublings.
abbrev turn_with : Jacobian → ℕ → ℕ → Jacobian → Sum
turn_with start mask index p = let (out, t) = point_add start p in accept out mask p t index

first_choice :
    (b : Bool) (c d : Jacobian × Jacobian) (q : Jacobian)
    → c.0 ≡ q
    → d.0 ≡ q
    → (if b then c else d).0 ≡ q
first_choice true c d q hc hd = hc
first_choice false c d q hc hd = hd

-- The addition of the entry zero leaves the first point.
add_origin : (q : Jacobian) → (point_add q infinity).0 ≡ q
unfolding point_add infinity zeros to_big to_big_loop
add_origin q = first_choice (to_big q.z == 0) (q, infinity) (q, q) q refl refl

window-IsSum :
    (table : List Jacobian) (index : ℕ) (s : Sum) (sum : Option Jacobian)
    → length table ≡ 16
    → All IsEntry table
    → index < 16
    → Keeps s sum
    → IsSum
        (turn_with s.out s.n_is_infinity_mask index (select_jacobian_point table index))
        (add_window (drop 1 table) index sum)
unfolding add_window infinity
window-IsSum table zero s sum size all low h =
    let found = select_sixteen table 0 size all low in
    let start = s.out in
    let hs = Keeps-IsEntry s sum h in
    let none_entry : IsEntry infinity = (zeros-IsArray, zeros-IsArray, zeros-IsArray) in
    subst (λ (p : Jacobian). IsSum (turn_with start s.n_is_infinity_mask 0 p) sum) (sym found)
      (subst
        (λ (out : Jacobian).
          IsSum (accept out s.n_is_infinity_mask infinity (point_add start infinity).1 0) sum)
        (sym (add_origin start))
        (skip-IsSum s sum infinity (point_add start infinity).1 h none_entry
          (point_add-IsEntry start infinity hs none_entry).1 refl refl))
window-IsSum table (suc k) s sum size all low h =
    let found = select_sixteen table (suc k) size all low in
    let start = s.out in
    let hs = Keeps-IsEntry s sum h in
    let p = get_or (drop 1 table) k infinity in
    let hp =
      All-get_or IsEntry (drop 1 table) k infinity (All-drop IsEntry 1 table all)
        (zeros-IsArray, zeros-IsArray, zeros-IsArray) in
    let (h_out, h_t) = point_add-IsEntry start p hs hp in
    subst
      (λ (q : Jacobian).
        IsSum (turn_with start s.n_is_infinity_mask (suc k) q)
          (add_window (drop 1 table) (suc k) sum))
      (sym found)
      (take-IsSum s sum (point_add start p).0 p (λ q. (point_add q p).1) k h h_out hp h_t low)

abbrev twice : Sum → Sum
twice s = record { out = point_double s.out; n_is_infinity_mask = s.n_is_infinity_mask }

first_or_doubles :
    (b : Bool) (s : Sum) (sum : Option Jacobian)
    → IsSum s sum
    → Keeps
        (record {
          out =
              if b then s.out else point_double (point_double (point_double (point_double s.out)));
          n_is_infinity_mask = s.n_is_infinity_mask;
        })
        (if b then sum else doubled (doubled (doubled (doubled sum))))
first_or_doubles true s sum h = IsSum-Keeps s sum h
first_or_doubles false s sum h =
    let h1 = double-Keeps s sum (IsSum-Keeps s sum h) in
    let h2 = double-Keeps (twice s) (doubled sum) h1 in
    let h3 = double-Keeps (twice (twice s)) (doubled (doubled sum)) h2 in
    double-Keeps (twice (twice (twice s))) (doubled (doubled (doubled sum))) h3

mult_loop-IsSum :
    (table : List Jacobian) (scalar : List ℕ) (n i : ℕ) (s : Sum) (sum : Option Jacobian)
    → length table ≡ 16
    → All IsEntry table
    → All IsByte scalar
    → IsSum s sum
    → IsSum (mult_loop table scalar n i s) (add_windows (drop 1 table) scalar n i sum)
unfolding mult_loop add_windows
mult_loop-IsSum table scalar zero i s sum size all bytes h = h
mult_loop-IsSum table scalar (suc n) i s sum size all bytes h =
    let start =
      if i == 0 then s.out else point_double (point_double (point_double (point_double s.out))) in
    let begun = if i == 0 then sum else doubled (doubled (doubled (doubled sum))) in
    let index = window scalar i in
    let next = turn_with start s.n_is_infinity_mask index (select_jacobian_point table index) in
    mult_loop-IsSum table scalar n (suc i) next (add_window (drop 1 table) index begun) size all
      bytes
      (window-IsSum table index (record { out = start; n_is_infinity_mask = s.n_is_infinity_mask })
        begun size all (window-lt scalar i bytes) (first_or_doubles (i == 0) s sum h))

-- For coordinates of nine words and a scalar of bytes `sm2P256ScalarMult` returns what a loop with
-- branches sums up: for each four bits of the scalar, from the highest on, it doubles the sum four
-- times and adds the multiple of the point that the bits name, by `sm2P256PointAdd`, takes the first
-- one as it is, and adds nothing where the bits are zero. Where nothing was added the coordinates
-- `x` and `y` are zero.
pub scalar_mult-add_windows :
    (x y scalar : List ℕ)
    → IsArray x
    → IsArray y
    → All IsByte scalar
    → Stands (scalar_mult x y scalar) (add_windows (entries x y) scalar 64 0 none)
unfolding scalar_mult entries
scalar_mult-add_windows x y scalar hx hy bytes =
    let start : Sum = record { out = infinity; n_is_infinity_mask = 0xffffffff } in
    let (size, all) = multiples-AreEntries x y hx hy in
    IsSum-Stands (mult_loop (multiples x y) scalar 64 0 start)
      (add_windows (entries x y) scalar 64 0 none)
      (mult_loop-IsSum (multiples x y) scalar 64 0 start none size all bytes infinity-IsSum)
